-- ===== src/Actions.antt =====
-- mod_dev_tool/actions: the interface of an action (IAction.h) and the manager of the history
-- (ActionManager.h, ActionManager.cpp). `W` is what the actions and the listeners change.
pub mod History
pub mod Sessions
pub mod Rewind
pub mod SetProperty
pub mod CreateRemove
mod Tests
use ho_i4_mod_development_to.Base.{
  ℕ, ◌%◌, ◌^◌, Bool, true, false, ◌&&◌, List, [], ◌∷◌, length, if◌then◌else◌, ltb,
}

-- `std::function<bool(ActionState)>`: what the caller answers at each state of an action.
abbrev pub Callback : Type 0
Callback = ℕ → Bool

-- `IAction::_`, the default callback.
abbrev pub always : Callback
always _ = true

-- The virtual functions of an action. Each returns whether it succeeded, and the new world.
pub record IAction (W : Type 0) : Type 0 where
  pub do_action : Callback → W → Bool × W
  pub undo_action : Callback → W → Bool × W
  pub can_be_undone : Bool

-- `actions` from the newest, `undone_actions` from the last one undone.
pub record ActionManager (W : Type 0) : Type 0 where
  pub actions : List (IAction W)
  pub undone_actions : List (IAction W)
  pub on_do_action : IAction W → W → W
  pub on_undo_action : IAction W → W → W
  pub on_redo_action : IAction W → W → W

module _ {W : Type 0} where
  -- The constructor.
  unfoldable pub make : ActionManager W
  make = record {
    actions = [];
    undone_actions = [];
    on_do_action = λ _ w. w;
    on_undo_action = λ _ w. w;
    on_redo_action = λ _ w. w;
  }

  unfoldable pub can_undo : ActionManager W → Bool
  can_undo m = ltb 0 (length m.actions)

  unfoldable pub can_redo : ActionManager W → Bool
  can_redo m = ltb 0 (length m.undone_actions)

  -- The listener is called when the scope ends, whatever the action answered.
  unfoldable pub do_action : ActionManager W → IAction W → Callback → W → Bool × ActionManager W × W
  do_action m a callback w =
      let r = a.do_action callback w in
      let m' =
        if r.0 && a.can_be_undone
        then record m { actions = a ∷ m.actions; undone_actions = [] }
        else m in
      (r.0, m', m.on_do_action a r.1)

  unfoldable pub undo_action : ActionManager W → Callback → W → Bool × ActionManager W × W
  undo_action m callback w = elim m.actions [
    | [] ↦ (false, m, w)
    | a ∷ rest ↦ (
      (a.undo_action callback w).0,
      if (a.undo_action callback w).0
          then record m { actions = rest; undone_actions = a ∷ m.undone_actions }
          else m,
      m.on_undo_action a (a.undo_action callback w).1,
    )
  ]

  unfoldable pub redo_action : ActionManager W → Callback → W → Bool × ActionManager W × W
  redo_action m callback w = elim m.undone_actions [
    | [] ↦ (false, m, w)
    | a ∷ rest ↦ (
      (a.do_action callback w).0,
      if (a.do_action callback w).0
          then record m { actions = a ∷ m.actions; undone_actions = rest }
          else m,
      m.on_redo_action a (a.do_action callback w).1,
    )
  ]

  unfoldable pub clear_history : ActionManager W → ActionManager W
  clear_history m = record m { actions = []; undone_actions = [] }

  -- `uint32_t` of a `size_t`.
  unfoldable pub get_history_size : ActionManager W → ℕ
  get_history_size m = length m.actions % 2 ^ 32

  unfoldable pub get_undone_history_size : ActionManager W → ℕ
  get_undone_history_size m = length m.undone_actions % 2 ^ 32

  unfoldable pub set_on_do_action_callback : ActionManager W → (IAction W → W → W) → ActionManager W
  set_on_do_action_callback m f = record m { on_do_action = f }

  unfoldable pub set_on_undo_action_callback :
      ActionManager W → (IAction W → W → W) → ActionManager W
  set_on_undo_action_callback m f = record m { on_undo_action = f }

  unfoldable pub set_on_redo_action_callback :
      ActionManager W → (IAction W → W → W) → ActionManager W
  set_on_redo_action_callback m f = record m { on_redo_action = f }
