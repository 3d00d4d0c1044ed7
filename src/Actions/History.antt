-- ===== src/Actions/History.antt =====
-- The history of the action manager: what each call needs of it and keeps of it.
use ho_i4_mod_development_to.Base.{◌≡◌, refl, true, false, List, [], ◌∷◌, Bool-cases, inl, inr}
use ho_i4_mod_development_to.Actions.{
  IAction, ActionManager, always, do_action, undo_action, redo_action, clear_history, can_undo,
  can_redo,
}

-- What a call of the manager does to the world and the manager.
pub data Command (W : Type 0) : Type 0 where
  performs : IAction W → Command W
  undoes redoes clears : Command W

module _ {W : Type 0} where
  abbrev pub step : ActionManager W × W → Command W → ActionManager W × W
  step (m, w) (performs a) = let r = do_action m a always w in (r.1, r.2)
  step (m, w) undoes = let r = undo_action m always w in (r.1, r.2)
  step (m, w) redoes = let r = redo_action m always w in (r.1, r.2)
  step (m, w) clears = (clear_history m, w)

  unfoldable pub run : ActionManager W × W → List (Command W) → ActionManager W × W
  run s [] = s
  run s (c ∷ cs) = run (step s c) cs

  -- The listeners only show the change.
  pub record IsSilent (m : ActionManager W) : Type 0 where
    pub on_do : (a : IAction W) (w : W) → m.on_do_action a w ≡ w
    pub on_undo : (a : IAction W) (w : W) → m.on_undo_action a w ≡ w
    pub on_redo : (a : IAction W) (w : W) → m.on_redo_action a w ≡ w

-- What the manager relies on of an action, on the worlds of `Inv`: undoing what it has done restores
-- the world, and a failure changes nothing.
pub record IsReversible {W : Type 0} (Inv : W → Type 0) (a : IAction W) : Type 0 where
  pub keeps : (w : W) → Inv w → Inv (a.do_action always w).1
  pub undo_ok :
      (w : W)
      → Inv w
      → (a.do_action always w).0 ≡ true
      → (a.undo_action always (a.do_action always w).1).0 ≡ true
  pub undo_restores :
      (w : W)
      → Inv w
      → (a.do_action always w).0 ≡ true
      → (a.undo_action always (a.do_action always w).1).1 ≡ w
  pub failed : (w : W) → (a.do_action always w).0 ≡ false → (a.do_action always w).1 ≡ w

module _ {W : Type 0} (Inv : W → Type 0) where
  -- Every action of the history can be undone from here, and then done again.
  abbrev pub Past : List (IAction W) → W → Type 0
  Past [] w = Inv w
  Past (a ∷ l) w =
      Inv w
      × ((a.undo_action always w).0 ≡ true)
      × ((a.do_action always (a.undo_action always w).1).0 ≡ true)
      × ((a.do_action always (a.undo_action always w).1).1 ≡ w)
      × Past l (a.undo_action always w).1

  abbrev pub Future : List (IAction W) → W → Type 0
  Future [] w = Inv w
  Future (a ∷ l) w =
      Inv w
      × ((a.do_action always w).0 ≡ true)
      × ((a.undo_action always (a.do_action always w).1).0 ≡ true)
      × ((a.undo_action always (a.do_action always w).1).1 ≡ w)
      × Future l (a.do_action always w).1

  pub record IsCoherent (m : ActionManager W) (w : W) : Type 0 where
    pub silent : IsSilent m
    pub past : Past m.actions w
    pub future : Future m.undone_actions w

  pub Past-Inv : (l : List (IAction W)) (w : W) → Past l w → Inv w
  Past-Inv [] w p = p
  Past-Inv (a ∷ l) w p = p.0

  Future-Inv : (l : List (IAction W)) (w : W) → Future l w → Inv w
  Future-Inv [] w p = p
  Future-Inv (a ∷ l) w p = p.0

  module _ (a : IAction W) (l : List (IAction W)) (w : W) where
    Past-do :
        Inv (a.do_action always w).1
        → (a.do_action always w).0 ≡ true
        → (a.undo_action always (a.do_action always w).1).0 ≡ true
        → (a.undo_action always (a.do_action always w).1).1 ≡ w
        → Past l w
        → Past (a ∷ l) (a.do_action always w).1
    Past-do i d u e p = (i, u, rw e d, rw e refl, rw e p)

    Future-undo :
        Inv (a.undo_action always w).1
        → (a.undo_action always w).0 ≡ true
        → (a.do_action always (a.undo_action always w).1).0 ≡ true
        → (a.do_action always (a.undo_action always w).1).1 ≡ w
        → Future l w
        → Future (a ∷ l) (a.undo_action always w).1
    Future-undo i u d e p = (i, d, rw e u, rw e refl, rw e p)

  -- A reversible action keeps the history coherent, whether it succeeds or not.
  pub performs-IsCoherent :
      (m : ActionManager W) (w : W) (a : IAction W)
      → IsReversible Inv a
      → a.can_be_undone ≡ true
      → IsCoherent m w
      → let s = step (m, w) (performs a) in IsCoherent s.0 s.1
  unfolding do_action
  performs-IsCoherent m w a r u h = elim (Bool-cases (a.do_action always w).0) [
    | inl d ↦
        rw (d, u, h.silent.on_do)
          (record {
            silent = record {
              on_do = h.silent.on_do;
              on_undo = h.silent.on_undo;
              on_redo = h.silent.on_redo;
            };
            past =
                Past-do a m.actions w (r.keeps w i) d (r.undo_ok w i d) (r.undo_restores w i d)
                  h.past;
            future = r.keeps w i;
          })
    | inr d ↦ rw (d, h.silent.on_do, r.failed w d) h
  ]
    where
      i : Inv w
      i = Past-Inv m.actions w h.past

  abbrev manager :
      List (IAction W)
      → List (IAction W)
      → (IAction W → W → W)
      → (IAction W → W → W)
      → (IAction W → W → W)
      → ActionManager W
  manager l u f g k = record {
    actions = l;
    undone_actions = u;
    on_do_action = f;
    on_undo_action = g;
    on_redo_action = k;
  }

  module _ (f g k : IAction W → W → W) where
    pub undoes_parts :
        (l u : List (IAction W)) (w : W)
        → IsCoherent (manager l u f g k) w
        → let s = step (manager l u f g k, w) undoes in IsCoherent s.0 s.1
    unfolding undo_action
    undoes_parts [] u w h = h
    undoes_parts (a ∷ l) u w h =
        let (i, undone, done, again, before) = h.past in
        rw (undone, h.silent.on_undo)
          (record {
            silent = record {
              on_do = h.silent.on_do;
              on_undo = h.silent.on_undo;
              on_redo = h.silent.on_redo;
            };
            past = before;
            future = Future-undo a u w (Past-Inv l _ before) undone done again h.future;
          })

    pub redoes_parts :
        (l u : List (IAction W)) (w : W)
        → IsCoherent (manager l u f g k) w
        → let s = step (manager l u f g k, w) redoes in IsCoherent s.0 s.1
    unfolding redo_action
    redoes_parts l [] w h = h
    redoes_parts l (a ∷ u) w h =
        let (i, done, undone, back, after) = h.future in
        rw (done, h.silent.on_redo)
          (record {
            silent = record {
              on_do = h.silent.on_do;
              on_undo = h.silent.on_undo;
              on_redo = h.silent.on_redo;
            };
            past = Past-do a l w (Future-Inv u _ after) done undone back h.past;
            future = after;
          })

    pub undo_redo_parts :
        (l u : List (IAction W)) (w : W)
        → IsCoherent (manager l u f g k) w
        → can_undo (manager l u f g k) ≡ true
        → step (step (manager l u f g k, w) undoes) redoes ≡ (manager l u f g k, w)
    unfolding undo_action redo_action can_undo
    undo_redo_parts [] u w h c = cc
    undo_redo_parts (a ∷ l) u w h c =
        let (i, undone, done, again, before) = h.past in
        rw (undone, h.silent.on_undo, done, again, h.silent.on_redo) refl

    pub redo_undo_parts :
        (l u : List (IAction W)) (w : W)
        → IsCoherent (manager l u f g k) w
        → can_redo (manager l u f g k) ≡ true
        → step (step (manager l u f g k, w) redoes) undoes ≡ (manager l u f g k, w)
    unfolding undo_action redo_action can_redo
    redo_undo_parts l [] w h c = cc
    redo_undo_parts l (a ∷ u) w h c =
        let (i, done, undone, back, after) = h.future in
        rw (done, h.silent.on_redo, undone, back, h.silent.on_undo) refl
