-- ===== src/Actions/Sessions.antt =====
-- Sessions of calls of the action manager: what undo and redo restore.
use ho_i4_mod_development_to.Base.{◌≡◌, refl, true, List, [], ◌∷◌, All}
use ho_i4_mod_development_to.Actions.{ActionManager, make, clear_history, can_undo, can_redo}
use ho_i4_mod_development_to.Actions.History.{
  Command, performs, undoes, redoes, clears, step, run, IsReversible, IsCoherent, Past-Inv,
  performs-IsCoherent, undoes_parts, redoes_parts, undo_redo_parts, redo_undo_parts,
}

module _ {W : Type 0} (Inv : W → Type 0) where
  -- The commands perform only reversible actions that are kept in the history.
  abbrev pub IsLawful : Command W → Type 0
  IsLawful (performs a) = IsReversible Inv a × (a.can_be_undone ≡ true)
  IsLawful undoes = Unit
  IsLawful redoes = Unit
  IsLawful clears = Unit

  -- Every call of the manager keeps its history coherent.
  pub step-IsCoherent :
      (m : ActionManager W) (w : W) (c : Command W)
      → IsLawful c
      → IsCoherent Inv m w
      → let s = step (m, w) c in IsCoherent Inv s.0 s.1
  unfolding clear_history
  step-IsCoherent m w (performs a) p h = performs-IsCoherent Inv m w a p.0 p.1 h
  step-IsCoherent m w undoes p h =
      undoes_parts Inv m.on_do_action m.on_undo_action m.on_redo_action m.actions m.undone_actions w
        h
  step-IsCoherent m w redoes p h =
      redoes_parts Inv m.on_do_action m.on_undo_action m.on_redo_action m.actions m.undone_actions w
        h
  step-IsCoherent m w clears p h = record {
    silent = record {
      on_do = h.silent.on_do;
      on_undo = h.silent.on_undo;
      on_redo = h.silent.on_redo;
    };
    past = Past-Inv Inv m.actions w h.past;
    future = Past-Inv Inv m.actions w h.past;
  }

  run-IsCoherent :
      (m : ActionManager W) (w : W) (cs : List (Command W))
      → All IsLawful cs
      → IsCoherent Inv m w
      → let s = run (m, w) cs in IsCoherent Inv s.0 s.1
  unfolding run
  run-IsCoherent m w [] p h = h
  run-IsCoherent m w (c ∷ cs) p h =
      let s = step (m, w) c in run-IsCoherent s.0 s.1 cs p.1 (step-IsCoherent m w c p.0 h)

  make-IsCoherent : (w : W) → Inv w → IsCoherent Inv make w
  unfolding make
  make-IsCoherent w i = record {
    silent = record { on_do = λ a w. refl; on_undo = λ a w. refl; on_redo = λ a w. refl };
    past = i;
    future = i;
  }

  module _ (w : W) (cs : List (Command W)) (i : Inv w) (p : All IsLawful cs) where
    session-IsCoherent : let s = run (make, w) cs in IsCoherent Inv s.0 s.1
    session-IsCoherent = run-IsCoherent make w cs p (make-IsCoherent w i)

    -- After any session of calls with the default callback that begins with a new manager and performs
    -- only reversible actions that can be undone, if an undo is allowed then the undo followed by a
    -- redo gives back the manager and the world, exactly.
    pub redo-undo :
        can_undo (run (make, w) cs).0 ≡ true
        → let s = run (make, w) cs in step (step s undoes) redoes ≡ s
    redo-undo h =
        let s = run (make, w) cs in
        undo_redo_parts Inv s.0.on_do_action s.0.on_undo_action s.0.on_redo_action s.0.actions
          s.0.undone_actions s.1 session-IsCoherent h

    -- After any session of calls with the default callback that begins with a new manager and performs
    -- only reversible actions that can be undone, if a redo is allowed then the redo followed by an
    -- undo gives back the manager and the world, exactly.
    pub undo-redo :
        can_redo (run (make, w) cs).0 ≡ true
        → let s = run (make, w) cs in step (step s redoes) undoes ≡ s
    undo-redo h =
        let s = run (make, w) cs in
        redo_undo_parts Inv s.0.on_do_action s.0.on_undo_action s.0.on_redo_action s.0.actions
          s.0.undone_actions s.1 session-IsCoherent h
