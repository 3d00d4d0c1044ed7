-- ===== src/Actions/Rewind.antt =====
-- Undoing as many actions as were done, and what undos and redos do to the two histories.
use ho_i4_mod_development_to.Base.{
  ℕ, zero, suc, ◌≡◌, refl, ◌∙◌, ap, subst, sym, if◌then◌else◌, Bool, true, false, Bool-cases, inl,
  inr, List, [], ◌∷◌, length, map, ◌+◌, arith,
}
use ho_i4_mod_development_to.Actions.{
  IAction, ActionManager, Callback, always, do_action, undo_action, redo_action,
}
use ho_i4_mod_development_to.Actions.History.{
  Command, performs, undoes, step, run, IsSilent, IsReversible,
}

abbrev pub repeat {ℓ} : {A : Type ℓ} → ℕ → A → List A
repeat zero a = []
repeat (suc n) a = a ∷ repeat n a

module _ {W : Type 0} where
  -- The same command once more at the end, or once more at the front.
  run-repeat :
      (n : ℕ) (s : ActionManager W × W) (c : Command W)
      → step (run s (repeat n c)) c ≡ run s (c ∷ repeat n c)
  unfolding run
  run-repeat zero s c = refl
  run-repeat (suc n) s c = run-repeat n (step s c) c

module _ {W : Type 0} (Inv : W → Type 0) where
  -- Each action of the list can be undone, is reversible, and succeeds when its turn comes.
  abbrev pub AllSucceed : List (IAction W) → W → Type 0
  AllSucceed [] w = Unit
  AllSucceed (a ∷ l) w =
      IsReversible Inv a
      × (a.can_be_undone ≡ true)
      × ((a.do_action always w).0 ≡ true)
      × AllSucceed l (a.do_action always w).1

  -- The manager after the undo of all that was done since `m`, whatever has become of its list of
  -- undone actions.
  record IsBack (m : ActionManager W) (w : W) (s : ActionManager W × W) : Type 0 where
    world : s.1 ≡ w
    actions : s.0.actions ≡ m.actions
    silent : IsSilent s.0

  undo_one :
      (m : ActionManager W) (a : IAction W) (w : W) (s : ActionManager W × W)
      → s.0.actions ≡ a ∷ m.actions
      → IsSilent s.0
      → (a.undo_action always s.1).0 ≡ true
      → (a.undo_action always s.1).1 ≡ w
      → IsBack m w (step s undoes)
  unfolding undo_action
  undo_one m a w s f q u b = record {
    world = rw f (q.on_undo a (a.undo_action always s.1).1 ∙ b);
    actions = rw (f, u) refl;
    silent = rw (f, u) (record { on_do = q.on_do; on_undo = q.on_undo; on_redo = q.on_redo });
  }

  do_one :
      (m : ActionManager W) (a : IAction W) (w : W)
      → IsSilent m
      → a.can_be_undone ≡ true
      → (a.do_action always w).0 ≡ true
      → IsBack
          (record m { actions = a ∷ m.actions })
          (a.do_action always w).1
          (step (m, w) (performs a))
  unfolding do_action
  do_one m a w q c d = record {
    world = q.on_do a (a.do_action always w).1;
    actions = rw (d, c) refl;
    silent = rw (d, c) (record { on_do = q.on_do; on_undo = q.on_undo; on_redo = q.on_redo });
  }

  undo_all_from :
      (l : List (IAction W)) (m : ActionManager W) (w : W)
      → Inv w
      → IsSilent m
      → AllSucceed l w
      → IsBack m w (run (run (m, w) (map performs l)) (repeat (length l) undoes))
  unfolding run
  undo_all_from [] m w i q p = record { world = refl; actions = refl; silent = q }
  undo_all_from (a ∷ l) m w i q (r, c, d, p) =
      let after : ActionManager W × W = step (m, w) (performs a) in
      let done : IsBack (record m { actions = a ∷ m.actions }) (a.do_action always w).1 after =
        do_one m a w q c d in
      let t : ActionManager W × W = run after (map performs l) in
      let undone : ActionManager W × W = run t (repeat (length l) undoes) in
      let back : IsBack after.0 after.1 undone =
        undo_all_from l after.0 after.1 (rw done.world (r.keeps w i)) done.silent
          (rw done.world p) in
      let first : undone.1 ≡ (a.do_action always w).1 = back.world ∙ done.world in
      subst (IsBack m w) (run-repeat (length l) t undoes) (
        undo_one m a w undone (back.actions ∙ done.actions) back.silent
          (subst (λ v. (a.undo_action always v).0 ≡ true) (sym first) (r.undo_ok w i d))
          (subst (λ v. (a.undo_action always v).1 ≡ w) (sym first) (r.undo_restores w i d)))

  -- When each of a list of reversible actions succeeds in its turn, as many undos bring back the world
  -- and the history of before, if the listeners change neither.
  pub undo_all :
      (l : List (IAction W)) (m : ActionManager W) (w : W)
      → Inv w
      → IsSilent m
      → AllSucceed l w
      → let s = run (run (m, w) (map performs l)) (repeat (length l) undoes) in
        (s.1 ≡ w) × (s.0.actions ≡ m.actions)
  undo_all l m w i q p = let b = undo_all_from l m w i q p in (b.world, b.actions)

-- Undoing and redoing, each with the callback that is given.
pub data Move : Type 0 where
  back forth : Callback → Move

-- After a series of moves: how many undos and how many redos succeeded, and what there is then.
pub record Moved (W : Type 0) : Type 0 where
  pub undos : ℕ
  pub redos : ℕ
  pub manager : ActionManager W
  pub world : W

module _ {W : Type 0} where
  -- The actions in the order in which they were done, from the last one that was undone back to the
  -- first one.
  abbrev pub timeline_from : List (IAction W) → List (IAction W) → List (IAction W)
  timeline_from [] actions = actions
  timeline_from (a ∷ undone) actions = timeline_from undone (a ∷ actions)

  abbrev pub timeline : ActionManager W → List (IAction W)
  timeline m = timeline_from m.undone_actions m.actions

  abbrev pub move : Move → ActionManager W × W → Bool × ActionManager W × W
  move (back callback) (m, w) = undo_action m callback w
  move (forth callback) (m, w) = redo_action m callback w

  abbrev pub moved : List Move → ActionManager W × W → Moved W
  moved [] (m, w) = record { undos = 0; redos = 0; manager = m; world = w }
  moved (back callback ∷ cs) s =
      let r = move (back callback) s in
      let t = moved cs (r.1, r.2) in record t { undos = if r.0 then suc t.undos else t.undos }
  moved (forth callback ∷ cs) s =
      let r = move (forth callback) s in
      let t = moved cs (r.1, r.2) in record t { redos = if r.0 then suc t.redos else t.redos }

  -- One move: it takes the newest action of the one history over to the other, or both are as they were.
  abbrev pub Takes : Bool → (from to from_after to_after : List (IAction W)) → Type 0
  Takes true from to from_after to_after =
      (a : IAction W) × (from ≡ a ∷ from_after) × (to_after ≡ a ∷ to)
  Takes false from to from_after to_after = (from_after ≡ from) × (to_after ≡ to)

  took :
      (ok : Bool) (from to from_after to_after : List (IAction W)) (a : IAction W)
      → ok ≡ true
      → from ≡ a ∷ from_after
      → to_after ≡ a ∷ to
      → Takes ok from to from_after to_after
  took true from to from_after to_after a e f g = (a, f, g)
  took false from to from_after to_after a e f g = absurd cc

  left_alone :
      (ok : Bool) (from to from_after to_after : List (IAction W))
      → ok ≡ false
      → from_after ≡ from
      → to_after ≡ to
      → Takes ok from to from_after to_after
  left_alone false from to from_after to_after e f g = (f, g)
  left_alone true from to from_after to_after e f g = absurd cc

  back-Takes :
      (m : ActionManager W) (callback : Callback) (w : W) (l : List (IAction W))
      → m.actions ≡ l
      → let u = undo_action m callback w in
        Takes u.0 m.actions m.undone_actions u.1.actions u.1.undone_actions
  unfolding undo_action
  back-Takes m callback w [] e =
      left_alone _ _ _ _ _ (ground (arith, e)) (ground (arith, e)) (ground (arith, e))
  back-Takes m callback w (a ∷ rest) e = elim (Bool-cases (a.undo_action callback w).0) [
    | inl t ↦ took _ _ _ _ _ a (ground (arith, e, t)) (ground (arith, e, t)) (ground (arith, e, t))
    | inr t ↦
        left_alone _ _ _ _ _ (ground (arith, e, t)) (ground (arith, e, t)) (ground (arith, e, t))
  ]

  forth-Takes :
      (m : ActionManager W) (callback : Callback) (w : W) (l : List (IAction W))
      → m.undone_actions ≡ l
      → let r = redo_action m callback w in
        Takes r.0 m.undone_actions m.actions r.1.undone_actions r.1.actions
  unfolding redo_action
  forth-Takes m callback w [] e =
      left_alone _ _ _ _ _ (ground (arith, e)) (ground (arith, e)) (ground (arith, e))
  forth-Takes m callback w (a ∷ rest) e = elim (Bool-cases (a.do_action callback w).0) [
    | inl t ↦ took _ _ _ _ _ a (ground (arith, e, t)) (ground (arith, e, t)) (ground (arith, e, t))
    | inr t ↦
        left_alone _ _ _ _ _ (ground (arith, e, t)) (ground (arith, e, t)) (ground (arith, e, t))
  ]

  -- A move that takes an action over keeps the timeline and shifts the present by one.
  back-timeline :
      (ok : Bool) (from to from_after to_after : List (IAction W))
      → Takes ok from to from_after to_after
      → (timeline_from to_after from_after ≡ timeline_from to from)
        × (length from_after + (if ok then 1 else 0) ≡ length from)
  back-timeline true from to from_after to_after (a, f, g) = (
    ap (λ v. timeline_from v from_after) g ∙ ap (timeline_from to) (sym f),
    omega (arith, ap length f),
  )
  back-timeline false from to from_after to_after (f, g) =
      (ap (λ v. timeline_from v from_after) g ∙ ap (timeline_from to) f, omega (arith, ap length f))

  forth-timeline :
      (ok : Bool) (from to from_after to_after : List (IAction W))
      → Takes ok from to from_after to_after
      → (timeline_from from_after to_after ≡ timeline_from from to)
        × (length to_after ≡ length to + (if ok then 1 else 0))
  forth-timeline true from to from_after to_after (a, f, g) = (
    ap (timeline_from from_after) g ∙ ap (λ v. timeline_from v to) (sym f),
    omega (arith, ap length g),
  )
  forth-timeline false from to from_after to_after (f, g) =
      (ap (timeline_from from_after) g ∙ ap (λ v. timeline_from v to) f, omega (arith, ap length g))

  pub moved-timeline :
      (cs : List Move) (m : ActionManager W) (w : W)
      → let t = moved cs (m, w) in
        (timeline t.manager ≡ timeline m)
        × (length t.manager.actions + t.undos ≡ length m.actions + t.redos)
  moved-timeline [] m w = (refl, refl)
  moved-timeline (back callback ∷ cs) m w =
      let u = undo_action m callback w in
      let (a, b) = moved-timeline cs u.1 u.2 in
      let (c, e) = back-timeline _ _ _ _ _ (back-Takes m callback w m.actions refl) in
      (a ∙ c, ground (arith, b, e))
  moved-timeline (forth callback ∷ cs) m w =
      let u = redo_action m callback w in
      let (a, b) = moved-timeline cs u.1 u.2 in
      let (c, e) = forth-timeline _ _ _ _ _ (forth-Takes m callback w m.undone_actions refl) in
      (a ∙ c, ground (arith, b, e))

module _ {W : Type 0} (m : ActionManager W) (callback : Callback) (w : W) where
  -- With any callback, an undo that fails leaves both histories as they were, and one that succeeds takes
  -- the newest action over to the undone ones; a redo does the same the other way. Over any series of
  -- undos and redos with any callbacks the timeline, which is the undone actions before those that are
  -- done, stays the same, and the number of actions that are done changes by the redos that succeeded
  -- less the undos that did.
  pub histories :
      (cs : List Move)
      → let u = undo_action m callback w in
        let r = redo_action m callback w in
        let t = moved cs (m, w) in
        Takes u.0 m.actions m.undone_actions u.1.actions u.1.undone_actions
        × Takes r.0 m.undone_actions m.actions r.1.undone_actions r.1.actions
        × (timeline t.manager ≡ timeline m)
        × (length t.manager.actions + t.undos ≡ length m.actions + t.redos)
  histories cs =
      let (a, b) = moved-timeline cs m w in
      (back-Takes m callback w m.actions refl, forth-Takes m callback w m.undone_actions refl, a, b)
