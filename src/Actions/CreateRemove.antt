-- ===== src/Actions/CreateRemove.antt =====
-- mod_dev_tool/actions/src/CreateRemoveContinentAction.cpp: creating or removing a continent, as an
-- action.
use ho_i4_mod_development_to.Base.{
  ◌≡◌, Bool, true, false, ◌&&◌, not, if◌then◌else◌, arith, Bool-cases, inl, inr,
}
use ho_i4_mod_development_to.Base.Ord.{Text, text_ord}
use ho_i4_mod_development_to.Base.OrdSet
use ho_i4_mod_development_to.Continents.{
  ContinentSet, add_new_continent, remove_continent, does_continent_exist,
}
use ho_i4_mod_development_to.Actions.{IAction, Callback}
use ho_i4_mod_development_to.Actions.History.{IsReversible}
use ho_i4_mod_development_to.Actions.SetProperty.{Field}

-- `CreateRemoveContinentAction::Type`
pub data ChangeType : Type 0 where
  create_type remove_type : ChangeType

module _ {W : Type 0} (f : Field W ContinentSet) where
  unfoldable pub create : Text → W → Bool × W
  create name w =
      if does_continent_exist name (f.get w)
      then (false, w)
      else (true, f.put (add_new_continent name (f.get w)) w)

  unfoldable pub remove : Text → W → Bool × W
  remove name w =
      if does_continent_exist name (f.get w)
      then (true, f.put (remove_continent name (f.get w)) w)
      else (false, w)

  -- The change between the two calls of the callback; the second answer does not undo it.
  abbrev pub with_callback : Callback → (W → Bool × W) → W → Bool × W
  with_callback callback change w =
      if callback 0
      then (if (change w).0 then (callback 1, (change w).1) else (false, (change w).1))
      else (false, w)

  unfoldable pub create_remove_continent : Text → ChangeType → IAction W
  create_remove_continent name create_type = record {
    do_action = λ callback. with_callback callback (create name);
    undo_action = λ callback. with_callback callback (remove name);
    can_be_undone = true;
  }
  create_remove_continent name remove_type = record {
    do_action = λ callback. with_callback callback (remove name);
    undo_action = λ callback. with_callback callback (create name);
    can_be_undone = true;
  }

  abbrev pub HasSortedContinents : W → Type 0
  HasSortedContinents w = OrdSet.IsSorted (f.get w)

  create_failed : (name : Text) (w : W) → (create name w).0 ≡ false → (create name w).1 ≡ w
  unfolding create
  create_failed name w h = ground arith

  remove_failed : (name : Text) (w : W) → (remove name w).0 ≡ false → (remove name w).1 ≡ w
  unfolding remove
  remove_failed name w h = ground arith

  module _ (name : Text) (w : W) (s : HasSortedContinents w) where
    create_keeps : HasSortedContinents (create name w).1
    unfolding create add_new_continent
    create_keeps = elim (Bool-cases (does_continent_exist name (f.get w))) [
      | inl e ↦ rw e s
      | inr e ↦ rw (e, f.get-put) (OrdSet.insert-IsSorted name (f.get w) s)
    ]

    remove_keeps : HasSortedContinents (remove name w).1
    unfolding remove remove_continent
    remove_keeps = elim (Bool-cases (does_continent_exist name (f.get w))) [
      | inl e ↦ rw (e, f.get-put) (OrdSet.erase-IsSorted name (f.get w) s)
      | inr e ↦ rw e s
    ]

    remove-create : (create name w).0 ≡ true → remove name (create name w).1 ≡ (true, w)
    unfolding create remove add_new_continent remove_continent does_continent_exist
    remove-create h =
        let s' : ContinentSet = OrdSet.insert name (f.get w) in
        ground (
          arith,
          f.get-put s' w,
          OrdSet.contains-insert name name (f.get w),
          OrdSet.same_self name,
          OrdSet.erase-insert name (f.get w),
          f.put-put (f.get w) s' w,
          f.put-get w,
        )

    create-remove : (remove name w).0 ≡ true → create name (remove name w).1 ≡ (true, w)
    unfolding create remove add_new_continent remove_continent does_continent_exist
    create-remove h =
        let s' : ContinentSet = OrdSet.erase name (f.get w) in
        ground (
          arith,
          f.get-put s' w,
          OrdSet.contains-erase name name (f.get w) s,
          OrdSet.same_self name,
          OrdSet.insert-erase name (f.get w) s,
          f.put-put (f.get w) s' w,
          f.put-get w,
        )

  -- Over worlds whose set of continents is in order, as std::set keeps it, both kinds of the action can
  -- be undone, so the manager may keep them.
  pub create_remove_continent-IsReversible :
      (name : Text) (t : ChangeType)
      → IsReversible HasSortedContinents (create_remove_continent name t)
  unfolding create_remove_continent
  create_remove_continent-IsReversible name create_type = record {
    keeps = λ w i. elim (Bool-cases (create name w).0) [
      | inl d ↦ rw d (create_keeps name w i)
      | inr d ↦ rw d (create_keeps name w i)
    ];
    undo_ok = λ w i h. ground (arith, remove-create name w i);
    undo_restores = λ w i h. ground (arith, remove-create name w i);
    failed = λ w h. ground (arith, create_failed name w);
  }
  create_remove_continent-IsReversible name remove_type = record {
    keeps = λ w i. elim (Bool-cases (remove name w).0) [
      | inl d ↦ rw d (remove_keeps name w i)
      | inr d ↦ rw d (remove_keeps name w i)
    ];
    undo_ok = λ w i h. ground (arith, create-remove name w i);
    undo_restores = λ w i h. ground (arith, create-remove name w i);
    failed = λ w h. ground (arith, remove_failed name w);
  }

  -- Doing an action with any callback: a creation succeeds exactly when the callback agrees twice and
  -- the name is new, a removal when the callback agrees twice and the name is there. The set has then
  -- changed also where only the second answer was no: the action reports a failure, and the change stays.
  pub create_remove_continent-do_action :
      (name : Text) (callback : Callback) (w : W)
      → let exists = does_continent_exist name (f.get w) in
        let c = (create_remove_continent name create_type).do_action callback w in
        let r = (create_remove_continent name remove_type).do_action callback w in
        (c.0 ≡ (callback 0 && (not exists && callback 1)))
        × (c.1
            ≡ (if callback 0 && not exists then f.put (add_new_continent name (f.get w)) w else w))
        × (r.0 ≡ (callback 0 && (exists && callback 1)))
        × (r.1 ≡ (if callback 0 && exists then f.put (remove_continent name (f.get w)) w else w))
  unfolding create_remove_continent create remove
  create_remove_continent-do_action name callback w = ground arith
