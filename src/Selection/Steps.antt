-- ===== src/Selection/Steps.antt =====
-- SelectionManager.cpp: a selection of the project stays one, if the callbacks leave it one.
use ho_i4_mod_development_to.Base.{
  ◌≡◌, sym, subst, Bool, true, false, Option, some, List, [], ◌∷◌, arith, inl, inr, Bool-cases,
}
use ho_i4_mod_development_to.Base.Ord.{Ord, nat_ord}
use ho_i4_mod_development_to.Base.OrdSet
use ho_i4_mod_development_to.Project.{
  ProvinceId, StateId, invalid_province, no_state, Project, is_valid_province_id, is_valid_state_id,
}
use ho_i4_mod_development_to.Selection.{
  Action, set, add, remove, clear, Selected, SelectionManager, tell_province, tell_state,
  then_provinces, then_states, select_province, add_province_selection, remove_province_selection,
  clear_province_selection, select_state, add_state_selection, remove_state_selection,
  clear_state_selection, on_project_unloaded,
}

-- The calls, with their arguments.
pub data Call : Type 0 where
  selects_province adds_province removes_province : ProvinceId → Bool → Call
  clears_provinces : Bool → Call
  selects_state adds_state removes_state : StateId → Call
  clears_states unloads : Call

module _ (W : Type 0) (o : Ord ProvinceId) where
  abbrev pub step : Option Project → Call → SelectionManager W o → W → SelectionManager W o × W
  step current (selects_province id skip) m w = select_province W o current id skip m w
  step current (adds_province id skip) m w = add_province_selection W o current id skip m w
  step current (removes_province id skip) m w = remove_province_selection W o id skip m w
  step current (clears_provinces skip) m w = clear_province_selection W o skip m w
  step current (selects_state id) m w = select_state W o current id m w
  step current (adds_state id) m w = add_state_selection W o current id m w
  step current (removes_state id) m w = remove_state_selection W o id m w
  step current clears_states m w = clear_state_selection W o m w
  step current unloads m w = (on_project_unloaded W o m, w)

  abbrev pub run : Option Project → List Call → SelectionManager W o → W → SelectionManager W o × W
  run current [] m w = (m, w)
  run current (c ∷ cs) m w = let (n, v) = step current c m w in run current cs n v

  -- The selections are sets of ids of the project.
  pub record IsSelection (p : Project) (s : Selected) : Type 0 where
    pub provinces_sorted : OrdSet.IsSorted ⦃o = o⦄ s.selected_provinces
    pub states_sorted : OrdSet.IsSorted ⦃o = nat_ord⦄ s.selected_states
    pub provinces_valid :
        (k : ProvinceId)
        → OrdSet.contains ⦃o = o⦄ k s.selected_provinces ≡ true
        → is_valid_province_id k p ≡ true
    pub states_valid :
        (k : StateId)
        → OrdSet.contains ⦃o = nat_ord⦄ k s.selected_states ≡ true
        → is_valid_state_id k p ≡ true

  -- The callbacks leave a selection of the project.
  pub record IsKeeping (p : Project) (m : SelectionManager W o) : Type 0 where
    pub on_province :
        (id : ProvinceId) (a : Action) (s : Selected) (w : W)
        → IsSelection p s
        → IsSelection p (m.on_province_selected id a s w).0
    pub on_state :
        (id : StateId) (a : Action) (s : Selected) (w : W)
        → IsSelection p s
        → IsSelection p (m.on_state_selected id a s w).0

  -- A manager with the same callbacks, whose selection is one.
  abbrev pub Keeps : Project → SelectionManager W o → Type 0
  Keeps p m = IsKeeping p m × IsSelection p m.selected

  tell_province-IsSelection :
      (p : Project) (skip : Bool) (id : ProvinceId) (a : Action) (m : SelectionManager W o) (w : W)
      → Keeps p m
      → IsSelection p (tell_province W o skip id a m w).0
  tell_province-IsSelection p true id a m w (k, i) = i
  tell_province-IsSelection p false id a m w (k, i) = k.on_province id a m.selected w i

  -- A write to the provinces that leaves a set of provinces of the project.
  provinces-Keeps :
      (p : Project) (m : SelectionManager W o) (f : List ProvinceId → List ProvinceId)
      (r : Selected × W)
      → IsKeeping p m
      → IsSelection p r.0
      → OrdSet.IsSorted ⦃o = o⦄ (f r.0.selected_provinces)
      → ((k : ProvinceId)
          → OrdSet.contains ⦃o = o⦄ k (f r.0.selected_provinces) ≡ true
          → is_valid_province_id k p ≡ true)
      → Keeps p (then_provinces W o f m r).0
  provinces-Keeps p m f (s, w) k i sorted valid = (
    record { on_province = k.on_province; on_state = k.on_state },
    record {
      provinces_sorted = sorted;
      states_sorted = i.states_sorted;
      provinces_valid = valid;
      states_valid = i.states_valid;
    },
  )

  states-Keeps :
      (p : Project) (m : SelectionManager W o) (f : List StateId → List StateId) (r : Selected × W)
      → IsKeeping p m
      → IsSelection p r.0
      → OrdSet.IsSorted ⦃o = nat_ord⦄ (f r.0.selected_states)
      → ((k : StateId)
          → OrdSet.contains ⦃o = nat_ord⦄ k (f r.0.selected_states) ≡ true
          → is_valid_state_id k p ≡ true)
      → Keeps p (then_states W o f m r).0
  states-Keeps p m f (s, w) k i sorted valid = (
    record { on_province = k.on_province; on_state = k.on_state },
    record {
      provinces_sorted = i.provinces_sorted;
      states_sorted = sorted;
      provinces_valid = i.provinces_valid;
      states_valid = valid;
    },
  )

  pub step-Keeps :
      (p : Project) (c : Call) (m : SelectionManager W o) (w : W)
      → Keeps p m
      → Keeps p (step (some p) c m w).0
  unfolding select_province add_province_selection remove_province_selection
      clear_province_selection select_state add_state_selection remove_state_selection
      clear_state_selection on_project_unloaded
  step-Keeps p (selects_province id skip) m w (k, i) =
      elim (Bool-cases (is_valid_province_id id p)) [
        | inl v ↦ rw v (
            provinces-Keeps p m (λ _. id ∷ []) (tell_province W o skip id set m w) k
              (tell_province-IsSelection p skip id set m w (k, i)) (tt, tt)
              (λ x h. elim (Bool-cases (OrdSet.same ⦃o = o⦄ x id)) [
                | inl t ↦
                    subst (λ z. is_valid_province_id z p ≡ true)
                      (sym (OrdSet.same_iff ⦃o = o⦄ x id t)) v
                | inr t ↦ absurd (ground (arith, t, h))
              ]))
        | inr v ↦ rw v (k, i)
      ]
  step-Keeps p (adds_province id skip) m w (k, i) = elim (Bool-cases (is_valid_province_id id p)) [
    | inl v ↦
        let r = tell_province W o skip id add m w in
        let j = tell_province-IsSelection p skip id add m w (k, i) in
        rw v (
          provinces-Keeps p m (OrdSet.insert ⦃o = o⦄ id) r k j
            (OrdSet.insert-IsSorted ⦃o = o⦄ id r.0.selected_provinces j.provinces_sorted)
            (λ x h. elim (Bool-cases (OrdSet.same ⦃o = o⦄ x id)) [
              | inl t ↦
                  subst (λ z. is_valid_province_id z p ≡ true)
                    (sym (OrdSet.same_iff ⦃o = o⦄ x id t)) v
              | inr t ↦
                  j.provinces_valid x (
                    ground
                      (arith, t, h, OrdSet.contains-insert ⦃o = o⦄ id x r.0.selected_provinces))
            ]))
    | inr v ↦ rw v (k, i)
  ]
  step-Keeps p (removes_province id skip) m w (k, i) =
      let r = tell_province W o skip id remove m w in
      let j = tell_province-IsSelection p skip id remove m w (k, i) in
      provinces-Keeps p m (OrdSet.erase ⦃o = o⦄ id) r k j
        (OrdSet.erase-IsSorted ⦃o = o⦄ id r.0.selected_provinces j.provinces_sorted)
        (λ x h. j.provinces_valid x (
          ground (
            arith,
            h,
            OrdSet.contains-erase ⦃o = o⦄ id x r.0.selected_provinces j.provinces_sorted,
          )))
  step-Keeps p (clears_provinces skip) m w (k, i) =
      provinces-Keeps p m (λ _. []) (tell_province W o skip invalid_province clear m w) k
        (tell_province-IsSelection p skip invalid_province clear m w (k, i)) tt (λ x h. absurd cc)
  step-Keeps p (selects_state id) m w (k, i) = elim (Bool-cases (is_valid_state_id id p)) [
    | inl v ↦ rw v (
        states-Keeps p m (λ _. id ∷ []) (tell_state W o id set m w) k
          (k.on_state id set m.selected w i) (tt, tt) (λ x h. ground (arith, h, v)))
    | inr v ↦ rw v (k, i)
  ]
  step-Keeps p (adds_state id) m w (k, i) = elim (Bool-cases (is_valid_state_id id p)) [
    | inl v ↦
        let r = tell_state W o id add m w in
        let j = k.on_state id add m.selected w i in
        rw v (
          states-Keeps p m (OrdSet.insert ⦃o = nat_ord⦄ id) r k j
            (OrdSet.insert-IsSorted ⦃o = nat_ord⦄ id r.0.selected_states j.states_sorted)
            (λ x h. ground (
              arith,
              h,
              v,
              OrdSet.contains-insert ⦃o = nat_ord⦄ id x r.0.selected_states,
              j.states_valid x,
            )))
    | inr v ↦ rw v (k, i)
  ]
  step-Keeps p (removes_state id) m w (k, i) =
      let r = tell_state W o id remove m w in
      let j = k.on_state id remove m.selected w i in
      states-Keeps p m (OrdSet.erase ⦃o = nat_ord⦄ id) r k j
        (OrdSet.erase-IsSorted ⦃o = nat_ord⦄ id r.0.selected_states j.states_sorted)
        (λ x h. j.states_valid x (
          ground (
            arith,
            h,
            OrdSet.contains-erase ⦃o = nat_ord⦄ id x r.0.selected_states j.states_sorted,
          )))
  step-Keeps p clears_states m w (k, i) =
      states-Keeps p m (λ _. []) (tell_state W o no_state clear m w) k
        (k.on_state no_state clear m.selected w i) tt (λ x h. absurd cc)
  step-Keeps p unloads m w (k, i) = (
    record { on_province = k.on_province; on_state = k.on_state },
    record {
      provinces_sorted = tt;
      states_sorted = tt;
      provinces_valid = λ x h. absurd cc;
      states_valid = λ x h. absurd cc;
    },
  )
