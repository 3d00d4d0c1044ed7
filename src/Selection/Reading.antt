-- ===== src/Selection/Reading.antt =====
-- SelectionManager.cpp: reading what a series of calls has selected.
use ho_i4_mod_development_to.Base.{◌≡◌, refl, true, some, List, [], ◌∷◌, length, arith}
use ho_i4_mod_development_to.Base.Ord.{Ord, nat_ord}
use ho_i4_mod_development_to.Base.OrdSet
use ho_i4_mod_development_to.Base.Dict.{lookup_of_has}
use ho_i4_mod_development_to.Project.{
  ProvinceId, StateId, Province, State, Project, is_valid_province_id, is_valid_state_id,
  get_province_for_id, get_state_for_id,
}
use ho_i4_mod_development_to.Selection.{
  SelectionManager, make, provinces_for, states_for, get_selected_provinces, get_selected_states,
  get_selected_province_count, get_selected_state_count,
}
use ho_i4_mod_development_to.Selection.Steps.{Call, step, run, Keeps, step-Keeps}

module _ (W : Type 0) (o : Ord ProvinceId) where
  pub run-Keeps :
      (p : Project) (cs : List Call) (m : SelectionManager W o) (w : W)
      → Keeps W o p m
      → Keeps W o p (run W o (some p) cs m w).0
  run-Keeps p [] m w i = i
  run-Keeps p (c ∷ cs) m w i =
      run-Keeps p cs (step W o (some p) c m w).0 (step W o (some p) c m w).1
        (step-Keeps W o p c m w i)

  provinces_for_all :
      (p : Project) (ids : List ProvinceId)
      → OrdSet.IsSorted ⦃o = o⦄ ids
      → ((k : ProvinceId) → OrdSet.contains ⦃o = o⦄ k ids ≡ true → is_valid_province_id k p ≡ true)
      → (provs : List Province) × (provinces_for W o p ids ≡ some provs)
        × (length provs ≡ length ids)
  unfolding provinces_for get_province_for_id is_valid_province_id
  provinces_for_all p [] s h = ([], refl, refl)
  provinces_for_all p (id ∷ ids) s h =
      let (prov, e) =
        lookup_of_has id p.provinces (h id (ground (arith, OrdSet.same_self ⦃o = o⦄ id))) in
      let (provs, g, l) = provinces_for_all p ids s.1 (λ k m. h k (ground (arith, m))) in
      (prov ∷ provs, ground (arith, e, g), ground (arith, l))

  states_for_all :
      (p : Project) (ids : List StateId)
      → OrdSet.IsSorted ⦃o = nat_ord⦄ ids
      → ((k : StateId) → OrdSet.contains ⦃o = nat_ord⦄ k ids ≡ true → is_valid_state_id k p ≡ true)
      → (sts : List State) × (states_for W o p ids ≡ some sts) × (length sts ≡ length ids)
  unfolding states_for get_state_for_id is_valid_state_id
  states_for_all p [] s h = ([], refl, refl)
  states_for_all p (id ∷ ids) s h =
      let (st, e) = lookup_of_has id p.states (h id (ground arith)) in
      let (sts, g, l) = states_for_all p ids s.1 (λ k m. h k (ground (arith, m))) in
      (st ∷ sts, ground (arith, e, g), ground (arith, l))

  make-Keeps : (p : Project) → Keeps W o p (make W o)
  unfolding make
  make-Keeps p = (
    record { on_province = λ id a s w i. i; on_state = λ id a s w i. i },
    record {
      provinces_sorted = tt;
      states_sorted = tt;
      provinces_valid = λ k h. absurd cc;
      states_valid = λ k h. absurd cc;
    },
  )

  -- Whatever has been called, if the callbacks leave a selection of the project.
  pub Keeps-reads :
      (p : Project) (m : SelectionManager W o)
      → Keeps W o p m
      → (provs : List Province) × (sts : List State) × (get_selected_provinces W o (some p) m
          ≡ some provs)
        × (length provs ≡ get_selected_province_count W o m)
        × (get_selected_states W o (some p) m ≡ some sts)
        × (length sts ≡ get_selected_state_count W o m)
  unfolding get_selected_provinces get_selected_states get_selected_province_count
      get_selected_state_count
  Keeps-reads p m (_, i) =
      let (provs, e, l) = provinces_for_all p _ i.provinces_sorted i.provinces_valid in
      let (sts, f, k) = states_for_all p _ i.states_sorted i.states_valid in
      (provs, sts, e, l, f, k)

  -- After any calls on a new manager, which has the default callbacks, while one project is open, reading the selection throws nothing,
  -- and gives as many provinces and states of the project as are counted.
  pub run_reads :
      (p : Project) (cs : List Call) (w : W)
      → (provs : List Province) × (sts : List State) × (let m =
            (run W o (some p) cs (make W o) w).0 in
          (get_selected_provinces W o (some p) m ≡ some provs)
          × (length provs ≡ get_selected_province_count W o m)
          × (get_selected_states W o (some p) m ≡ some sts)
          × (length sts ≡ get_selected_state_count W o m))
  run_reads p cs w =
      let (provs, sts, e, l, f, k) = Keeps-reads p _ (run-Keeps p cs (make W o) w (make-Keeps p)) in
      (provs, sts, (e, l, f, k))
