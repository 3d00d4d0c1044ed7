-- ===== src/Selection/Registered.antt =====
-- What each call does to the selection, with the callbacks of the main window.
use ho_i4_mod_development_to.Base.{
  ℕ, ◌≡◌, ◌≢◌, ◌⊎◌, ◌↔◌, true, false, some, [], ◌∷◌, arith, inl, inr, Bool-cases,
}
use ho_i4_mod_development_to.Base.Ord.{Ord, nat_ord}
use ho_i4_mod_development_to.Base.OrdSet
use ho_i4_mod_development_to.Project.{
  ProvinceId, StateId, Project, is_valid_province_id, is_valid_state_id,
}
use ho_i4_mod_development_to.Project.Merging.Forest.{IsForest}
use ho_i4_mod_development_to.Selection.{
  Action, Selected, SelectionManager, select_province, add_province_selection,
  remove_province_selection, clear_province_selection, select_state, add_state_selection,
  remove_state_selection, clear_state_selection, is_province_selected, is_state_selected,
  on_project_unloaded, set_on_select_province_callback, set_on_select_state_callback,
}
use ho_i4_mod_development_to.Selection.Sets.{
  Either, either_first, either_second, by_test, itself, never, alone_lem, inserted_lem, erased_lem,
}
use ho_i4_mod_development_to.Selection.Steps.{
  Call, selects_province, adds_province, removes_province, clears_provinces, selects_state,
  adds_state, removes_state, clears_states, unloads, step,
}
use ho_i4_mod_development_to.Selection.Window.{
  merged_provinces, add_merged, on_select_province, initialize_callbacks,
}
use ho_i4_mod_development_to.Selection.Joined.{Joined, joined_lem, add_merged_states}

module _ (W : Type 0) (o : Ord ProvinceId) (depth : ℕ) (p : Project)
    (forest : IsForest o depth p) where
  -- Which provinces are selected after a call, from which were before.
  abbrev pub ProvinceAfter : Call → ProvinceId → Type 0 → Type 0
  ProvinceAfter (selects_province id _) k Was = Either (is_valid_province_id id p) (k ≡ id) Was
  ProvinceAfter (adds_province id skip) k Was =
      Either (is_valid_province_id id p)
        (Was ⊎ Either skip (k ≡ id) (Joined W o depth p forest k id)) Was
  ProvinceAfter (removes_province id _) k Was = Was × (k ≢ id)
  ProvinceAfter (clears_provinces _) k Was = ⊥
  ProvinceAfter unloads k Was = ⊥
  ProvinceAfter _ k Was = Was

  abbrev pub StateAfter : Call → StateId → Type 0 → Type 0
  StateAfter (selects_state id) k Was = Either (is_valid_state_id id p) (k ≡ id) Was
  StateAfter (adds_state id) k Was = Either (is_valid_state_id id p) (Was ⊎ (k ≡ id)) Was
  StateAfter (removes_state id) k Was = Was × (k ≢ id)
  StateAfter clears_states k Was = ⊥
  StateAfter unloads k Was = ⊥
  StateAfter _ k Was = Was

  module _ (show_province : ProvinceId → Action → Selected → W → W)
      (show_state : StateId → Action → Selected → W → W) where
    abbrev registered : SelectionManager W o → SelectionManager W o
    registered = initialize_callbacks W o p show_province show_state

    abbrev after : Call → SelectionManager W o → W → SelectionManager W o
    after c m w = (step W o (some p) c (registered m) w).0

    abbrev HasProvince : ProvinceId → SelectionManager W o → Type 0
    HasProvince k m = is_province_selected W o k m ≡ true

    abbrev HasState : StateId → SelectionManager W o → Type 0
    HasState k m = is_state_selected W o k m ≡ true

    provinces_lem :
        (c : Call) (m : SelectionManager W o) (w : W)
        → OrdSet.IsSorted ⦃o = o⦄ m.selected.selected_provinces
        → (k : ProvinceId) → HasProvince k (after c m w) ↔ ProvinceAfter c k (HasProvince k m)
    unfolding select_province add_province_selection remove_province_selection
        clear_province_selection select_state add_state_selection remove_state_selection
        clear_state_selection on_project_unloaded is_province_selected on_select_province
        initialize_callbacks set_on_select_province_callback set_on_select_state_callback
    provinces_lem (selects_province id skip) m w h k =
        elim (Bool-cases (is_valid_province_id id p)) [
          | inl v ↦ either_first _ _ _ _ v (
              by_test _ (OrdSet.contains ⦃o = o⦄ k (id ∷ [])) _ (ground (arith, v))
                (alone_lem ⦃o = o⦄ k id))
          | inr v ↦ either_second _ _ _ _ v (
              by_test _ (OrdSet.contains ⦃o = o⦄ k m.selected.selected_provinces) _
                (ground (arith, v)) (itself _))
        ]
    provinces_lem (adds_province id true) m w h k = elim (Bool-cases (is_valid_province_id id p)) [
      | inl v ↦ either_first _ _ _ _ v (
          by_test _
            (OrdSet.contains ⦃o = o⦄ k (OrdSet.insert ⦃o = o⦄ id m.selected.selected_provinces)) _
            (ground (arith, v)) (inserted_lem ⦃o = o⦄ k id m.selected.selected_provinces))
      | inr v ↦ either_second _ _ _ _ v (
          by_test _ (OrdSet.contains ⦃o = o⦄ k m.selected.selected_provinces) _ (ground (arith, v))
            (itself _))
    ]
    provinces_lem (adds_province id false) m w h k = elim (Bool-cases (is_valid_province_id id p)) [
      | inl v ↦ either_first _ _ _ _ v (
          by_test _
            (OrdSet.contains ⦃o = o⦄ k (
              OrdSet.insert ⦃o = o⦄ id
                (add_merged W o p id (merged_provinces W o p id) m.selected).selected_provinces))
            _ (ground (arith, v)) (joined_lem W o depth p forest id k m.selected v))
      | inr v ↦ either_second _ _ _ _ v (
          by_test _ (OrdSet.contains ⦃o = o⦄ k m.selected.selected_provinces) _ (ground (arith, v))
            (itself _))
    ]
    provinces_lem (removes_province id true) m w h k =
        erased_lem ⦃o = o⦄ k id m.selected.selected_provinces h
    provinces_lem (removes_province id false) m w h k =
        erased_lem ⦃o = o⦄ k id m.selected.selected_provinces h
    provinces_lem (clears_provinces true) m w h k = never
    provinces_lem (clears_provinces false) m w h k = never
    provinces_lem unloads m w h k = never
    provinces_lem (selects_state id) m w h k =
        by_test _ (OrdSet.contains ⦃o = o⦄ k m.selected.selected_provinces) _ (ground arith)
          (itself _)
    provinces_lem (adds_state id) m w h k =
        by_test _ (OrdSet.contains ⦃o = o⦄ k m.selected.selected_provinces) _ (ground arith)
          (itself _)
    provinces_lem (removes_state id) m w h k = itself _
    provinces_lem clears_states m w h k = itself _

    states_lem :
        (c : Call) (m : SelectionManager W o) (w : W)
        → OrdSet.IsSorted ⦃o = nat_ord⦄ m.selected.selected_states
        → (k : StateId) → HasState k (after c m w) ↔ StateAfter c k (HasState k m)
    unfolding select_province add_province_selection remove_province_selection
        clear_province_selection select_state add_state_selection remove_state_selection
        clear_state_selection on_project_unloaded is_state_selected on_select_province
        initialize_callbacks set_on_select_province_callback set_on_select_state_callback
    states_lem (selects_state id) m w h k = elim (Bool-cases (is_valid_state_id id p)) [
      | inl v ↦ either_first _ _ _ _ v (
          by_test _ (OrdSet.contains ⦃o = nat_ord⦄ k (id ∷ [])) _ (ground (arith, v))
            (alone_lem ⦃o = nat_ord⦄ k id))
      | inr v ↦ either_second _ _ _ _ v (
          by_test _ (OrdSet.contains ⦃o = nat_ord⦄ k m.selected.selected_states) _
            (ground (arith, v)) (itself _))
    ]
    states_lem (adds_state id) m w h k = elim (Bool-cases (is_valid_state_id id p)) [
      | inl v ↦ either_first _ _ _ _ v (
          by_test _
            (OrdSet.contains ⦃o = nat_ord⦄ k
              (OrdSet.insert ⦃o = nat_ord⦄ id m.selected.selected_states))
            _ (ground (arith, v)) (inserted_lem ⦃o = nat_ord⦄ k id m.selected.selected_states))
      | inr v ↦ either_second _ _ _ _ v (
          by_test _ (OrdSet.contains ⦃o = nat_ord⦄ k m.selected.selected_states) _
            (ground (arith, v)) (itself _))
    ]
    states_lem (removes_state id) m w h k =
        erased_lem ⦃o = nat_ord⦄ k id m.selected.selected_states h
    states_lem clears_states m w h k = never
    states_lem unloads m w h k = never
    states_lem (selects_province id skip) m w h k =
        by_test _ (OrdSet.contains ⦃o = nat_ord⦄ k m.selected.selected_states) _
          (ground
            (arith, add_merged_states W o depth p forest id (merged_provinces W o p id) m.selected))
          (itself _)
    states_lem (adds_province id skip) m w h k =
        by_test _ (OrdSet.contains ⦃o = nat_ord⦄ k m.selected.selected_states) _
          (ground
            (arith, add_merged_states W o depth p forest id (merged_provinces W o p id) m.selected))
          (itself _)
    states_lem (removes_province id true) m w h k = itself _
    states_lem (removes_province id false) m w h k = itself _
    states_lem (clears_provinces true) m w h k = itself _
    states_lem (clears_provinces false) m w h k = itself _

    -- In a project whose merged provinces form a forest, and with the callbacks of the main window, a call
    -- on sets of selected provinces and states changes them as follows. Adding a province of the project
    -- adds all that have its root, or only itself without the callback; selecting one leaves only itself;
    -- removing one takes out only itself; clearing the provinces leaves none. Selecting, adding, removing
    -- and clearing states does so with states, and closing the project leaves neither. An id that the
    -- project does not have is not selected or added, and all else stays selected.
    pub step-selected :
        (c : Call) (m : SelectionManager W o) (w : W)
        → OrdSet.IsSorted ⦃o = o⦄ m.selected.selected_provinces
        → OrdSet.IsSorted ⦃o = nat_ord⦄ m.selected.selected_states
        → (k : ProvinceId) (s : StateId)
        → let n =
            (step W o (some p) c (initialize_callbacks W o p show_province show_state m) w).0 in
          ((is_province_selected W o k n ≡ true)
            ↔ ProvinceAfter c k (is_province_selected W o k m ≡ true))
          × ((is_state_selected W o s n ≡ true) ↔ StateAfter c s (is_state_selected W o s m ≡ true))
    step-selected c m w h g k s = (provinces_lem c m w h k, states_lem c m w g s)
