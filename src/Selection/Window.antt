-- ===== src/Selection/Window.antt =====
-- initializeCallbacks of mod_dev_tool/gui/src/MainWindow.cpp: the callbacks that the main window gives the
-- selection manager, while a project is open. What they do to the panes and the drawing is a
-- parameter.
use ho_i4_mod_development_to.Base.{◌||◌, none, some, List, [], ◌∷◌, if◌then◌else◌, ◌==◌}
use ho_i4_mod_development_to.Base.Ord.{Ord}
use ho_i4_mod_development_to.Base.OrdSet
use ho_i4_mod_development_to.Project.{ProvinceId, StateId, Project, is_valid_province_id}
use ho_i4_mod_development_to.Project.Merging.Search.{rounds, get_merged_provinces}
use ho_i4_mod_development_to.Selection.{
  Action, set, add, remove, clear, Selected, SelectionManager, set_on_select_province_callback,
  set_on_select_state_callback,
}

module _ (W : Type 0) (o : Ord ProvinceId) (p : Project) where
  -- The provinces that `getMergedProvinces` gives; there are none only where the search does not end
  -- or throws, which it never does in a forest.
  unfoldable pub merged_provinces : ProvinceId → List ProvinceId
  merged_provinces id = elim (get_merged_provinces o p (rounds o p) id) [
    | none ↦ []
    | some none ↦ []
    | some (some merged) ↦ merged
  ]

  -- `addProvinceSelection` without its callback changes only the selection.
  unfoldable pub add_quietly : ProvinceId → Selected → Selected
  add_quietly label s =
      if is_valid_province_id label p
      then record s { selected_provinces = OrdSet.insert ⦃o = o⦄ label s.selected_provinces }
      else s

  -- The loop over the merged provinces.
  unfoldable pub add_merged : ProvinceId → List ProvinceId → Selected → Selected
  add_merged id [] s = s
  add_merged id (merged ∷ rest) s = add_merged id rest (
      if merged == id || OrdSet.contains ⦃o = o⦄ merged s.selected_provinces
      then s
      else add_quietly merged s)

  -- What happens to the selection.
  unfoldable pub on_select_province : ProvinceId → Action → Selected → Selected
  on_select_province id set s =
      if is_valid_province_id id p then add_merged id (merged_provinces id) s else s
  on_select_province id add s =
      if is_valid_province_id id p then add_merged id (merged_provinces id) s else s
  on_select_province id remove s = s
  on_select_province id clear s = s

  module _ (show_province : ProvinceId → Action → Selected → W → W)
      (show_state : StateId → Action → Selected → W → W) where
    unfoldable pub initialize_callbacks : SelectionManager W o → SelectionManager W o
    initialize_callbacks m =
        set_on_select_state_callback W o (λ id a s w. (s, show_state id a s w))
          (set_on_select_province_callback W o
            (λ id a s w. (on_select_province id a s, show_province id a s w)) m)
