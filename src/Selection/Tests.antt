-- ===== src/Selection/Tests.antt =====
-- The selection in a project with one province and one state.
use ho_i4_mod_development_to.Base.{
  ℕ, ◌+◌, ◌≡◌, refl, ◌⊎◌, ◌↔◌, if◌then◌else◌, ◌==◌, arith, true, false, some, List, [], ◌∷◌, length,
}
use ho_i4_mod_development_to.Base.Ord.{nat_ord}
use ho_i4_mod_development_to.Colors.{land}
use ho_i4_mod_development_to.Project.{ProvinceId, Province, State, Project, is_valid_province_id}
use ho_i4_mod_development_to.Selection.{
  SelectionManager, select_province, add_province_selection, remove_province_selection,
  set_on_select_province_callback, set_on_select_state_callback, make, is_province_selected,
  is_state_selected, get_selected_provinces, get_selected_states, get_selected_province_count,
  get_selected_state_count,
}
use ho_i4_mod_development_to.Project.Merging.Forest.{IsForest}
use ho_i4_mod_development_to.Project.Merging.Search.{
  push_parent, push_children, search_round, search_merged, weight, get_merged_provinces,
}
use ho_i4_mod_development_to.Selection.Window.{
  merged_provinces, add_quietly, add_merged, on_select_province, initialize_callbacks,
}
use ho_i4_mod_development_to.Selection.Joined.{Joined}
use ho_i4_mod_development_to.Selection.Registered.{step-selected}
use ho_i4_mod_development_to.Selection.Steps.{
  Call, selects_province, adds_province, removes_province, selects_state, step, run,
}
use ho_i4_mod_development_to.Selection.Reading.{run_reads}

abbrev one : Project
one = record {
  provinces =
      (
        4,
        record {
          id = 4;
          unique_color = record { r = 4; g = 0; b = 0 };
          province_type = land;
          coastal = false;
          terrain = [];
          continent = [];
          state = 1;
          bounding_box = record { left = 0; bottom = 0; right = 0; top = 0 };
          adjacent_provinces = [];
          parent_id = 0;
          children = [];
        },
      )
      ∷ [];
  states =
      (
        1,
        record {
          id = 1;
          name = [];
          manpower = 0;
          category = [];
          buildings_max_level_factor = 0;
          impassable = false;
          provinces = 4 ∷ [];
          color = record { r = 1; g = 0; b = 0 };
        },
      )
      ∷ [];
  available_state_ids = [];
  province_matrix = [];
  state_id_matrix = [];
  colors = record { land_ptr = 0; sea_ptr = 0; lake_ptr = 0; unknown_ptr = 0 };
}

abbrev prov : ProvinceId → ProvinceId → List ProvinceId → Province
prov id parent children = record {
  id = id;
  unique_color = record { r = id; g = 0; b = 0 };
  province_type = land;
  coastal = false;
  terrain = [];
  continent = [];
  state = 1;
  bounding_box = record { left = 0; bottom = 0; right = 0; top = 0 };
  adjacent_provinces = [];
  parent_id = parent;
  children = children;
}

-- The second province is merged into the first.
abbrev merged : Project
merged = record one {
  provinces = (1, prov 1 0 (2 ∷ [])) ∷ (2, prov 2 1 []) ∷ (3, prov 3 0 []) ∷ [];
}

merged-IsForest : IsForest nat_ord 2 merged
merged-IsForest = record {
  rank = λ k. if k == 2 then 1 else 0;
  keyed = λ k q e. ground arith;
  no_nil = refl;
  there = λ k m. ground arith;
  climbs = λ k m. ground arith;
  short = λ k. ground arith;
  listed = λ k c h. ground arith;
  sorted = λ k. ground arith;
}

-- The panes and the drawing count the calls.
abbrev window : List ProvinceId → SelectionManager ℕ nat_ord
window provinces =
    initialize_callbacks ℕ nat_ord merged (λ _ _ _ n. n + 1) (λ _ _ _ n. n + 1)
      (record (make ℕ nat_ord) {
        selected = record { selected_provinces = provinces; selected_states = [] };
      })

abbrev selects : Call → List ProvinceId → List ProvinceId
selects c provinces =
    (step ℕ nat_ord (some merged) c (window provinces) 0).0.selected.selected_provinces

-- The merged province comes with the one that is added.
adds_both : selects (adds_province 2 false) (3 ∷ []) ≡ 1 ∷ 2 ∷ 3 ∷ []
unfolding add_province_selection merged_provinces get_merged_provinces search_merged search_round
    push_parent push_children weight add_merged add_quietly on_select_province initialize_callbacks
    set_on_select_province_callback set_on_select_state_callback make is_valid_province_id
adds_both = refl

-- It does not stay selected with the one that is selected.
selects_one : selects (selects_province 2 false) [] ≡ 2 ∷ []
unfolding select_province merged_provinces get_merged_provinces search_merged search_round
    push_parent push_children weight add_merged add_quietly on_select_province initialize_callbacks
    set_on_select_province_callback set_on_select_state_callback make is_valid_province_id
selects_one = refl

-- It does not go with the one that is removed.
removes_one : selects (removes_province 2 false) (1 ∷ 2 ∷ []) ≡ 1 ∷ []
unfolding remove_province_selection on_select_province initialize_callbacks
    set_on_select_province_callback set_on_select_state_callback make
removes_one = refl

abbrev three : SelectionManager ℕ nat_ord
three = record (make ℕ nat_ord) {
  selected = record { selected_provinces = 3 ∷ []; selected_states = [] };
}

step-selected_example :
    let n =
      (step ℕ nat_ord
        (some merged)
        (adds_province 2 false)
        (initialize_callbacks ℕ nat_ord merged (λ _ _ _ n. n + 1) (λ _ _ _ n. n + 1) three)
        0).0 in
    ((is_province_selected ℕ nat_ord 1 n ≡ true) ↔ (
      (is_province_selected ℕ nat_ord 1 three ≡ true)
      ⊎ Joined ℕ nat_ord 2 merged merged-IsForest 1 2))
    × ((is_state_selected ℕ nat_ord 1 n ≡ true) ↔ (is_state_selected ℕ nat_ord 1 three ≡ true))
unfolding is_valid_province_id make
step-selected_example =
    step-selected ℕ nat_ord 2 merged merged-IsForest (λ _ _ _ n. n + 1) (λ _ _ _ n. n + 1)
      (adds_province 2 false) three 0 (tt, tt) tt 1 1

abbrev calls : List Call
calls = adds_province 4 false ∷ adds_province 7 true ∷ selects_state 1 ∷ []

run_reads_example :
    (provs : List Province) × (sts : List State) × (let m =
        (run ℕ nat_ord (some one) calls (make ℕ nat_ord) 0).0 in
      (get_selected_provinces ℕ nat_ord (some one) m ≡ some provs)
      × (length provs ≡ get_selected_province_count ℕ nat_ord m)
      × (get_selected_states ℕ nat_ord (some one) m ≡ some sts)
      × (length sts ≡ get_selected_state_count ℕ nat_ord m))
run_reads_example = run_reads ℕ nat_ord one calls 0
