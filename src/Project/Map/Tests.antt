-- ===== src/Project/Map/Tests.antt =====
-- The theorems on provinces and states at a small project: two land provinces of one state, and a sea
-- province of none.
use ho_i4_mod_development_to.Base.{
  ◌+◌, ◌≤◌, ◌<◌, ◌≡◌, ◌≢◌, refl, true, false, some, List, [], ◌∷◌, if◌then◌else◌, ◌==◌, elem, arith,
  ◌↔◌,
}
use ho_i4_mod_development_to.Base.Dict
use ho_i4_mod_development_to.Base.Dict.{Dict}
use ho_i4_mod_development_to.Colors.{ProvinceType, land, sea, Palette}
use ho_i4_mod_development_to.Status.{success, province_not_in_state}
use ho_i4_mod_development_to.Project.{
  ProvinceId, StateId, no_state, is_valid_province_id, Province, State, Project,
}
use ho_i4_mod_development_to.Project.States.{
  take_state_id, next_state_id, all_valid, add_new_state, remove_state, unused_ids,
  track_unused_ids,
}
use ho_i4_mod_development_to.Project.Map.{
  move_province_to_state, first_state_with, validate_data, fix_province,
  calculate_coastal_provinces,
}
use ho_i4_mod_development_to.Project.Map.Consistent.{members, belongs, IsConsistent, IsCurrent}
use ho_i4_mod_development_to.Project.Map.Moving.{move_province_to_state-IsConsistent}
use ho_i4_mod_development_to.Project.Map.Making.{add_new_state-IsConsistent}
use ho_i4_mod_development_to.Project.Map.Removing.{remove_state-IsConsistent}
use ho_i4_mod_development_to.Project.Map.Ids.{HasDenseIds, id_bound}
use ho_i4_mod_development_to.Project.Map.Overwriting.{add_new_state_overwrites}
use ho_i4_mod_development_to.Project.Map.Validation.{is_placed, validate_data_iff}
use ho_i4_mod_development_to.Project.Map.Repair.{repaired, validate_data_repairs}
use ho_i4_mod_development_to.Project.Map.Undone.{fix_province_undone}
use ho_i4_mod_development_to.Project.Map.Coasts.{coast, calculate_coastal_provinces_lem}
use ho_i4_mod_development_to.Project.Map.Sessions.{
  adds, Session, start, later, IsSound, Session-IsSound, add_new_state_after,
}

abbrev palette : Palette
palette = record { byte = λ i. i; size = λ t. 3; start = λ t. 0 }

abbrev prov : ProvinceId → ProvinceType → StateId → List ProvinceId → Province
prov id t s near = record {
  id = id;
  unique_color = record { r = id; g = 0; b = 0 };
  province_type = t;
  coastal = false;
  terrain = [];
  continent = [];
  state = s;
  bounding_box = record { left = 0; bottom = 0; right = 0; top = 0 };
  adjacent_provinces = near;
  parent_id = 0;
  children = [];
}

abbrev state_of : StateId → List ProvinceId → State
state_of id ids = record {
  id = id;
  name = [];
  manpower = 0;
  category = [];
  buildings_max_level_factor = 0;
  impassable = false;
  provinces = ids;
  color = record { r = id; g = 0; b = 0 };
}

abbrev small : Project
small = record {
  provinces =
      (1, prov 1 land 1 (2 ∷ [])) ∷ (2, prov 2 sea no_state []) ∷ (3, prov 3 land 1 (1 ∷ [])) ∷ [];
  states = (1, state_of 1 (1 ∷ 3 ∷ [])) ∷ [];
  available_state_ids = 2 ∷ [];
  province_matrix = 1 ∷ 2 ∷ 3 ∷ [];
  state_id_matrix = 1 ∷ no_state ∷ 1 ∷ [];
  colors = record { land_ptr = 0; sea_ptr = 0; lake_ptr = 0; unknown_ptr = 0 };
}

small-IsConsistent : IsConsistent small
small-IsConsistent = record {
  sorted = ground arith;
  no_minus = refl;
  keyed = λ k q e. ground arith;
  distinct = λ s. ground arith;
  member = λ s k n m. ground arith;
}

small-HasDenseIds : HasDenseIds small
small-HasDenseIds = record {
  sorted = ground arith;
  used = λ k h. ground arith;
  free = λ k h. ground arith;
  distinct = ground arith;
}

-- The sea province joins the state.
move_province_to_state-IsConsistent_example :
    (q : Project) × (move_province_to_state 2 1 small ≡ some q)
    × IsConsistent q
    × ((k : ProvinceId) (s : StateId)
        → belongs q k s ≡ (if 2 == k then 1 == s else belongs small k s))
    × IsCurrent q
move_province_to_state-IsConsistent_example =
    move_province_to_state-IsConsistent 2 1 small small-IsConsistent refl refl

-- A province of the state makes a state of its own, under the id that was given back.
add_new_state-IsConsistent_example :
    (q : Project) × (add_new_state palette (3 ∷ []) small ≡ some (2, q))
    × IsConsistent q
    × (members q 2 ≡ 3 ∷ [])
    × ((k : ProvinceId) (s : StateId)
        → belongs q k s ≡ (if elem k (3 ∷ []) then 2 == s else belongs small k s))
    × IsCurrent q
unfolding take_state_id next_state_id all_valid is_valid_province_id
add_new_state-IsConsistent_example =
    add_new_state-IsConsistent palette (3 ∷ []) small small-IsConsistent (ground arith) refl
      (ground arith) refl

remove_state-IsConsistent_example :
    (q : Project) × (remove_state 1 small ≡ some (success, q))
    × IsConsistent q
    × (Dict.has 1 q.states ≡ false)
    × ((k : ProvinceId) (s : StateId)
        → s ≢ no_state
        → belongs q k s ≡ (if 1 == s then false else belongs small k s))
    × (q.available_state_ids ≡ 2 ∷ 1 ∷ [])
    × IsCurrent q
remove_state-IsConsistent_example = remove_state-IsConsistent 1 small small-IsConsistent refl

-- The state of the test above, as the first edit of a session.
abbrev split : Project
split = add_new_state-IsConsistent_example.0

one_edit : Session palette small 1 split
unfolding all_valid is_valid_province_id
one_edit = later start (adds (3 ∷ []) 2 (ground arith) refl add_new_state-IsConsistent_example.1)

small-IsSound : IsSound small
small-IsSound = (small-IsConsistent, small-HasDenseIds)

Session-IsSound_example : IsSound split × (id_bound split ≤ id_bound small + 1)
Session-IsSound_example = Session-IsSound palette 1 one_edit small-IsSound (omega arith)

add_new_state_after_example :
    (x : StateId) × (r : Project) × (add_new_state palette (1 ∷ 2 ∷ []) small ≡ some (x, r))
    × (1 ≤ x)
    × (x < no_state)
    × (Dict.has x small.states ≡ false)
    × (members r x ≡ 1 ∷ 2 ∷ [])
    × IsSound r
unfolding all_valid is_valid_province_id
add_new_state_after_example =
    add_new_state_after palette 0 (1 ∷ 2 ∷ []) start small-IsSound (omega arith) (ground arith) refl

-- A file that was loaded with the states 1 and 3.
abbrev gap : Project
gap = record small {
  states = (1, state_of 1 (1 ∷ [])) ∷ (3, state_of 3 (3 ∷ [])) ∷ [];
  available_state_ids = [];
}

add_new_state_overwrites_example :
    (q : Project) × (add_new_state palette (2 ∷ []) (track_unused_ids gap) ≡ some (3, q))
    × (Dict.size q.states ≡ 2)
    × (members q 3 ≡ 2 ∷ [])
unfolding track_unused_ids unused_ids all_valid is_valid_province_id
add_new_state_overwrites_example =
    add_new_state_overwrites palette (2 ∷ []) (track_unused_ids gap) refl (ground arith)
      (omega arith) refl refl

validate_data_iff_example :
    ((validate_data false small).1 ≡ small)
    × (((validate_data false small).0 ≡ true) ↔ (
        (k : ProvinceId) (q : Province)
        → Dict.lookup k small.provinces ≡ some q
        → is_placed small q ≡ true))
validate_data_iff_example = validate_data_iff small

-- The third province names a state that is not there.
abbrev lost : Project
lost = record small { provinces = (1, prov 1 land 1 []) ∷ (3, prov 3 land 9 []) ∷ [] }

validate_data_repairs_example :
    (q : Project) × (validate_data true lost ≡ (true, q))
    × (q.states ≡ lost.states)
    × ((k : ProvinceId)
        → Dict.lookup k q.provinces ≡ repaired lost.states (Dict.lookup k lost.provinces))
    × (validate_data false q ≡ (true, q))
validate_data_repairs_example = validate_data_repairs lost refl (λ k q e t. ground (arith, e, t))

fix_province_undone_example : fix_province province_not_in_state 2 (prov 2 sea 1 []) small ≡ small
unfolding first_state_with
fix_province_undone_example = fix_province_undone 2 (prov 2 sea 1 []) small refl

calculate_coastal_provinces_example :
    (calculate_coastal_provinces true small ≡ some small)
    × (m : Dict Province) × (calculate_coastal_provinces false small
        ≡ some (record small { provinces = m }))
    × ((k : ProvinceId) → Dict.lookup k m ≡ coast small.provinces (Dict.lookup k small.provinces))
calculate_coastal_provinces_example =
    calculate_coastal_provinces_lem small (λ k q e l. ground (arith, e, l))
