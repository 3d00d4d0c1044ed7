-- ===== src/Project/Map.antt =====
-- mod_dev_tool/project/src/MapProject.cpp: moving provinces between states, the check of the data that
-- was loaded and its repairs, and the coasts.
pub mod Consistent
pub mod Moving
pub mod Claiming
pub mod Making
pub mod Removing
pub mod Ids
pub mod DenseIds
pub mod Sessions
pub mod Overwriting
pub mod Validation
pub mod Repair
pub mod Undone
pub mod Coasts
mod Tests
use ho_i4_mod_development_to.Base.{
  ℕ, Bool, true, false, ◌&&◌, Option, none, some, List, [], ◌∷◌, ◌++◌, map, if◌then◌else◌, ◌==◌,
  elem, erase_first,
}
use ho_i4_mod_development_to.Base.Dict
use ho_i4_mod_development_to.Base.Dict.{Dict}
use ho_i4_mod_development_to.Colors.{ProvinceType, unknown, land, sea, lake}
use ho_i4_mod_development_to.Status.{
  Status, success, province_invalid_state_id, province_not_in_state, state_does_not_exist,
}
use ho_i4_mod_development_to.Project.{
  ProvinceId, StateId, no_state, Province, State, Project, is_valid_state_id,
}
use ho_i4_mod_development_to.Project.States.{
  set_state, add_province_to_state, detach_province, update_state_id_matrix,
}

-- `none`: `getProvinceForID` throws.
unfoldable pub move_province_to_state : ProvinceId → StateId → Project → Option Project
move_province_to_state key s p = elim (Dict.lookup key p.provinces) [
  | none ↦ none
  | some prov ↦ some (
      update_state_id_matrix
        (add_province_to_state s prov.id (set_state s key (detach_province key true p))).1)
]

unfoldable pub validate_province_state_id : StateId → ProvinceId → Project → Status
validate_province_state_id s id p =
    if s == no_state then success else (elim (Dict.lookup s p.states) [
      | none ↦ province_invalid_state_id
      | some st ↦ if elem id st.provinces then success else province_not_in_state
    ])

-- The search by `find_if` over the states in the order of their ids.
unfoldable pub first_state_with : ProvinceId → Dict State → Option StateId
first_state_with id [] = none
first_state_with id ((s, st) ∷ states) =
    if elem id st.provinces then some s else first_state_with id states

-- `provinces.erase(province_it)`, where the iterator is the first that the search found.
unfoldable pub erase_found : ProvinceId → Dict State → Dict State
erase_found id states = elim (first_state_with id states) [
  | none ↦ states
  | some s ↦ Dict.update s (λ st. record st { provinces = erase_first id st.provinces }) states
]

-- The repair under `fix_warnings_on_load`.
unfoldable pub fix_province : Status → ProvinceId → Province → Project → Project
fix_province province_invalid_state_id key prov p = set_state no_state key p
fix_province province_not_in_state key prov p =
    let added = (add_province_to_state prov.state prov.id p).1 in
    record added { states = erase_found prov.id added.states }
fix_province status key prov p = p

abbrev pub is_success : Status → Bool
is_success success = true
is_success _ = false

-- One round of the loop of `validateData`, for the province under `key`.
unfoldable pub validate_step : Bool → ProvinceId → Bool × Project → Bool × Project
validate_step fix key (valid, p) = elim (Dict.lookup key p.provinces) [
  | none ↦ (valid, p)
  | some prov ↦
      let status = validate_province_state_id prov.state prov.id p in
      if is_success status
      then (valid, p)
      else (if fix then (valid, fix_province status key prov p) else (false, p))
]

unfoldable pub validate_loop : Bool → List ProvinceId → Bool × Project → Bool × Project
validate_loop fix [] r = r
validate_loop fix (key ∷ keys) r = validate_loop fix keys (validate_step fix key r)

abbrev pub keys : Dict Province → List ProvinceId
keys [] = []
keys ((k, _) ∷ m) = k ∷ keys m

unfoldable pub validate_data : Bool → Project → Bool × Project
validate_data fix p = validate_loop fix (keys p.provinces) (true, p)

abbrev pub is_land : ProvinceType → Bool
is_land land = true
is_land _ = false

abbrev pub is_sea : ProvinceType → Bool
is_sea sea = true
is_sea _ = false

-- `any_of` stops at the first sea province; `none`: `getProvinceForID` throws.
unfoldable pub any_sea : Dict Province → List ProvinceId → Option Bool
any_sea provinces [] = some false
any_sea provinces (id ∷ ids) =
    let rest = any_sea provinces ids in
    elim (Dict.lookup id provinces) [
      | none ↦ none
      | some prov ↦ if is_sea prov.province_type then some true else rest
    ]

unfoldable pub coastal_step : Bool → ProvinceId → Dict Province → Option (Dict Province)
coastal_step dry key provinces = elim (Dict.lookup key provinces) [
  | none ↦ some provinces
  | some prov ↦
      if is_land prov.province_type
      then (elim (any_sea provinces prov.adjacent_provinces) [
        | none ↦ none
        | some is_coastal ↦ some (
            if dry
            then provinces
            else Dict.update key (λ q. record q { coastal = is_coastal }) provinces)
      ])
      else some provinces
]

unfoldable pub coastal_loop : Bool → List ProvinceId → Dict Province → Option (Dict Province)
coastal_loop dry [] provinces = some provinces
coastal_loop dry (key ∷ rest) provinces = elim (coastal_step dry key provinces) [
  | none ↦ none
  | some next ↦ coastal_loop dry rest next
]

unfoldable pub calculate_coastal_provinces : Bool → Project → Option Project
calculate_coastal_provinces dry p = elim (coastal_loop dry (keys p.provinces) p.provinces) [
  | none ↦ none
  | some provinces ↦ some (record p { provinces = provinces })
]
