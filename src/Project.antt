-- ===== src/Project.antt =====
-- mod_dev_tool/project: the provinces and the states of a project, and the lookups that
-- IProvinceProject and IStateProject (IProject.cpp) give of them. A province's or state's key is a
-- number: the hash of its UUID, by which `operator==` and std::unordered_map know it, or its StateID.
pub mod States
pub mod Map
pub mod Merging
pub mod Graphics
pub mod Importing
pub mod MapBuilder
pub mod Outlines
use ho_i4_mod_development_to.Base.{
  ℕ, ◌+◌, ◌-◌, ◌^◌, Bool, true, false, Option, none, some, List, [], ◌∷◌, map, if◌then◌else◌,
}
use ho_i4_mod_development_to.Base.Ord.{Text}
use ho_i4_mod_development_to.Base.Dict
use ho_i4_mod_development_to.Base.Dict.{Dict}
use ho_i4_mod_development_to.Colors.{Color, ProvinceType, Generator}
use ho_i4_mod_development_to.Status.{Maybe, ok, error, state_does_not_exist}

abbrev pub ProvinceId : Type 0
ProvinceId = ℕ

abbrev pub StateId : Type 0
StateId = ℕ

-- EMPTY_UUID, whose halves are zero.
abbrev pub invalid_province : ProvinceId
invalid_province = 0

-- `-1` as a uint32_t: a province of no state.
abbrev pub no_state : StateId
no_state = 2 ^ 32 - 1

pub record BoundingBox : Type 0 where
  pub left : ℕ
  pub bottom : ℕ
  pub right : ℕ
  pub top : ℕ

pub record Province : Type 0 where
  pub id : ProvinceId
  pub unique_color : Color
  pub province_type : ProvinceType
  pub coastal : Bool
  pub terrain : Text
  pub continent : Text
  pub state : StateId
  pub bounding_box : BoundingBox
  pub adjacent_provinces : List ProvinceId
  pub parent_id : ProvinceId
  pub children : List ProvinceId

-- The float is its bit pattern.
pub record State : Type 0 where
  pub id : StateId
  pub name : Text
  pub manpower : ℕ
  pub category : Text
  pub buildings_max_level_factor : ℕ
  pub impassable : Bool
  pub provinces : List ProvinceId
  pub color : Color

-- What ProvinceProject, StateProject and the shared MapData hold.
pub record Project : Type 0 where
  pub provinces : Dict Province
  pub states : Dict State
  pub available_state_ids : List StateId
  pub province_matrix : List ProvinceId
  pub state_id_matrix : List StateId
  pub colors : Generator

unfoldable pub is_valid_province_id : ProvinceId → Project → Bool
is_valid_province_id id p = Dict.has id p.provinces

-- `at`: `none` is the exception.
unfoldable pub get_province_for_id : ProvinceId → Project → Option Province
get_province_for_id id p = Dict.lookup id p.provinces

unfoldable pub is_valid_state_id : StateId → Project → Bool
is_valid_state_id id p = Dict.has id p.states

unfoldable pub get_state_for_id : StateId → Project → Maybe State
get_state_for_id id p = elim (Dict.lookup id p.states) [
  | none ↦ error state_does_not_exist
  | some s ↦ ok s
]
