-- ===== src/Project/States.antt =====
-- mod_dev_tool/project/src/StateProject.cpp: making, removing and filling states.
use ho_i4_mod_development_to.Base.{
  ℕ, zero, suc, ◌+◌, ◌-◌, ◌/◌, ◌%◌, ◌^◌, Bool, true, false, Option, none, some, List, [], ◌∷◌, ◌++◌,
  map, if◌then◌else◌, ◌==◌, erase_first,
}
use ho_i4_mod_development_to.Base.Ord.{Text}
use ho_i4_mod_development_to.Base.Dict
use ho_i4_mod_development_to.Base.Dict.{Dict}
use ho_i4_mod_development_to.Colors.{unknown, Palette, generate_unique_color}
use ho_i4_mod_development_to.Status.{Status, success, state_does_not_exist}
use ho_i4_mod_development_to.Project.{
  ProvinceId, StateId, no_state, Province, State, Project, is_valid_province_id, is_valid_state_id,
}

-- What `updateStateIDMatrix` writes for one pixel.
unfoldable pub state_at : Dict Province → ProvinceId → StateId
state_at provinces id = elim (Dict.lookup id provinces) [ none ↦ 0 | some prov ↦ prov.state ]

unfoldable pub update_state_id_matrix : Project → Project
update_state_id_matrix p = record p {
  state_id_matrix = map (state_at p.provinces) p.province_matrix;
}

-- A write to a province's `state` through its reference.
unfoldable pub set_state : StateId → ProvinceId → Project → Project
set_state s id p = record p { provinces = Dict.update id (λ q. record q { state = s }) p.provinces }

unfoldable pub add_province_to_state : StateId → ProvinceId → Project → Status × Project
add_province_to_state s id p =
    if is_valid_state_id s p
    then (
      success,
      record p {
        states = Dict.update s (λ st. record st { provinces = st.provinces ++ id ∷ [] }) p.states;
      },
    )
    else (state_does_not_exist, p)

unfoldable pub remove_province_from_state : StateId → ProvinceId → Project → Status × Project
remove_province_from_state s id p =
    if is_valid_state_id s p
    then (
      success,
      record p {
        states =
            Dict.update s (λ st. record st { provinces = erase_first id st.provinces }) p.states;
      },
    )
    else (state_does_not_exist, p)

-- MapProject::removeProvinceFromState, for the province that stands under `key`. It is declared here
-- since `add_new_state` calls it.
unfoldable pub detach_province : ProvinceId → Bool → Project → Project
detach_province key update p = elim (Dict.lookup key p.provinces) [
  | none ↦ p
  | some prov ↦
      let left =
        if is_valid_state_id prov.state p
        then (remove_province_from_state prov.state prov.id p).1
        else p in
      let cleared = set_state no_state key left in
      if update then update_state_id_matrix cleared else cleared
]

-- The decimal digits of a number, by `n` divisions; ten are enough for a uint32_t.
abbrev pub digits_from : ℕ → ℕ → Text → Text
digits_from zero k text = text
digits_from (suc n) k text =
    let rest = digits_from n (k / 10) ((48 + k % 10) ∷ text) in
    if k / 10 == 0 then (48 + k % 10) ∷ text else rest

unfoldable pub default_name : StateId → Text
default_name id = 83 ∷ 84 ∷ 65 ∷ 84 ∷ 69 ∷ digits_from 10 id []

-- The first id that was given back, or one more than the number of states.
unfoldable pub next_state_id : List StateId → Dict State → StateId
next_state_id [] states = (Dict.size states + 1) % 2 ^ 32
next_state_id (id ∷ rest) states = id

-- `pop`, where there is something to pop.
unfoldable pub popped : List StateId → List StateId
popped [] = []
popped (id ∷ rest) = rest

unfoldable pub take_state_id : Project → StateId × Project
take_state_id p = (
  next_state_id p.available_state_ids p.states,
  record p { available_state_ids = popped p.available_state_ids },
)

-- The loop that decouples each province from its state.
unfoldable pub move_all : StateId → List ProvinceId → Project → Project
move_all s [] p = p
move_all s (id ∷ ids) p = move_all s ids (set_state s id (detach_province id false p))

unfoldable pub all_valid : List ProvinceId → Project → Bool
all_valid [] p = true
all_valid (id ∷ ids) p = if is_valid_province_id id p then all_valid ids p else false

-- 1.0f
abbrev pub default_buildings_max_level_factor : ℕ
default_buildings_max_level_factor = 0x3f800000

module _ (pal : Palette) where
  -- `none`: `getProvinceForID` throws before anything has changed.
  unfoldable pub add_new_state : List ProvinceId → Project → Option (StateId × Project)
  add_new_state ids p =
      if all_valid ids p
      then (let (id, taken) = take_state_id p in
          let moved = move_all id ids taken in
          let c = generate_unique_color pal unknown moved.colors in
          let st : State = record {
            id = id;
            name = default_name id;
            manpower = 0;
            category = [];
            buildings_max_level_factor = default_buildings_max_level_factor;
            impassable = false;
            provinces = ids;
            color = c.0;
          } in
          some (
            id,
            update_state_id_matrix
                (record moved { states = Dict.insert id st moved.states; colors = c.1 }),
          ))
      else none

-- The loop that disconnects each province of a state.
unfoldable pub clear_all : List ProvinceId → Project → Project
clear_all [] p = p
clear_all (id ∷ ids) p = clear_all ids (set_state no_state id p)

-- `none`: a province of the state is not there, and `getProvinceForID` throws.
unfoldable pub remove_state : StateId → Project → Option (Status × Project)
remove_state id p = elim (Dict.lookup id p.states) [
  | none ↦ some (state_does_not_exist, p)
  | some st ↦
      let cleared = clear_all st.provinces p in
      if all_valid st.provinces p
      then some (
        success,
        update_state_id_matrix (record cleared {
          available_state_ids = cleared.available_state_ids ++ id ∷ [];
          states = Dict.erase id cleared.states;
        }),
      )
      else none
]

-- The end of `load`: the ids below the number of states that no state has.
unfoldable pub unused_ids : ℕ → StateId → Dict State → List StateId
unused_ids zero id states = []
unused_ids (suc n) id states =
    let rest = unused_ids n (id + 1) states in if Dict.has id states then rest else id ∷ rest

unfoldable pub track_unused_ids : Project → Project
track_unused_ids p = record p {
  available_state_ids = p.available_state_ids ++ unused_ids (Dict.size p.states - 1) 1 p.states;
}
