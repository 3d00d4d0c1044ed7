-- ===== src/Selection.antt =====
-- mod_dev_tool/gui/src/SelectionManager.cpp: which provinces and states are selected. The callbacks are
-- the caller's: they are called before the selection changes, and may change it themselves, with what
-- else they do, on a world `W`. They do not set other callbacks.
pub mod Steps
pub mod Reading
pub mod Window
pub mod Sets
pub mod Joined
pub mod Registered
mod Tests
use ho_i4_mod_development_to.Base.{
  ℕ, Bool, true, false, Option, none, some, List, [], ◌∷◌, if◌then◌else◌, length,
}
use ho_i4_mod_development_to.Base.Ord.{Ord, nat_ord}
use ho_i4_mod_development_to.Base.OrdSet
use ho_i4_mod_development_to.Status.{Maybe, ok, error}
use ho_i4_mod_development_to.Project.{
  ProvinceId, StateId, invalid_province, no_state, Province, State, Project, is_valid_province_id,
  is_valid_state_id, get_province_for_id, get_state_for_id,
}

pub data Action : Type 0 where
  set add remove clear : Action

-- What the callbacks can change of the manager.
pub record Selected : Type 0 where
  pub selected_provinces : List ProvinceId
  pub selected_states : List StateId

-- The order is that of the UUIDs.
module _ (W : Type 0) (o : Ord ProvinceId) where
  pub record SelectionManager : Type 0 where
    pub selected : Selected
    pub on_province_selected : ProvinceId → Action → Selected → W → Selected × W
    pub on_state_selected : StateId → Action → Selected → W → Selected × W

  unfoldable pub make : SelectionManager
  make = record {
    selected = record { selected_provinces = []; selected_states = [] };
    on_province_selected = λ _ _ s w. (s, w);
    on_state_selected = λ _ _ s w. (s, w);
  }

  abbrev pub is_valid_province : Option Project → ProvinceId → Bool
  is_valid_province none id = false
  is_valid_province (some p) id = is_valid_province_id id p

  abbrev pub is_valid_state : Option Project → StateId → Bool
  is_valid_state none id = false
  is_valid_state (some p) id = is_valid_state_id id p

  -- The selection and the world once the callback has returned.
  abbrev pub tell_province : Bool → ProvinceId → Action → SelectionManager → W → Selected × W
  tell_province skip id a m w =
      if skip then (m.selected, w) else m.on_province_selected id a m.selected w

  abbrev pub tell_state : StateId → Action → SelectionManager → W → Selected × W
  tell_state id a m w = m.on_state_selected id a m.selected w

  -- What follows the callback: a write to the selection that it left.
  abbrev pub then_provinces :
      (List ProvinceId → List ProvinceId) → SelectionManager → Selected × W → SelectionManager × W
  then_provinces f m (s, w) =
      (record m { selected = record s { selected_provinces = f s.selected_provinces } }, w)

  abbrev pub then_states :
      (List StateId → List StateId) → SelectionManager → Selected × W → SelectionManager × W
  then_states f m (s, w) =
      (record m { selected = record s { selected_states = f s.selected_states } }, w)

  -- Each operation is given the project that the Driver has open, and the world.
  unfoldable pub select_province :
      Option Project → ProvinceId → Bool → SelectionManager → W → SelectionManager × W
  select_province current label skip m w =
      if is_valid_province current label
      then then_provinces (λ _. label ∷ []) m (tell_province skip label set m w)
      else (m, w)

  unfoldable pub add_province_selection :
      Option Project → ProvinceId → Bool → SelectionManager → W → SelectionManager × W
  add_province_selection current label skip m w =
      if is_valid_province current label
      then then_provinces (OrdSet.insert ⦃o = o⦄ label) m (tell_province skip label add m w)
      else (m, w)

  unfoldable pub remove_province_selection :
      ProvinceId → Bool → SelectionManager → W → SelectionManager × W
  remove_province_selection label skip m w =
      then_provinces (OrdSet.erase ⦃o = o⦄ label) m (tell_province skip label remove m w)

  unfoldable pub clear_province_selection : Bool → SelectionManager → W → SelectionManager × W
  clear_province_selection skip m w =
      then_provinces (λ _. []) m (tell_province skip invalid_province clear m w)

  unfoldable pub select_state :
      Option Project → StateId → SelectionManager → W → SelectionManager × W
  select_state current id m w =
      if is_valid_state current id
      then then_states (λ _. id ∷ []) m (tell_state id set m w)
      else (m, w)

  unfoldable pub add_state_selection :
      Option Project → StateId → SelectionManager → W → SelectionManager × W
  add_state_selection current id m w =
      if is_valid_state current id
      then then_states (OrdSet.insert ⦃o = nat_ord⦄ id) m (tell_state id add m w)
      else (m, w)

  unfoldable pub remove_state_selection : StateId → SelectionManager → W → SelectionManager × W
  remove_state_selection id m w =
      then_states (OrdSet.erase ⦃o = nat_ord⦄ id) m (tell_state id remove m w)

  -- INVALID_STATE_ID is `-1`.
  unfoldable pub clear_state_selection : SelectionManager → W → SelectionManager × W
  clear_state_selection m w = then_states (λ _. []) m (tell_state no_state clear m w)

  unfoldable pub set_on_select_province_callback :
      (ProvinceId → Action → Selected → W → Selected × W) → SelectionManager → SelectionManager
  set_on_select_province_callback f m = record m { on_province_selected = f }

  unfoldable pub set_on_select_state_callback :
      (StateId → Action → Selected → W → Selected × W) → SelectionManager → SelectionManager
  set_on_select_state_callback f m = record m { on_state_selected = f }

  unfoldable pub get_selected_province_count : SelectionManager → ℕ
  get_selected_province_count m = length m.selected.selected_provinces

  unfoldable pub get_selected_state_count : SelectionManager → ℕ
  get_selected_state_count m = length m.selected.selected_states

  -- `none`: an id is not the project's, and `getProvinceForID` throws.
  unfoldable pub provinces_for : Project → List ProvinceId → Option (List Province)
  provinces_for p [] = some []
  provinces_for p (id ∷ ids) =
      let rest = provinces_for p ids in
      elim (get_province_for_id id p) [
        | none ↦ none
        | some prov ↦ elim rest [ none ↦ none | some provs ↦ some (prov ∷ provs) ]
      ]

  -- `none`: the Maybe that `getStateForID` returns holds no reference.
  unfoldable pub states_for : Project → List StateId → Option (List State)
  states_for p [] = some []
  states_for p (id ∷ ids) =
      let rest = states_for p ids in
      elim (get_state_for_id id p) [
        | error s ↦ none
        | ok st ↦ elim rest [ none ↦ none | some sts ↦ some (st ∷ sts) ]
      ]

  unfoldable pub get_selected_provinces : Option Project → SelectionManager → Option (List Province)
  get_selected_provinces none m = some []
  get_selected_provinces (some p) m = provinces_for p m.selected.selected_provinces

  unfoldable pub get_selected_states : Option Project → SelectionManager → Option (List State)
  get_selected_states none m = some []
  get_selected_states (some p) m = states_for p m.selected.selected_states

  unfoldable pub is_province_selected : ProvinceId → SelectionManager → Bool
  is_province_selected id m = OrdSet.contains ⦃o = o⦄ id m.selected.selected_provinces

  unfoldable pub is_state_selected : StateId → SelectionManager → Bool
  is_state_selected id m = OrdSet.contains ⦃o = nat_ord⦄ id m.selected.selected_states

  unfoldable pub on_project_unloaded : SelectionManager → SelectionManager
  on_project_unloaded m = record m {
    selected = record { selected_provinces = []; selected_states = [] };
  }
