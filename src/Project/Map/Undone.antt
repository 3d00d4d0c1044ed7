-- ===== src/Project/Map/Undone.antt =====
-- mod_dev_tool/project/src/MapProject.cpp, validateData: the repair of a province whose state does not
-- list it.
use ho_i4_mod_development_to.Base.{
  ◌≡◌, refl, false, none, some, List, [], ◌∷◌, ◌++◌, if◌then◌else◌, elem, elem-append, erase_first,
  arith, inl, inr, Bool-cases,
}
use ho_i4_mod_development_to.Base.Dict
use ho_i4_mod_development_to.Base.Dict.{Dict, lookup-update, lookup_of_has}
use ho_i4_mod_development_to.Status.{province_not_in_state}
use ho_i4_mod_development_to.Project.{
  ProvinceId, StateId, Province, State, Project, is_valid_state_id,
}
use ho_i4_mod_development_to.Project.States.{add_province_to_state}
use ho_i4_mod_development_to.Project.Map.{first_state_with, erase_found, fix_province}

-- Appending a province to a list that lacks it, and taking the first one away.
erase_first-append :
    (id : ProvinceId) (l : List ProvinceId) → elem id l ≡ false → erase_first id (l ++ id ∷ []) ≡ l
erase_first-append id [] h = ground arith
erase_first-append id (x ∷ l) h = ground (arith, erase_first-append id l)

module _ (id : ProvinceId) (s : StateId) where
  abbrev push : State → State
  push st = record st { provinces = st.provinces ++ id ∷ [] }

  first_state_with-push :
      (states : Dict State)
      → first_state_with id states ≡ none
      → first_state_with id (Dict.update s push states)
        ≡ (if Dict.has s states then some s else none)
  unfolding first_state_with
  first_state_with-push [] h = refl
  first_state_with-push ((k, st) ∷ states) h =
      ground (arith, first_state_with-push states, elem-append id st.provinces (id ∷ []), h)

  abbrev pull : State → State
  pull st = record st { provinces = erase_first id st.provinces }

  pull-push :
      (states : Dict State)
      → first_state_with id states ≡ none
      → Dict.update s pull (Dict.update s push states) ≡ states
  unfolding first_state_with
  pull-push [] h = refl
  pull-push ((k, st) ∷ states) h =
      ground (arith, pull-push states, erase_first-append id st.provinces, h)

-- The repair of a province whose state does not list it changes nothing where no state lists it: the
-- province is put into its state, and the search that follows takes it out of that state again.
pub fix_province_undone :
    (key : ProvinceId) (prov : Province) (p : Project)
    → first_state_with prov.id p.states ≡ none
    → fix_province province_not_in_state key prov p ≡ p
unfolding fix_province erase_found add_province_to_state is_valid_state_id
fix_province_undone key prov p h = elim (Bool-cases (Dict.has prov.state p.states)) [
  | inl t ↦
      let f = first_state_with-push prov.id prov.state p.states h in
      let u = pull-push prov.id prov.state p.states h in ground (arith, t, f, u)
  | inr t ↦ ground (arith, t, h)
]
