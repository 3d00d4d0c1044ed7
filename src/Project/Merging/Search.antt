-- ===== src/Project/Merging/Search.antt =====
-- getMergedProvinces of mod_dev_tool/project/src/IProject.cpp: the provinces that are merged with one,
-- breadth first. The source reads the front of the queue through a reference after it is popped, where
-- the model has its value; the warnings are not modelled.
pub mod Ends
pub mod Rounds
pub mod Class
use ho_i4_mod_development_to.Base.{
  ℕ, zero, suc, ◌+◌, Option, none, some, List, [], ◌∷◌, ◌++◌, length, if◌then◌else◌, ◌==◌,
}
use ho_i4_mod_development_to.Base.Ord.{Ord}
use ho_i4_mod_development_to.Base.OrdSet
use ho_i4_mod_development_to.Base.Dict
use ho_i4_mod_development_to.Base.Dict.{Dict}
use ho_i4_mod_development_to.Project.{ProvinceId, invalid_province, Province, Project}

module _ (o : Ord ProvinceId) (p : Project) where
  unfoldable pub push_parent : List ProvinceId → ProvinceId → List ProvinceId → List ProvinceId
  push_parent connected parent queue =
      if OrdSet.contains ⦃o = o⦄ parent connected
      then queue
      else (if parent == invalid_province then queue else queue ++ (parent ∷ []))

  -- `none`: a child is no province, and `getProvinceForID` throws.
  unfoldable pub push_children :
      List ProvinceId → List ProvinceId → List ProvinceId → Option (List ProvinceId)
  push_children connected [] queue = some queue
  push_children connected (c ∷ cs) queue =
      let rest = push_children connected cs queue in
      let pushed = push_children connected cs (queue ++ (c ∷ [])) in
      if OrdSet.contains ⦃o = o⦄ c connected
      then rest
      else (elim (Dict.lookup c p.provinces) [ none ↦ none | some child ↦ pushed ])

  -- The body of the loop: the queue and the connected provinces after it.
  unfoldable pub search_round :
      ProvinceId → List ProvinceId → List ProvinceId → Option (List ProvinceId × List ProvinceId)
  search_round id queue connected = elim (Dict.lookup id p.provinces) [
    | none ↦ some (queue, connected)
    | some prov ↦
        let reached = OrdSet.insert ⦃o = o⦄ id connected in
        if OrdSet.contains ⦃o = o⦄ id connected
        then some (queue, connected)
        else (elim (push_children reached prov.children
            (push_parent reached prov.parent_id queue)) [
              | none ↦ none
              | some next ↦ some (next, reached)
            ])
  ]

  -- `none`: the rounds are used up; `some none`: an exception, which ends the program.
  unfoldable pub search_merged :
      ℕ → List ProvinceId → List ProvinceId → Option (Option (List ProvinceId))
  search_merged zero queue connected = none
  search_merged (suc n) [] connected = some (some connected)
  search_merged (suc n) (id ∷ queue) connected = elim (search_round id queue connected) [
    | none ↦ some none
    | some (next, reached) ↦ search_merged n next reached
  ]

  -- What is still to be pushed: a parent and the children of each province that is not connected yet.
  unfoldable pub weight : List ProvinceId → Dict Province → ℕ
  weight connected [] = 0
  weight connected ((k, prov) ∷ m) =
      (if OrdSet.contains ⦃o = o⦄ k connected then 0 else suc (length prov.children))
      + weight connected m

  -- Rounds that are enough.
  abbrev pub rounds : ℕ
  rounds = weight [] p.provinces + 2

  unfoldable pub get_merged_provinces : ℕ → ProvinceId → Option (Option (List ProvinceId))
  get_merged_provinces n id = search_merged n (id ∷ []) []
