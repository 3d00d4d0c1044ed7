-- ===== src/Project/Merging.antt =====
-- mod_dev_tool/project/src/IProject.cpp: provinces that are merged, as a forest. Each province names its
-- parent and the set of its children; the order of a set is that of the UUIDs, a parameter here.
-- The loops that climb to a root are on fuel; `none` is a loop that has not ended by then.
pub mod Forest
pub mod Linking
pub mod Union
pub mod Unmerging
pub mod Raising
pub mod Freeing
pub mod Search
mod Tests
use ho_i4_mod_development_to.Base.{
  ℕ, zero, suc, Bool, true, false, not, ◌||◌, Option, none, some, List, [], ◌∷◌, if◌then◌else◌,
  ◌==◌,
}
use ho_i4_mod_development_to.Base.Ord.{Ord}
use ho_i4_mod_development_to.Base.OrdSet
use ho_i4_mod_development_to.Base.Dict
use ho_i4_mod_development_to.Status.{Status, Maybe, ok, error, success, value_not_found, unexpected}
use ho_i4_mod_development_to.Project.{
  ProvinceId, invalid_province, Province, Project, is_valid_province_id,
}
use ho_i4_mod_development_to.Project.States.{all_valid}

-- The key of the root; its province is what the reference refers to.
unfoldable pub get_root_province_parent : ℕ → ProvinceId → Project → Option (Maybe ProvinceId)
get_root_province_parent zero id p = none
get_root_province_parent (suc n) id p =
    if id == invalid_province then some (error unexpected) else (elim (Dict.lookup id p.provinces) [
      | none ↦ some (error value_not_found)
      | some prov ↦
          let rest = get_root_province_parent n prov.parent_id p in
          if prov.parent_id == invalid_province
          then some (ok id)
          else (if prov.parent_id == id then some (error unexpected) else rest)
    ])

-- The `id` of the province under a key.
abbrev pub id_at : ProvinceId → Project → ProvinceId
id_at key p = elim (Dict.lookup key p.provinces) [ none ↦ key | some prov ↦ prov.id ]

-- Writes through a reference to the province under `key`.
unfoldable pub set_parent : ProvinceId → ProvinceId → Project → Project
set_parent parent key p = record p {
  provinces = Dict.update key (λ q. record q { parent_id = parent }) p.provinces;
}

unfoldable pub set_children : (List ProvinceId → List ProvinceId) → ProvinceId → Project → Project
set_children f key p = record p {
  provinces = Dict.update key (λ q. record q { children = f q.children }) p.provinces;
}

module _ (o : Ord ProvinceId) where
  abbrev pub add_child : ProvinceId → ProvinceId → Project → Project
  add_child child = set_children (OrdSet.insert ⦃o = o⦄ child)

  abbrev pub drop_child : ProvinceId → ProvinceId → Project → Project
  drop_child child = set_children (OrdSet.erase ⦃o = o⦄ child)

  -- The two writes at the end of `mergeProvinces`.
  unfoldable pub link : ProvinceId → ProvinceId → Project → Project
  link root1 root2 p = add_child (id_at root1 p) root2 (set_parent (id_at root2 p) root1 p)

  unfoldable pub merge_provinces : ℕ → ProvinceId → ProvinceId → Project → Option (Status × Project)
  merge_provinces fuel id1 id2 p =
      if id1 == id2
      then some (unexpected, p)
      else if not (is_valid_province_id id1 p) || not (is_valid_province_id id2 p)
      then some (value_not_found, p)
      else (elim (get_root_province_parent fuel id1 p) [
        | none ↦ none
        | some (error s) ↦ some (s, p)
        | some (ok root1) ↦ elim (get_root_province_parent fuel id2 p) [
          | none ↦ none
          | some (error s) ↦ some (s, p)
          | some (ok root2) ↦
              if id_at root1 p == id_at root2 p
              then some (unexpected, p)
              else some (success, link root1 root2 p)
        ]
      ])

  -- The loop that hands the children of a root to the first of them.
  unfoldable pub adopt_all : ProvinceId → List ProvinceId → Project → Project
  adopt_all new_parent [] p = p
  adopt_all new_parent (c ∷ cs) p = adopt_all new_parent cs (
      if id_at c p == new_parent
      then set_parent invalid_province c p
      else add_child (id_at c p) new_parent (set_parent new_parent c p))

  -- A province without a parent. `none`: `getProvinceForID` throws.
  unfoldable pub unmerge_root : ProvinceId → List ProvinceId → Project → Option (Status × Project)
  unmerge_root id [] p = some (success, p)
  unmerge_root id (c ∷ cs) p =
      if not (all_valid (c ∷ cs) p)
      then some (value_not_found, p)
      else if is_valid_province_id (id_at c p) p
      then some (success, set_children (λ _. []) id (adopt_all (id_at c p) (c ∷ cs) p))
      else none

  -- The loop that hands the children of a province to its parent: they name the parent, and stand
  -- among the children of the root.
  unfoldable pub raise_all : ProvinceId → ProvinceId → List ProvinceId → Project → Project
  raise_all parent root [] p = p
  raise_all parent root (c ∷ cs) p =
      raise_all parent root cs (add_child (id_at c p) root (set_parent parent c p))

  unfoldable pub unmerge_province : ℕ → ProvinceId → Project → Option (Status × Project)
  unmerge_province fuel id p = elim (Dict.lookup id p.provinces) [
    | none ↦ some (value_not_found, p)
    | some prov ↦
        if prov.parent_id == invalid_province
        then unmerge_root id prov.children p
        else if not (is_valid_province_id prov.parent_id p)
        then some (value_not_found, p)
        else (elim (get_root_province_parent fuel prov.parent_id p) [
          | none ↦ none
          | some (error s) ↦ some (s, p)
          | some (ok root) ↦
              if all_valid prov.children p
              then some (
                success,
                set_children (λ _. []) id
                    (set_parent invalid_province id
                      (raise_all prov.parent_id root prov.children (drop_child id root p))),
              )
              else some (value_not_found, p)
        ])
  ]
