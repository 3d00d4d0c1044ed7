-- ===== src/Project/Merging/Tests.antt =====
-- The theorems on merged provinces at a chain of three provinces and a fourth beside it.
use ho_i4_mod_development_to.Base.{
  ◌≡◌, refl, true, false, some, List, [], ◌∷◌, if◌then◌else◌, ◌==◌, arith,
}
use ho_i4_mod_development_to.Base.Ord.{nat_ord}
use ho_i4_mod_development_to.Base.OrdSet
use ho_i4_mod_development_to.Base.Dict
use ho_i4_mod_development_to.Colors.{land}
use ho_i4_mod_development_to.Status.{ok, success}
use ho_i4_mod_development_to.Project.{ProvinceId, no_state, invalid_province, Province, Project}
use ho_i4_mod_development_to.Project.Merging.{
  get_root_province_parent, merge_provinces, unmerge_province,
}
use ho_i4_mod_development_to.Project.Merging.Forest.{
  parent_of, children_of, IsForest, get_root_province_parent_enough,
}
use ho_i4_mod_development_to.Project.Merging.Union.{Merged, merge_provinces_lem}
use ho_i4_mod_development_to.Project.Merging.Freeing.{unmerge_province_lem}
use ho_i4_mod_development_to.Project.Merging.Unmerging.{unmerge_province_stale}

abbrev prov : ProvinceId → ProvinceId → List ProvinceId → Province
prov id parent children = record {
  id = id;
  unique_color = record { r = id; g = 0; b = 0 };
  province_type = land;
  coastal = false;
  terrain = [];
  continent = [];
  state = no_state;
  bounding_box = record { left = 0; bottom = 0; right = 0; top = 0 };
  adjacent_provinces = [];
  parent_id = parent;
  children = children;
}

abbrev chain : Project
chain = record {
  provinces =
      (1, prov 1 0 (2 ∷ [])) ∷ (2, prov 2 1 (3 ∷ [])) ∷ (3, prov 3 2 []) ∷ (4, prov 4 0 []) ∷ [];
  states = [];
  available_state_ids = [];
  province_matrix = [];
  state_id_matrix = [];
  colors = record { land_ptr = 0; sea_ptr = 0; lake_ptr = 0; unknown_ptr = 0 };
}

chain-IsForest : IsForest nat_ord 3 chain
chain-IsForest = record {
  rank = λ k. if k == 2 then 1 else (if k == 3 then 2 else 0);
  keyed = λ k q e. ground arith;
  no_nil = refl;
  there = λ k m. ground arith;
  climbs = λ k m. ground arith;
  short = λ k. ground arith;
  listed = λ k c h. ground arith;
  sorted = λ k. ground arith;
}

merge_provinces_example :
    (r1 r2 : ProvinceId) × (get_root_province_parent 3 3 chain ≡ some (ok r1))
    × (get_root_province_parent 3 4 chain ≡ some (ok r2))
    × Merged nat_ord 3 3 chain (merge_provinces nat_ord 3 3 4 chain) r1 r2
merge_provinces_example =
    merge_provinces_lem nat_ord 3 3 3 4 chain chain-IsForest (omega arith) (λ e. omega (arith, e))
      refl refl

unmerge_province_stale_example :
    (q : Project) × (unmerge_province nat_ord 3 3 chain ≡ some (success, q))
    × (parent_of q 3 ≡ invalid_province)
    × (children_of q 3 ≡ [])
    × (OrdSet.contains ⦃o = nat_ord⦄ 3 (children_of q 2) ≡ true)
unmerge_province_stale_example =
    unmerge_province_stale nat_ord 3 3 3 chain chain-IsForest (omega arith) (λ e. omega (arith, e))
      (λ e. omega (arith, e))

get_root_province_parent_enough_example :
    (r : ProvinceId) × (get_root_province_parent 3 3 chain ≡ some (ok r))
    × (Dict.has r chain.provinces ≡ true)
    × (parent_of chain r ≡ invalid_province)
unfolding chain-IsForest
get_root_province_parent_enough_example =
    get_root_province_parent_enough nat_ord 3 chain chain-IsForest 3 3 refl (omega arith)

-- The second of the chain goes, and the third is a child of the first then.
unmerge_province_example :
    (q : Project) × (unmerge_province nat_ord 3 2 chain ≡ some (success, q))
    × IsForest nat_ord 3 q
    × (children_of q 2 ≡ [])
    × ((x : ProvinceId)
        → parent_of q x ≡ (
            if 2 == x
            then invalid_province
            else (if parent_of chain x == 2 then 1 else parent_of chain x)))
unmerge_province_example =
    unmerge_province_lem nat_ord 3 3 2 chain chain-IsForest (omega arith) (λ e. omega (arith, e))
      refl
