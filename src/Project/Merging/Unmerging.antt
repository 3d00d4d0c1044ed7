-- ===== src/Project/Merging/Unmerging.antt =====
-- unmergeProvince, for a province whose parent is not a root.
use ho_i4_mod_development_to.Base.{
  ℕ, ◌≤◌, ◌≡◌, refl, ap, subst, ◌∙◌, sym, ◌≢◌, true, false, some, List, [], ◌∷◌, elem, ◌==◌, ==_ne,
  ==_iff, ==_self, arith,
}
use ho_i4_mod_development_to.Base.Ord.{Ord}
use ho_i4_mod_development_to.Base.OrdSet
use ho_i4_mod_development_to.Base.Dict
use ho_i4_mod_development_to.Base.Dict.{Dict, lookup-update, lookup_of_has}
use ho_i4_mod_development_to.Status.{ok, success}
use ho_i4_mod_development_to.Project.{
  ProvinceId, invalid_province, Province, Project, is_valid_province_id,
}
use ho_i4_mod_development_to.Project.States.{all_valid}
use ho_i4_mod_development_to.Project.Merging.{
  get_root_province_parent, set_parent, set_children, raise_all, unmerge_province,
}
use ho_i4_mod_development_to.Project.Merging.Forest.{
  parent_of, children_of, IsForest, get_root_province_parent_enough, parent_ne, key_not_nil,
  same_iff_eq, has_of_parent,
}

pub children_of-set_parent :
    (parent key k : ProvinceId) (p : Project)
    → children_of (set_parent parent key p) k ≡ children_of p k
unfolding set_parent
children_of-set_parent parent key k p =
    ground
      (arith, lookup-update key k (λ (a : Province). record a { parent_id = parent }) p.provinces)

pub children_of-set_children :
    (g : List ProvinceId → List ProvinceId) (key k : ProvinceId) (p : Project)
    → (key == k) ≡ false
    → children_of (set_children g key p) k ≡ children_of p k
unfolding set_children
children_of-set_children g key k p n = ground (
  arith,
  lookup-update key k (λ (a : Province). record a { children = g a.children }) p.provinces,
)

pub parent_of-set_children :
    (g : List ProvinceId → List ProvinceId) (key k : ProvinceId) (p : Project)
    → parent_of (set_children g key p) k ≡ parent_of p k
unfolding set_children
parent_of-set_children g key k p = ground (
  arith,
  lookup-update key k (λ (a : Province). record a { children = g a.children }) p.provinces,
)

parent_of-unset :
    (key : ProvinceId) (p : Project)
    → parent_of (set_parent invalid_province key p) key ≡ invalid_province
unfolding set_parent
parent_of-unset key p = ground (
  arith,
  lookup-update key key (λ (a : Province). record a { parent_id = invalid_province }) p.provinces,
)

pub children_of-raise_all :
    (o : Ord ProvinceId) (parent root k : ProvinceId) (cs : List ProvinceId) (p : Project)
    → (root == k) ≡ false
    → children_of (raise_all o parent root cs p) k ≡ children_of p k
unfolding raise_all
children_of-raise_all o parent root k [] p n = refl
children_of-raise_all o parent root k (c ∷ cs) p n =
    children_of-raise_all o parent root k cs _ n
    ∙ children_of-set_children _ root k (set_parent parent c p) n
    ∙ children_of-set_parent parent c k p

module _ (o : Ord ProvinceId) (d : ℕ) (p : Project) (f : IsForest o d p) where
  pub contains_of_elem :
      (c : ProvinceId) (cs : List ProvinceId) → OrdSet.contains ⦃o = o⦄ c cs ≡ elem c cs
  contains_of_elem c [] = refl
  contains_of_elem c (x ∷ cs) = ground (arith, same_iff_eq o c x, contains_of_elem c cs)

  listed_valid :
      (k : ProvinceId) (cs : List ProvinceId)
      → k ≢ invalid_province
      → ((c : ProvinceId) → elem c cs ≡ true → parent_of p c ≡ k)
      → all_valid cs p ≡ true
  unfolding all_valid is_valid_province_id
  listed_valid k [] n h = refl
  listed_valid k (c ∷ cs) n h =
      let e : parent_of p c ≡ k = h c (ground arith) in
      let v : Dict.has c p.provinces ≡ true = has_of_parent p c (λ z. n (sym e ∙ z)) in
      ground (arith, v, listed_valid k cs n (λ x m. h x (ground (arith, m))))

  -- What a province of the forest lists are provinces.
  pub children_valid :
      (k : ProvinceId) → Dict.has k p.provinces ≡ true → all_valid (children_of p k) p ≡ true
  children_valid k h =
      let z = key_not_nil o d p f k h in
      listed_valid k (children_of p k) (ground (arith, z)) (λ c m.
        let l = f.listed k c h in
        (==_iff (parent_of p c) k).0 (ground (arith, l, contains_of_elem c (children_of p k), m)))

pub children_of-cleared :
    (key : ProvinceId) (p : Project) → children_of (set_children (λ _. []) key p) key ≡ []
unfolding set_children
children_of-cleared key p =
    ground (arith, lookup-update key key (λ (a : Province). record a { children = [] }) p.provinces)

-- The way through the function for a province with a parent.
pub unmerge_child :
    (o : Ord ProvinceId) (fuel : ℕ) (k r : ProvinceId) (prov : Province) (p : Project)
    → Dict.lookup k p.provinces ≡ some prov
    → (prov.parent_id == invalid_province) ≡ false
    → Dict.has prov.parent_id p.provinces ≡ true
    → get_root_province_parent fuel prov.parent_id p ≡ some (ok r)
    → all_valid prov.children p ≡ true
    → unmerge_province o fuel k p
      ≡ some (
        success,
        set_children
            (λ _. [])
            k
            (set_parent invalid_province k (
              raise_all o prov.parent_id r prov.children
                (set_children (OrdSet.erase ⦃o = o⦄ k) r p))),
      )
unfolding unmerge_province is_valid_province_id
unmerge_child o fuel k r prov p e n h g v = ground (arith, e, n, h, g, v)

-- In a forest, taking out a province whose parent has a parent succeeds, and leaves the forest broken:
-- the province has no parent and no children any more, but its old parent still lists it.
pub unmerge_province_stale :
    (o : Ord ProvinceId) (d fuel : ℕ) (k : ProvinceId) (p : Project)
    → IsForest o d p
    → d ≤ fuel
    → parent_of p k ≢ invalid_province
    → parent_of p (parent_of p k) ≢ invalid_province
    → (q : Project) × (unmerge_province o fuel k p ≡ some (success, q))
      × (parent_of q k ≡ invalid_province)
      × (children_of q k ≡ [])
      × (OrdSet.contains ⦃o = o⦄ k (children_of q (parent_of p k)) ≡ true)
unmerge_province_stale o d fuel k p f b m n =
    let (prov, e) = lookup_of_has k p.provinces (has_of_parent p k m) in
    let j : ProvinceId = prov.parent_id in
    let cs = prov.children in
    let ej : parent_of p k ≡ j = ground (arith, e) in
    let ec : children_of p k ≡ cs = ground (arith, e) in
    let hj : Dict.has j p.provinces ≡ true =
      subst (λ x. Dict.has x p.provinces ≡ true) ej (f.there k m) in
    let nj : parent_of p j ≢ invalid_province = λ x. n (ap (λ y. parent_of p y) ej ∙ x) in
    let (r, g, u, v) =
      get_root_province_parent_enough o d p f fuel j hj (omega (arith, f.short j, b)) in
    let rj : (r == j) ≡ false = ==_ne r j (λ x. nj (ap (λ y. parent_of p y) (sym x) ∙ v)) in
    let kj : (k == j) ≡ false = ground (arith, parent_ne o d p f k m, ej) in
    let nil : (j == invalid_province) ≡ false = ==_ne j invalid_province (λ x. m (ej ∙ x)) in
    let cv : all_valid cs p ≡ true =
      subst (λ x. all_valid x p ≡ true) ec (children_valid o d p f k (has_of_parent p k m)) in
    let dropped : Project = set_children (OrdSet.erase ⦃o = o⦄ k) r p in
    let raised : Project = raise_all o j r cs dropped in
    let freed : Project = set_parent invalid_province k raised in
    let stays : children_of (set_children (λ _. []) k freed) j ≡ children_of p j =
      children_of-set_children (λ _. []) k j freed kj
      ∙ children_of-set_parent invalid_province k j raised
      ∙ children_of-raise_all o j r j cs dropped rj
      ∙ children_of-set_children _ r j p rj in
    (
      set_children (λ _. []) k freed,
      unmerge_child o fuel k r prov p e nil hj g cv,
      parent_of-set_children (λ _. []) k k freed ∙ parent_of-unset k raised,
      children_of-cleared k freed,
      ap (λ x. OrdSet.contains ⦃o = o⦄ k (children_of (set_children (λ _. []) k freed) x)) ej
          ∙ ap (λ x. OrdSet.contains ⦃o = o⦄ k x) stays
          ∙ f.listed j k hj
          ∙ ap (λ x. x == j) ej
          ∙ ==_self j,
    )
