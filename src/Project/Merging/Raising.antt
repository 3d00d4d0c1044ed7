-- ===== src/Project/Merging/Raising.antt =====
-- unmergeProvince: the loop that hands the children of a province to a root.
use ho_i4_mod_development_to.Base.{
  ◌≡◌, refl, ap, ◌∙◌, true, ◌&&◌, ◌||◌, List, [], ◌∷◌, elem, if◌then◌else◌, ◌==◌, arith,
}
use ho_i4_mod_development_to.Base.Ord.{Ord}
use ho_i4_mod_development_to.Base.OrdSet
use ho_i4_mod_development_to.Base.Dict
use ho_i4_mod_development_to.Base.Dict.{Dict, lookup-update, lookup_of_has}
use ho_i4_mod_development_to.Project.{ProvinceId, Province, Project}
use ho_i4_mod_development_to.Project.Merging.{id_at, set_parent, set_children, raise_all}
use ho_i4_mod_development_to.Project.Merging.Forest.{parent_of, children_of, same_iff_eq}
use ho_i4_mod_development_to.Project.Merging.Unmerging.{
  children_of-set_parent, parent_of-set_children,
}

-- The provinces that are there, under the ids they have.
abbrev pub IsKeyed : Project → Type 0
IsKeyed p = (k : ProvinceId) → id_at k p ≡ k

module _ (parent key : ProvinceId) (p : Project) where
  pub parent_of-set_parent :
      (k : ProvinceId)
      → parent_of (set_parent parent key p) k
        ≡ (if key == k && Dict.has k p.provinces then parent else parent_of p k)
  unfolding set_parent
  parent_of-set_parent k =
      ground
        (arith, lookup-update key k (λ (a : Province). record a { parent_id = parent }) p.provinces)

  pub has-set_parent :
      (k : ProvinceId) → Dict.has k (set_parent parent key p).provinces ≡ Dict.has k p.provinces
  unfolding set_parent
  has-set_parent k =
      ground
        (arith, lookup-update key k (λ (a : Province). record a { parent_id = parent }) p.provinces)

  pub id_at-set_parent : (k : ProvinceId) → id_at k (set_parent parent key p) ≡ id_at k p
  unfolding set_parent
  id_at-set_parent k =
      ground
        (arith, lookup-update key k (λ (a : Province). record a { parent_id = parent }) p.provinces)

module _ (g : List ProvinceId → List ProvinceId) (key : ProvinceId) (p : Project) where
  pub children_of-set_children_self :
      Dict.has key p.provinces ≡ true
      → children_of (set_children g key p) key ≡ g (children_of p key)
  unfolding set_children
  children_of-set_children_self h = ground (
    arith,
    lookup-update key key (λ (a : Province). record a { children = g a.children }) p.provinces,
  )

  pub has-set_children :
      (k : ProvinceId) → Dict.has k (set_children g key p).provinces ≡ Dict.has k p.provinces
  unfolding set_children
  has-set_children k = ground (
    arith,
    lookup-update key k (λ (a : Province). record a { children = g a.children }) p.provinces,
  )

  pub id_at-set_children : (k : ProvinceId) → id_at k (set_children g key p) ≡ id_at k p
  unfolding set_children
  id_at-set_children k = ground (
    arith,
    lookup-update key k (λ (a : Province). record a { children = g a.children }) p.provinces,
  )

-- What the loop over the children does, where they go to a root.
pub record Raised (o : Ord ProvinceId) (root : ProvinceId) (cs : List ProvinceId) (p q : Project)
    : Type 0 where
  pub has : (k : ProvinceId) → Dict.has k q.provinces ≡ Dict.has k p.provinces
  pub keyed : IsKeyed q
  pub parents :
      (k : ProvinceId)
      → parent_of q k ≡ (if elem k cs && Dict.has k p.provinces then root else parent_of p k)
  pub children :
      (c : ProvinceId)
      → OrdSet.contains ⦃o = o⦄ c (children_of q root)
        ≡ (elem c cs || OrdSet.contains ⦃o = o⦄ c (children_of p root))
  pub sorted :
      OrdSet.IsSorted ⦃o = o⦄ (children_of p root) → OrdSet.IsSorted ⦃o = o⦄ (children_of q root)

pub raise_all-Raised :
    (o : Ord ProvinceId) (root : ProvinceId) (cs : List ProvinceId) (p : Project)
    → IsKeyed p
    → Dict.has root p.provinces ≡ true
    → Raised o root cs p (raise_all o root root cs p)
unfolding raise_all
raise_all-Raised o root [] p k h = record {
  has = λ x. refl;
  keyed = k;
  parents = λ x. refl;
  children = λ c. refl;
  sorted = λ s. s;
}
raise_all-Raised o root (c ∷ cs) p k h =
    let m : Project = set_parent root c p in
    let add : List ProvinceId → List ProvinceId = OrdSet.insert ⦃o = o⦄ (id_at c p) in
    let n : Project = set_children add root m in
    let hm : Dict.has root m.provinces ≡ true = has-set_parent root c p root ∙ h in
    let kn : IsKeyed n = λ x. id_at-set_children add root m x ∙ id_at-set_parent root c p x ∙ k x in
    let hn : Dict.has root n.provinces ≡ true = has-set_children add root m root ∙ hm in
    let r = raise_all-Raised o root cs n kn hn in
    let ch : children_of n root ≡ add (children_of p root) =
      children_of-set_children_self add root m hm ∙ ap add (children_of-set_parent root c root p) in
    record {
      has = λ x. r.has x ∙ has-set_children add root m x ∙ has-set_parent root c p x;
      keyed = r.keyed;
      parents = λ x.
          let pn = parent_of-set_children add root x m ∙ parent_of-set_parent root c p x in
          let hx = has-set_children add root m x ∙ has-set_parent root c p x in
          ground (arith, r.parents x, pn, hx);
      children = λ x.
          let i = OrdSet.contains-insert ⦃o = o⦄ (id_at c p) x (children_of p root) in
          let e : OrdSet.same ⦃o = o⦄ x (id_at c p) ≡ (c == x) =
            ap (λ y. OrdSet.same ⦃o = o⦄ x y) (k c) ∙ same_iff_eq o x c in
          ground (arith, r.children x, ap (λ y. OrdSet.contains ⦃o = o⦄ x y) ch, i, e);
      sorted =
          λ s. r.sorted (rw ch (OrdSet.insert-IsSorted ⦃o = o⦄ (id_at c p) (children_of p root) s));
    }
