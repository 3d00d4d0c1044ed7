-- ===== src/Project/Merging/Forest.antt =====
-- The forest that merged provinces form: what keeps it one, and the climb to a root, which ends.
use ho_i4_mod_development_to.Base.{
  ℕ, zero, suc, ◌<◌, ◌≡◌, ap, subst, ◌∙◌, sym, ◌≢◌, true, false, none, some, List, [],
  if◌then◌else◌, ◌==◌, ==_ne, ==_iff, arith, Option-cases, Bool-cases, inl, inr,
}
use ho_i4_mod_development_to.Base.Ord.{Ord}
use ho_i4_mod_development_to.Base.OrdSet
use ho_i4_mod_development_to.Base.Dict
use ho_i4_mod_development_to.Base.Dict.{Dict, lookup_of_has}
use ho_i4_mod_development_to.Status.{ok}
use ho_i4_mod_development_to.Project.{ProvinceId, invalid_province, Province, Project}
use ho_i4_mod_development_to.Project.Merging.{get_root_province_parent, id_at}

-- The parent and the children of a province; none if there is no such province.
abbrev pub parent_of : Project → ProvinceId → ProvinceId
parent_of p k = elim (Dict.lookup k p.provinces) [
  | none ↦ invalid_province
  | some prov ↦ prov.parent_id
]

abbrev pub children_of : Project → ProvinceId → List ProvinceId
children_of p k = elim (Dict.lookup k p.provinces) [ none ↦ [] | some prov ↦ prov.children ]

-- Every province with a parent names one of the provinces, and ranks above it, below `d`; a province
-- lists exactly the provinces that name it.
pub record IsForest (o : Ord ProvinceId) (d : ℕ) (p : Project) : Type 0 where
  pub rank : ProvinceId → ℕ
  pub keyed :
      (k : ProvinceId) (prov : Province) → Dict.lookup k p.provinces ≡ some prov → prov.id ≡ k
  pub no_nil : Dict.has invalid_province p.provinces ≡ false
  pub there :
      (k : ProvinceId)
      → parent_of p k ≢ invalid_province
      → Dict.has (parent_of p k) p.provinces ≡ true
  pub climbs : (k : ProvinceId) → parent_of p k ≢ invalid_province → rank (parent_of p k) < rank k
  pub short : (k : ProvinceId) → rank k < d
  pub listed :
      (k c : ProvinceId)
      → Dict.has k p.provinces ≡ true
      → OrdSet.contains ⦃o = o⦄ c (children_of p k) ≡ (parent_of p c == k)
  pub sorted : (k : ProvinceId) → OrdSet.IsSorted ⦃o = o⦄ (children_of p k)

pub has_of_parent :
    (p : Project) (k : ProvinceId)
    → parent_of p k ≢ invalid_province
    → Dict.has k p.provinces ≡ true
has_of_parent p k m = elim (Option-cases (Dict.lookup k p.provinces)) [
  | inl e ↦ absurd (m (ground (arith, e)))
  | inr (prov, e) ↦ ground (arith, e)
]

pub same_iff_eq : (o : Ord ProvinceId) (a b : ProvinceId) → OrdSet.same ⦃o = o⦄ a b ≡ (b == a)
same_iff_eq o a b = elim (Bool-cases (b == a)) [
  | inl t ↦
      let e : b ≡ a = (==_iff b a).0 t in
      subst (λ x. OrdSet.same ⦃o = o⦄ x b ≡ true) e (OrdSet.same_self ⦃o = o⦄ b) ∙ sym t
  | inr t ↦ elim (Bool-cases (OrdSet.same ⦃o = o⦄ a b)) [
    | inl u ↦ absurd (ground (arith, t, OrdSet.same_iff ⦃o = o⦄ a b u))
    | inr u ↦ u ∙ sym t
  ]
]

module _ (o : Ord ProvinceId) (d : ℕ) (p : Project) (f : IsForest o d p) where
  pub id_at_key : (k : ProvinceId) → id_at k p ≡ k
  id_at_key k = elim (Option-cases (Dict.lookup k p.provinces)) [
    | inl e ↦ ground (arith, e)
    | inr (prov, e) ↦ ground (arith, e, f.keyed k prov e)
  ]

  pub key_not_nil :
      (k : ProvinceId) → Dict.has k p.provinces ≡ true → (k == invalid_province) ≡ false
  key_not_nil k h =
      ==_ne k invalid_province
        (λ e. let no = subst (λ x. Dict.has x p.provinces ≡ true) e h in let m = f.no_nil in cc)

  pub parent_ne : (k : ProvinceId) → parent_of p k ≢ invalid_province → (parent_of p k == k) ≡ false
  parent_ne k m =
      let c = f.climbs k m in ==_ne (parent_of p k) k (λ e. omega (arith, c, ap f.rank e))

  -- One step of the climb.
  pub get_root_province_parent_step :
      (n : ℕ) (k : ProvinceId)
      → Dict.has k p.provinces ≡ true
      → get_root_province_parent (suc n) k p ≡ (
          if parent_of p k == invalid_province
          then some (ok k)
          else get_root_province_parent n (parent_of p k) p)
  unfolding get_root_province_parent
  get_root_province_parent_step n k h =
      let (prov, e) = lookup_of_has k p.provinces h in
      let nil = key_not_nil k h in
      elim (Bool-cases (prov.parent_id == invalid_province)) [
        | inl t ↦ ground (arith, e, t, nil)
        | inr t ↦
            let m : parent_of p k ≢ invalid_province = ground (arith, e, t) in
            let self : (prov.parent_id == k) ≡ false = ground (arith, e, parent_ne k m) in
            ground (arith, e, t, nil, self)
      ]

  -- From a province of the forest, enough fuel leads to a province without a parent.
  pub get_root_province_parent_enough :
      (n : ℕ) (k : ProvinceId)
      → Dict.has k p.provinces ≡ true
      → f.rank k < n
      → (r : ProvinceId) × (get_root_province_parent n k p ≡ some (ok r))
        × (Dict.has r p.provinces ≡ true)
        × (parent_of p r ≡ invalid_province)
  get_root_province_parent_enough zero k h b = absurd (omega arith)
  get_root_province_parent_enough (suc n) k h b =
      let s = get_root_province_parent_step n k h in
      elim (Bool-cases (parent_of p k == invalid_province)) [
        | inl t ↦ (k, ground (arith, s, t), h, omega (arith, (==_iff _ _).0 t))
        | inr t ↦
            let m : parent_of p k ≢ invalid_province = ground (arith, t) in
            let c = f.climbs k m in
            let (r, g, u, v) =
              get_root_province_parent_enough n (parent_of p k) (f.there k m)
                (omega (arith, b, c)) in
            (r, ground (arith, s, t, g), u, v)
      ]

  -- More fuel than is needed leads to the same root.
  pub get_root_province_parent_stable :
      (n m : ℕ) (k : ProvinceId)
      → Dict.has k p.provinces ≡ true
      → f.rank k < n
      → f.rank k < m
      → get_root_province_parent n k p ≡ get_root_province_parent m k p
  get_root_province_parent_stable zero m k h b c = absurd (omega arith)
  get_root_province_parent_stable (suc n) zero k h b c = absurd (omega arith)
  get_root_province_parent_stable (suc n) (suc m) k h b c =
      let s = get_root_province_parent_step n k h in
      let t = get_root_province_parent_step m k h in
      elim (Bool-cases (parent_of p k == invalid_province)) [
        | inl u ↦ ground (arith, s, t, u)
        | inr u ↦
            let v : parent_of p k ≢ invalid_province = ground (arith, u) in
            let w = f.climbs k v in
            let i =
              get_root_province_parent_stable n m (parent_of p k) (f.there k v)
                (omega (arith, b, w)) (omega (arith, c, w)) in
            ground (arith, s, t, u, i)
      ]
