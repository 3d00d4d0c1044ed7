-- ===== src/Project/Merging/Linking.antt =====
-- mergeProvinces: the tree of one province becomes a child of the root of the other.
use ho_i4_mod_development_to.Base.{
  ℕ, zero, suc, ◌+◌, ◌<◌, ◌≡◌, ap, subst, ◌∙◌, sym, ◌≢◌, Bool, true, false, Option, none, some,
  if◌then◌else◌, ◌==◌, ==_ne, ==_iff, ==_self, arith, Option-cases, Bool-cases, inl, inr,
}
use ho_i4_mod_development_to.Base.Ord.{Ord}
use ho_i4_mod_development_to.Base.OrdSet
use ho_i4_mod_development_to.Base.Dict
use ho_i4_mod_development_to.Base.Dict.{Dict, lookup-update, lookup_of_has}
use ho_i4_mod_development_to.Status.{Maybe, ok}
use ho_i4_mod_development_to.Project.{ProvinceId, invalid_province, Province, Project}
use ho_i4_mod_development_to.Project.Merging.{
  get_root_province_parent, id_at, set_parent, set_children, link,
}
use ho_i4_mod_development_to.Project.Merging.Forest.{
  id_at_key, has_of_parent, same_iff_eq, parent_of, children_of, IsForest, key_not_nil,
  get_root_province_parent_step, get_root_province_parent_stable,
}

-- The root after `r1` was put under `r2`.
abbrev pub redirect :
    ProvinceId → ProvinceId → Option (Maybe ProvinceId) → Option (Maybe ProvinceId)
redirect r1 r2 (some (ok r)) = if r == r1 then some (ok r2) else some (ok r)
redirect r1 r2 other = other

module _ (o : Ord ProvinceId) (d : ℕ) (p : Project) (f : IsForest o d p) (r1 r2 : ProvinceId)
    (h1 : Dict.has r1 p.provinces ≡ true) (h2 : Dict.has r2 p.provinces ≡ true)
    (n1 : parent_of p r1 ≡ invalid_province) (n2 : parent_of p r2 ≡ invalid_province)
    (ne : r1 ≢ r2) where
  abbrev q : Project
  q = link o r1 r2 p

  lookup-link :
      (k : ProvinceId)
      → Dict.lookup k q.provinces ≡ elim (Dict.lookup k p.provinces) [
        | none ↦ none
        | some prov ↦ some (
            if r2 == k
            then record prov { children = OrdSet.insert ⦃o = o⦄ r1 prov.children }
            else (if r1 == k then record prov { parent_id = r2 } else prov))
      ]
  unfolding link set_parent set_children
  lookup-link k =
      let give : Province → Province = λ a. record a { parent_id = id_at r2 p } in
      let take : Province → Province =
        λ a. record a { children = OrdSet.insert ⦃o = o⦄ (id_at r1 p) a.children } in
      let u = lookup-update r2 k take (Dict.update r1 give p.provinces) in
      let v = lookup-update r1 k give p.provinces in
      let i = id_at_key o d p f r1 in
      let j = id_at_key o d p f r2 in
      let n = ==_ne r1 r2 ne in
      elim (Option-cases (Dict.lookup k p.provinces)) [
        | inl e ↦ ground (arith, u, v, e)
        | inr (prov, e) ↦ elim (Bool-cases (r2 == k)) [
          | inl t ↦ ground (arith, u, v, e, t, i, n)
          | inr t ↦ ground (arith, u, v, e, t, j)
        ]
      ]

  ne_missing :
      (r k : ProvinceId)
      → Dict.has r p.provinces ≡ true
      → Dict.lookup k p.provinces ≡ none
      → (r == k) ≡ false
  ne_missing r k h e =
      ==_ne r k
        (λ g. let t = subst (λ x. Dict.has x p.provinces ≡ true) g h in ground (arith, t, e))

  parent_of-link : (k : ProvinceId) → parent_of q k ≡ (if r1 == k then r2 else parent_of p k)
  parent_of-link k = elim (Option-cases (Dict.lookup k p.provinces)) [
    | inl e ↦ ground (arith, lookup-link k, e, ne_missing r1 k h1 e)
    | inr (prov, e) ↦ ground (arith, lookup-link k, e, ==_ne r1 r2 ne)
  ]

  children_of-link :
      (k : ProvinceId)
      → children_of q k
        ≡ (if r2 == k then OrdSet.insert ⦃o = o⦄ r1 (children_of p k) else children_of p k)
  children_of-link k = elim (Option-cases (Dict.lookup k p.provinces)) [
    | inl e ↦ ground (arith, lookup-link k, e, ne_missing r2 k h2 e)
    | inr (prov, e) ↦ ground (arith, lookup-link k, e)
  ]

  has-link : (k : ProvinceId) → Dict.has k q.provinces ≡ Dict.has k p.provinces
  has-link k = elim (Option-cases (Dict.lookup k p.provinces)) [
    | inl e ↦ ground (arith, lookup-link k, e)
    | inr (prov, e) ↦ ground (arith, lookup-link k, e)
  ]

  -- Whether a province stands in the tree of `r1`.
  abbrev under : ProvinceId → Bool
  under k = elim (get_root_province_parent d k p) [ some (ok r) ↦ r == r1 | _ ↦ false ]

  -- A province has the root of its parent.
  root_of_parent :
      (k : ProvinceId)
      → parent_of p k ≢ invalid_province
      → get_root_province_parent d k p ≡ get_root_province_parent d (parent_of p k) p
  root_of_parent k m =
      let h = has_of_parent p k m in
      let s = get_root_province_parent_step o d p f d k h in
      let more : f.rank k < suc d = omega (arith, f.short k) in
      let t = get_root_province_parent_stable o d p f d (suc d) k h (f.short k) more in
      let u : (parent_of p k == invalid_province) ≡ false = ==_ne _ _ m in t ∙ ground (arith, s, u)

  root_of_root :
      (r : ProvinceId)
      → Dict.has r p.provinces ≡ true
      → parent_of p r ≡ invalid_province
      → get_root_province_parent d r p ≡ some (ok r)
  root_of_root r h n =
      let s = get_root_province_parent_step o d p f d r h in
      let more : f.rank r < suc d = omega (arith, f.short r) in
      let t = get_root_province_parent_stable o d p f d (suc d) r h (f.short r) more in
      t ∙ ground (arith, s, n)

  abbrev rank : ProvinceId → ℕ
  rank k = if under k then f.rank k + d else f.rank k

  climbs : (k : ProvinceId) → parent_of q k ≢ invalid_province → rank (parent_of q k) < rank k
  climbs k m = elim (Bool-cases (r1 == k)) [
    | inl t ↦
        let e : r1 ≡ k = (==_iff r1 k).0 t in
        let g : parent_of q k ≡ r2 = ground (arith, parent_of-link k, t) in
        let u1 : under k ≡ true =
          subst (λ x. under x ≡ true) e (ground (arith, root_of_root r1 h1 n1, ==_self r1)) in
        let u2 : under r2 ≡ false =
          ground (arith, root_of_root r2 h2 n2, ==_ne r2 r1 (λ x. ne (sym x))) in
        let u3 : under (parent_of q k) ≡ false = subst (λ x. under x ≡ false) (sym g) u2 in
        let s = f.short (parent_of q k) in ground (arith, u1, u3, s)
    | inr t ↦
        let g : parent_of q k ≡ parent_of p k = ground (arith, parent_of-link k, t) in
        let m' : parent_of p k ≢ invalid_province = λ e. m (g ∙ e) in
        subst (λ x. rank x < rank k) (sym g) (ground (arith, root_of_parent k m', f.climbs k m'))
  ]

  keyed : (k : ProvinceId) (prov : Province) → Dict.lookup k q.provinces ≡ some prov → prov.id ≡ k
  keyed k prov e = elim (Option-cases (Dict.lookup k p.provinces)) [
    | inl n ↦ absurd (ground (arith, lookup-link k, n, e))
    | inr (old, n) ↦ ground (arith, lookup-link k, n, e, f.keyed k old n)
  ]

  there :
      (k : ProvinceId)
      → parent_of q k ≢ invalid_province
      → Dict.has (parent_of q k) q.provinces ≡ true
  there k m = elim (Bool-cases (r1 == k)) [
    | inl t ↦
        let g : parent_of q k ≡ r2 = ground (arith, parent_of-link k, t) in
        subst (λ x. Dict.has x q.provinces ≡ true) (sym g) (has-link r2 ∙ h2)
    | inr t ↦
        let g : parent_of q k ≡ parent_of p k = ground (arith, parent_of-link k, t) in
        subst (λ x. Dict.has x q.provinces ≡ true) (sym g)
          (has-link (parent_of p k) ∙ f.there k (λ e. m (g ∙ e)))
  ]

  listed :
      (k c : ProvinceId)
      → Dict.has k q.provinces ≡ true
      → OrdSet.contains ⦃o = o⦄ c (children_of q k) ≡ (parent_of q c == k)
  listed k c h =
      let hk : Dict.has k p.provinces ≡ true = sym (has-link k) ∙ h in
      let l = f.listed k c hk in
      let i = OrdSet.contains-insert ⦃o = o⦄ r1 c (children_of p k) in
      let z : (invalid_province == k) ≡ false = ground (arith, key_not_nil o d p f k hk) in
      elim (Bool-cases (r1 == c)) [
        | inl t ↦
            let n : parent_of p c ≡ invalid_province =
              subst (λ x. parent_of p x ≡ invalid_province) ((==_iff r1 c).0 t) n1 in
            let l' : OrdSet.contains ⦃o = o⦄ c (children_of p k) ≡ false =
              l ∙ ap (λ x. x == k) n ∙ z in
            ground (arith, children_of-link k, parent_of-link c, l', i, same_iff_eq o c r1, t)
        | inr t ↦ ground (arith, children_of-link k, parent_of-link c, l, i, same_iff_eq o c r1, t)
      ]

  -- The tree of `r1` stands one level deeper than the root of `r2`.
  pub link-IsForest : IsForest o (d + d) q
  link-IsForest = record {
    rank = rank;
    keyed = keyed;
    no_nil = has-link invalid_province ∙ f.no_nil;
    there = there;
    climbs = climbs;
    short = λ k. ground (arith, f.short k);
    listed = listed;
    sorted = λ k. elim (Bool-cases (r2 == k)) [
      | inl t ↦
          rw (children_of-link k, t)
            (OrdSet.insert-IsSorted ⦃o = o⦄ r1 (children_of p k) (f.sorted k))
      | inr t ↦ rw (children_of-link k, t) (f.sorted k)
    ];
  }

  -- Each province of the tree of `r1` has the root `r2`, and each other province keeps its root.
  pub root-link :
      (n : ℕ) (k : ProvinceId)
      → Dict.has k p.provinces ≡ true
      → f.rank k < n
      → get_root_province_parent (suc n) k q ≡ redirect r1 r2 (get_root_province_parent n k p)
  root-link zero k h b = absurd (omega arith)
  root-link (suc n) k h b =
      let b2 : IsForest o (d + d) q = link-IsForest in
      let s = get_root_province_parent_step o (d + d) q b2 (suc n) k (has-link k ∙ h) in
      let t = get_root_province_parent_step o d p f n k h in
      elim (Bool-cases (r1 == k)) [
        | inl u ↦
            let s2 = get_root_province_parent_step o (d + d) q b2 n r2 (has-link r2 ∙ h2) in
            let gk : parent_of q k ≡ r2 = ground (arith, parent_of-link k, u) in
            let g2 : parent_of q r2 ≡ invalid_province =
              ground (arith, parent_of-link r2, n2, ==_ne r1 r2 ne) in
            let up : get_root_province_parent (suc n) (parent_of q k) q ≡ some (ok r2) =
              ap (λ x. get_root_province_parent (suc n) x q) gk ∙ ground (arith, s2, g2) in
            let nk : parent_of p k ≡ invalid_province =
              subst (λ x. parent_of p x ≡ invalid_province) ((==_iff r1 k).0 u) n1 in
            let z : (r2 == invalid_province) ≡ false = key_not_nil o d p f r2 h2 in
            ground (arith, s, t, gk, up, nk, z, u)
        | inr u ↦ elim (Bool-cases (parent_of p k == invalid_province)) [
          | inl v ↦ ground (arith, s, t, u, v, parent_of-link k)
          | inr v ↦
              let m : parent_of p k ≢ invalid_province = ground (arith, v) in
              let i = root-link n (parent_of p k) (f.there k m) (omega (arith, f.climbs k m, b)) in
              let g : parent_of q k ≡ parent_of p k = ground (arith, parent_of-link k, u) in
              let up = ap (λ x. get_root_province_parent (suc n) x q) g ∙ i in
              ground (arith, s, t, g, up, v)
        ]
      ]
