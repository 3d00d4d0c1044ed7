-- ===== src/Project/Merging/Freeing.antt =====
-- unmergeProvince, for a province whose parent is a root: the result is a forest again.
use ho_i4_mod_development_to.Base.{
  ℕ, zero, suc, ◌≤◌, ◌<◌, ◌≡◌, refl, ap, subst, ◌∙◌, sym, ◌≢◌, true, false, Option, some, List, [],
  elem, if◌then◌else◌, ◌==◌, ==_ne, ==_iff, arith, Bool-cases, inl, inr,
}
use ho_i4_mod_development_to.Base.Ord.{Ord}
use ho_i4_mod_development_to.Base.OrdSet
use ho_i4_mod_development_to.Base.Dict
use ho_i4_mod_development_to.Base.Dict.{Dict, lookup-update, lookup_of_has}
use ho_i4_mod_development_to.Status.{Status, ok, success}
use ho_i4_mod_development_to.Project.{ProvinceId, invalid_province, Province, Project}
use ho_i4_mod_development_to.Project.States.{all_valid}
use ho_i4_mod_development_to.Project.Merging.{
  get_root_province_parent, id_at, set_parent, set_children, raise_all, unmerge_province,
}
use ho_i4_mod_development_to.Project.Merging.Forest.{
  parent_of, children_of, IsForest, id_at_key, parent_ne, key_not_nil, same_iff_eq, has_of_parent,
  get_root_province_parent_step,
}
use ho_i4_mod_development_to.Project.Merging.Unmerging.{
  children_of-set_parent, children_of-set_children, parent_of-set_children, children_of-raise_all,
  contains_of_elem, children_valid, children_of-cleared, unmerge_child,
}
use ho_i4_mod_development_to.Project.Merging.Raising.{
  IsKeyed, Raised, raise_all-Raised, parent_of-set_parent, has-set_parent, id_at-set_parent,
  children_of-set_children_self, has-set_children, id_at-set_children,
}

module _ (o : Ord ProvinceId) (d : ℕ) (p : Project) (f : IsForest o d p) (k j : ProvinceId)
    (hk : Dict.has k p.provinces ≡ true) (ej : parent_of p k ≡ j)
    (hj : Dict.has j p.provinces ≡ true) (kj : (k == j) ≡ false) where
  abbrev cs : List ProvinceId
  cs = children_of p k

  abbrev dropped : Project
  dropped = set_children (OrdSet.erase ⦃o = o⦄ k) j p

  abbrev raised : Project
  raised = raise_all o j j cs dropped

  abbrev freed : Project
  freed = set_parent invalid_province k raised

  abbrev last : Project
  last = set_children (λ _. []) k freed

  dropped-IsKeyed : IsKeyed dropped
  dropped-IsKeyed x = id_at-set_children (OrdSet.erase ⦃o = o⦄ k) j p x ∙ id_at_key o d p f x

  raises : Raised o j cs dropped raised
  raises =
      raise_all-Raised o j cs dropped dropped-IsKeyed
        (has-set_children (OrdSet.erase ⦃o = o⦄ k) j p j ∙ hj)

  has-last : (x : ProvinceId) → Dict.has x last.provinces ≡ Dict.has x p.provinces
  has-last x =
      has-set_children (λ _. []) k freed x
      ∙ has-set_parent invalid_province k raised x
      ∙ raises.has x
      ∙ has-set_children (OrdSet.erase ⦃o = o⦄ k) j p x

  -- A province is listed by `k` if it names `k`.
  elem-cs : (x : ProvinceId) → elem x cs ≡ (parent_of p x == k)
  elem-cs x = sym (contains_of_elem o d p f x cs) ∙ f.listed k x hk

  parent_of-last :
      (x : ProvinceId)
      → parent_of last x
        ≡ (if k == x then invalid_province else (if parent_of p x == k then j else parent_of p x))
  parent_of-last x =
      let a = parent_of-set_children (λ _. []) k x freed in
      let b = parent_of-set_parent invalid_province k raised x in
      let c = raises.parents x in
      let e = parent_of-set_children (OrdSet.erase ⦃o = o⦄ k) j x p in
      let hd = has-set_children (OrdSet.erase ⦃o = o⦄ k) j p x in
      let hr = raises.has x in
      elim (Bool-cases (k == x)) [
        | inl t ↦
            let hx : Dict.has x p.provinces ≡ true =
              subst (λ y. Dict.has y p.provinces ≡ true) ((==_iff k x).0 t) hk in
            ground (arith, a, b, hr, hd, hx, t)
        | inr t ↦ elim (Bool-cases (parent_of p x == k)) [
          | inl u ↦
              let z = key_not_nil o d p f k hk in
              let m : parent_of p x ≢ invalid_province = ground (arith, u, z) in
              ground (arith, a, b, c, e, hd, has_of_parent p x m, elem-cs x, t, u)
          | inr u ↦ ground (arith, a, b, c, e, elem-cs x, t, u)
        ]
      ]

  children_of-last :
      (x : ProvinceId)
      → children_of last x
        ≡ (if k == x then [] else (if j == x then children_of raised j else children_of p x))
  children_of-last x = elim (Bool-cases (k == x)) [
    | inl t ↦
        let e : children_of last x ≡ [] =
          subst (λ y. children_of last y ≡ []) ((==_iff k x).0 t) (children_of-cleared k freed) in
        ground (arith, e, t)
    | inr t ↦
        let a = children_of-set_children (λ _. []) k x freed t in
        let b = children_of-set_parent invalid_province k x raised in
        elim (Bool-cases (j == x)) [
          | inl u ↦
              let e : children_of raised x ≡ children_of raised j =
                ap (λ y. children_of raised y) (sym ((==_iff j x).0 u)) in
              ground (arith, a, b, e, t, u)
          | inr u ↦
              let c = children_of-raise_all o j j x cs dropped u in
              let e = children_of-set_children (OrdSet.erase ⦃o = o⦄ k) j x p u in
              ground (arith, a, b, c, e, t, u)
        ]
  ]

  children_of-dropped : children_of dropped j ≡ OrdSet.erase ⦃o = o⦄ k (children_of p j)
  children_of-dropped = children_of-set_children_self (OrdSet.erase ⦃o = o⦄ k) j p hj

  listed :
      (x c : ProvinceId)
      → Dict.has x last.provinces ≡ true
      → OrdSet.contains ⦃o = o⦄ c (children_of last x) ≡ (parent_of last c == x)
  listed x c h =
      let hx : Dict.has x p.provinces ≡ true = sym (has-last x) ∙ h in
      let z = key_not_nil o d p f x hx in
      let l = f.listed x c hx in
      let lk = elem-cs c in
      let pc = parent_of-last c in
      let pe : (k == c) ≡ true → parent_of p c ≡ j =
        λ v. ap (λ y. parent_of p y) (sym ((==_iff k c).0 v)) ∙ ej in
      let cx = ap (λ v. OrdSet.contains ⦃o = o⦄ c v) (children_of-last x) in
      elim (Bool-cases (k == x)) [
        | inl t ↦ ground (arith, cx, pc, t, z, kj)
        | inr t ↦ elim (Bool-cases (j == x)) [
          | inl u ↦
              let r = raises.children c in
              let dc = ap (λ v. OrdSet.contains ⦃o = o⦄ c v) children_of-dropped in
              let e = OrdSet.contains-erase ⦃o = o⦄ k c (children_of p j) (f.sorted j) in
              let lj = f.listed j c hj in
              let same = same_iff_eq o c k in
              elim (Bool-cases (k == c)) [
                | inl v ↦ ground (arith, cx, pc, t, u, z, r, dc, e, lk, same, kj, v, pe v)
                | inr v ↦ ground (arith, cx, pc, t, u, r, dc, e, lk, lj, same, v)
              ]
          | inr u ↦ elim (Bool-cases (k == c)) [
            | inl v ↦ ground (arith, cx, pc, t, u, z, l, v, pe v)
            | inr v ↦ ground (arith, cx, pc, t, u, l, v)
          ]
        ]
      ]

  keyed :
      (x : ProvinceId) (prov : Province) → Dict.lookup x last.provinces ≡ some prov → prov.id ≡ x
  keyed x prov e =
      let i : id_at x last ≡ x =
        id_at-set_children (λ _. []) k freed x
        ∙ id_at-set_parent invalid_province k raised x
        ∙ raises.keyed x in
      ground (arith, i, e)

  there :
      (x : ProvinceId)
      → parent_of last x ≢ invalid_province
      → Dict.has (parent_of last x) last.provinces ≡ true
  there x m = has-last (parent_of last x) ∙ elim (Bool-cases (k == x)) [
    | inl t ↦ absurd (m (ground (arith, parent_of-last x, t)))
    | inr t ↦ elim (Bool-cases (parent_of p x == k)) [
      | inl u ↦
          let e : parent_of last x ≡ j = ground (arith, parent_of-last x, t, u) in
          subst (λ y. Dict.has y p.provinces ≡ true) (sym e) hj
      | inr u ↦
          let e : parent_of last x ≡ parent_of p x = ground (arith, parent_of-last x, t, u) in
          subst (λ y. Dict.has y p.provinces ≡ true) (sym e) (f.there x (λ z. m (e ∙ z)))
    ]
  ]

  climbs :
      (x : ProvinceId) → parent_of last x ≢ invalid_province → f.rank (parent_of last x) < f.rank x
  climbs x m = elim (Bool-cases (k == x)) [
    | inl t ↦ absurd (m (ground (arith, parent_of-last x, t)))
    | inr t ↦ elim (Bool-cases (parent_of p x == k)) [
      | inl u ↦
          let e : parent_of last x ≡ j = ground (arith, parent_of-last x, t, u) in
          let w : parent_of p x ≡ k = (==_iff _ _).0 u in
          let mk : parent_of p k ≢ invalid_province =
            λ z. let n = key_not_nil o d p f j hj in ground (arith, n, ej, z) in
          let mx : parent_of p x ≢ invalid_province =
            λ z. let n = key_not_nil o d p f k hk in ground (arith, n, w, z) in
          let a : f.rank j < f.rank k = subst (λ y. f.rank y < f.rank k) ej (f.climbs k mk) in
          let b : f.rank k < f.rank x = subst (λ y. f.rank y < f.rank x) w (f.climbs x mx) in
          subst (λ y. f.rank y < f.rank x) (sym e) (omega (arith, a, b))
      | inr u ↦
          let e : parent_of last x ≡ parent_of p x = ground (arith, parent_of-last x, t, u) in
          subst (λ y. f.rank y < f.rank x) (sym e) (f.climbs x (λ z. m (e ∙ z)))
    ]
  ]

  sorted : (x : ProvinceId) → OrdSet.IsSorted ⦃o = o⦄ (children_of last x)
  sorted x = elim (Bool-cases (k == x)) [
    | inl t ↦ rw (children_of-last x, t) tt
    | inr t ↦ elim (Bool-cases (j == x)) [
      | inl u ↦
          rw (children_of-last x, t, u)
            (raises.sorted (
              rw children_of-dropped
                (OrdSet.erase-IsSorted ⦃o = o⦄ k (children_of p j) (f.sorted j))))
      | inr u ↦ rw (children_of-last x, t, u) (f.sorted x)
    ]
  ]

  pub last-IsForest : IsForest o d last
  last-IsForest = record {
    rank = f.rank;
    keyed = keyed;
    no_nil = has-last invalid_province ∙ f.no_nil;
    there = there;
    climbs = climbs;
    short = f.short;
    listed = listed;
    sorted = sorted;
  }

-- The climb from a root ends at once.
root_is :
    (o : Ord ProvinceId) (d : ℕ) (p : Project) (f : IsForest o d p) (j : ProvinceId)
    → Dict.has j p.provinces ≡ true
    → parent_of p j ≡ invalid_province
    → (fuel : ℕ) → d ≤ fuel
    → get_root_province_parent fuel j p ≡ some (ok j)
root_is o d p f j h n zero b = absurd (omega (arith, f.short j, b))
root_is o d p f j h n (suc fuel) b =
    ground (arith, get_root_province_parent_step o d p f fuel j h, n)

-- In a forest, taking out a province whose parent is a root succeeds and leaves a forest. The province
-- has no parent and no children any more, its children name the root as their parent, and every other
-- province keeps its parent.
pub unmerge_province_lem :
    (o : Ord ProvinceId) (d fuel : ℕ) (k : ProvinceId) (p : Project)
    → IsForest o d p
    → d ≤ fuel
    → parent_of p k ≢ invalid_province
    → parent_of p (parent_of p k) ≡ invalid_province
    → (q : Project) × (unmerge_province o fuel k p ≡ some (success, q))
      × IsForest o d q
      × (children_of q k ≡ [])
      × ((x : ProvinceId)
          → parent_of q x ≡ (
              if k == x
              then invalid_province
              else (if parent_of p x == k then parent_of p k else parent_of p x)))
unmerge_province_lem o d fuel k p f b m n =
    let (prov, e) = lookup_of_has k p.provinces (has_of_parent p k m) in
    let ej : parent_of p k ≡ prov.parent_id = ground (arith, e) in
    let ec : children_of p k ≡ prov.children = ground (arith, e) in
    let hk : Dict.has k p.provinces ≡ true = has_of_parent p k m in
    let hj : Dict.has (parent_of p k) p.provinces ≡ true = f.there k m in
    let kj : (k == parent_of p k) ≡ false = ground (arith, parent_ne o d p f k m) in
    let g =
      subst (λ y. get_root_province_parent fuel y p ≡ some (ok y)) ej
        (root_is o d p f (parent_of p k) hj n fuel b) in
    let way =
      unmerge_child o fuel k prov.parent_id prov p e (==_ne _ _ (λ z. m (ej ∙ z)))
        (subst (λ y. Dict.has y p.provinces ≡ true) ej hj) g
        (subst (λ y. all_valid y p ≡ true) ec (children_valid o d p f k hk)) in
    let out : ProvinceId → List ProvinceId → Option (Status × Project) = λ y ys. some (
      success,
      set_children (λ _. []) k
          (set_parent invalid_province k
            (raise_all o y y ys (set_children (OrdSet.erase ⦃o = o⦄ k) y p))),
    ) in
    (
      last o d p f k (parent_of p k) hk refl hj kj,
      way ∙ ap (λ y. out y prov.children) (sym ej) ∙ ap (λ ys. out (parent_of p k) ys) (sym ec),
      last-IsForest o d p f k (parent_of p k) hk refl hj kj,
      children_of-cleared k _,
      parent_of-last o d p f k (parent_of p k) hk refl hj kj,
    )
