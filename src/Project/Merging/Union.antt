-- ===== src/Project/Merging/Union.antt =====
-- mergeProvinces on a forest: it ends, and it joins two trees or refuses to.
use ho_i4_mod_development_to.Base.{
  ℕ, suc, ◌+◌, ◌≤◌, ◌≡◌, ◌≢◌, ◌⊎◌, true, Option, some, if◌then◌else◌, ◌==◌, ==_ne, ==_iff, arith,
  Bool-cases, inl, inr,
}
use ho_i4_mod_development_to.Base.Ord.{Ord}
use ho_i4_mod_development_to.Base.Dict
use ho_i4_mod_development_to.Status.{Status, ok, success, unexpected}
use ho_i4_mod_development_to.Project.{ProvinceId, Project, is_valid_province_id}
use ho_i4_mod_development_to.Project.Merging.{get_root_province_parent, link, merge_provinces}
use ho_i4_mod_development_to.Project.Merging.Forest.{
  IsForest, id_at_key, get_root_province_parent_enough,
}
use ho_i4_mod_development_to.Project.Merging.Linking.{redirect, link-IsForest, root-link}

-- What merging two provinces with the roots `r1` and `r2` leads to.
abbrev pub Merged :
    Ord ProvinceId → ℕ → ℕ → Project → Option (Status × Project) → ProvinceId → ProvinceId → Type 0
Merged o d fuel p result r1 r2 =
    ((r1 ≡ r2) × (result ≡ some (unexpected, p)))
    ⊎ ((q : Project) × (r1 ≢ r2)
        × (result ≡ some (success, q))
        × IsForest o (d + d) q
        × ((k : ProvinceId)
            → Dict.has k p.provinces ≡ true
            → get_root_province_parent (suc fuel) k q
              ≡ redirect r1 r2 (get_root_province_parent fuel k p)))

outcome :
    (o : Ord ProvinceId) (d fuel : ℕ) (id1 id2 r1 r2 : ProvinceId) (p : Project)
    → IsForest o d p
    → id1 ≢ id2
    → Dict.has id1 p.provinces ≡ true
    → Dict.has id2 p.provinces ≡ true
    → get_root_province_parent fuel id1 p ≡ some (ok r1)
    → get_root_province_parent fuel id2 p ≡ some (ok r2)
    → merge_provinces o fuel id1 id2 p
      ≡ (if r1 == r2 then some (unexpected, p) else some (success, link o r1 r2 p))
unfolding merge_provinces is_valid_province_id
outcome o d fuel id1 id2 r1 r2 p f n h1 h2 g1 g2 =
    ground (arith, ==_ne id1 id2 n, h1, h2, g1, g2, id_at_key o d p f r1, id_at_key o d p f r2)

-- In a forest of provinces in which no climb to a root takes as many steps as there is fuel, merging
-- two different provinces ends. Where both have the same root it refuses and changes nothing.
-- Otherwise the result is a forest, in which each province of the first one's tree has the root of the
-- second, and every other province keeps its root.
pub merge_provinces_lem :
    (o : Ord ProvinceId) (d fuel : ℕ) (id1 id2 : ProvinceId) (p : Project)
    → IsForest o d p
    → d ≤ fuel
    → id1 ≢ id2
    → Dict.has id1 p.provinces ≡ true
    → Dict.has id2 p.provinces ≡ true
    → (r1 r2 : ProvinceId) × (get_root_province_parent fuel id1 p ≡ some (ok r1))
      × (get_root_province_parent fuel id2 p ≡ some (ok r2))
      × Merged o d fuel p (merge_provinces o fuel id1 id2 p) r1 r2
merge_provinces_lem o d fuel id1 id2 p f b n h1 h2 =
    let (r1, g1, u1, v1) =
      get_root_province_parent_enough o d p f fuel id1 h1 (omega (arith, f.short id1, b)) in
    let (r2, g2, u2, v2) =
      get_root_province_parent_enough o d p f fuel id2 h2 (omega (arith, f.short id2, b)) in
    let out = outcome o d fuel id1 id2 r1 r2 p f n h1 h2 g1 g2 in
    (
      r1,
      r2,
      g1,
      g2,
      elim (Bool-cases (r1 == r2)) [
        | inl t ↦ inl ((==_iff r1 r2).0 t, ground (arith, out, t))
        | inr t ↦
            let ne : r1 ≢ r2 = ground (arith, t) in
            inr (
              link o r1 r2 p,
              ne,
              ground (arith, out, t),
              link-IsForest o d p f r1 r2 u1 u2 v1 v2 ne,
              λ k h. root-link o d p f r1 r2 u1 u2 v1 v2 ne fuel k h (omega (arith, f.short k, b)),
            )
      ],
    )
