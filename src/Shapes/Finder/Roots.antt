-- ===== src/Shapes/Finder/Roots.antt =====
-- getRootLabel: the climb ends, because each link goes to a smaller label.
use ho_i4_mod_development_to.Base.{
  ℕ, zero, suc, ◌+◌, ◌≤◌, ◌<◌, ◌≡◌, sym, ap, none, some, [], ◌∷◌, ◌==◌, ==_iff, arith, Option-cases,
  Bool-cases, inl, inr, subst,
}
use Prim.Native.Nat.{Ordering}
use Prim.Native.Nat.Ordering.{lt}
use ho_i4_mod_development_to.Base.Ord.{Ord, Ordering-cases}
use ho_i4_mod_development_to.Base.Dict
use ho_i4_mod_development_to.Base.Dict.{Dict}
use ho_i4_mod_development_to.Project.{ProvinceId}
use ho_i4_mod_development_to.Shapes.Finder.{climb, get_root_label}

-- Following links from a label.
pub data Leads (parents : Dict ProvinceId) : ProvinceId → ProvinceId → Type 0 where
  here : {l : ProvinceId} → Leads parents l l
  link :
      {k v l : ProvinceId} → Dict.lookup k parents ≡ some v → Leads parents v l → Leads parents k l

module _ (o : Ord ProvinceId) where
  -- Each link goes to a smaller label.
  abbrev pub IsDescending : Dict ProvinceId → Type 0
  IsDescending parents = (k v : ProvinceId) → Dict.lookup k parents ≡ some v → o.cmp v k ≡ lt

  abbrev at_most : ProvinceId → ProvinceId → ℕ
  at_most k l = elim (o.cmp k l) [ Ordering.gt ↦ 0 | _ ↦ 1 ]

  -- How many keys are at most a label.
  abbrev rank : Dict ProvinceId → ProvinceId → ℕ
  rank [] l = 0
  rank ((k, v) ∷ m) l = at_most k l + rank m l

  at_most_mono : (k v l : ProvinceId) → o.cmp v l ≡ lt → at_most k v ≤ at_most k l
  at_most_mono k v l h = elim (Ordering-cases (o.cmp k v)) [
    | inl e ↦ ground (arith, e, o.trans k v l e h)
    | inr (inl e) ↦ ground (arith, e, h, ap (λ z. o.cmp z l) (o.eq_of_cmp k v e))
    | inr (inr e) ↦ ground (arith, e)
  ]

  rank_mono : (m : Dict ProvinceId) (v l : ProvinceId) → o.cmp v l ≡ lt → rank m v ≤ rank m l
  rank_mono [] v l h = omega arith
  rank_mono ((k, w) ∷ m) v l h = omega (arith, rank_mono m v l h, at_most_mono k v l h)

  rank-size : (m : Dict ProvinceId) (l : ProvinceId) → rank m l ≤ Dict.size m
  rank-size [] l = omega arith
  rank-size ((k, w) ∷ m) l = ground (arith, rank-size m l)

  -- A link lowers the rank: the key it starts from is no longer counted.
  rank_link :
      (m : Dict ProvinceId) (k v : ProvinceId)
      → Dict.lookup k m ≡ some v
      → o.cmp v k ≡ lt
      → rank m v < rank m k
  rank_link [] k v e h = cc
  rank_link ((j, w) ∷ m) k v e h = elim (Bool-cases (j == k)) [
    | inl t ↦
        let same : j ≡ k = (==_iff j k).0 t in
        let self : at_most j k ≡ 1 =
          subst (λ z. at_most z k ≡ 1) (sym same) (ground (arith, o.cmp_self k)) in
        let gone : at_most j v ≡ 0 =
          subst (λ z. at_most z v ≡ 0) (sym same) (ground (arith, o.flip v k h)) in
        omega (arith, rank_mono m v k h, self, gone)
    | inr t ↦ omega (arith, rank_link m k v (ground (arith, t, e)) h, at_most_mono j v k h)
  ]

  climb_lem :
      (fuel : ℕ) (m : Dict ProvinceId) (l : ProvinceId)
      → IsDescending m
      → rank m l < fuel
      → (root : ProvinceId) × (climb fuel m l ≡ some root)
        × Leads m l root
        × (Dict.lookup root m ≡ none)
  unfolding climb
  climb_lem zero m l d h = absurd (omega (arith, h))
  climb_lem (suc fuel) m l d h = elim (Option-cases (Dict.lookup l m)) [
    | inl e ↦ (l, ground (arith, e), here, e)
    | inr (v, e) ↦
        let (root, c, p, top) =
          climb_lem fuel m v d (omega (arith, h, rank_link m l v e (d l v e))) in
        (root, ground (arith, e, c), link e p, top)
  ]

  -- Where each link goes to a smaller label, the climb from any label ends, at a label that the links
  -- lead to and that has no parent. One round more than there are links is enough.
  pub get_root_label_lem :
      (parents : Dict ProvinceId) (label : ProvinceId)
      → IsDescending parents
      → (root : ProvinceId) × (get_root_label parents label ≡ some root)
        × Leads parents label root
        × (Dict.lookup root parents ≡ none)
  unfolding get_root_label
  get_root_label_lem parents label d =
      climb_lem (suc (Dict.size parents)) parents label d (omega (arith, rank-size parents label))
