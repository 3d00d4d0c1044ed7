-- ===== src/Project/Merging/Search/Ends.antt =====
-- The search for merged provinces ends where every child is a province.
use ho_i4_mod_development_to.Base.{
  ℕ, zero, suc, ◌+◌, ◌≤◌, ◌<◌, ◌≡◌, refl, sym, ◌∙◌, ap, subst, true, false, some, List, [], ◌∷◌,
  ◌++◌, length, length-append, ◌==◌, ==_iff, arith, inl, inr, Bool-cases, Option-cases, All,
}
use mathlib.Core.Option.{some-injective}
use ho_i4_mod_development_to.Base.Ord.{Ord}
use ho_i4_mod_development_to.Base.OrdSet
use ho_i4_mod_development_to.Base.Dict
use ho_i4_mod_development_to.Base.Dict.{Dict}
use ho_i4_mod_development_to.Project.{ProvinceId, Province, Project}
use ho_i4_mod_development_to.Project.Merging.Search.{
  push_parent, push_children, search_round, search_merged, weight,
}

module _ (o : Ord ProvinceId) (p : Project) where
  weight_le :
      (m : Dict Province) (id : ProvinceId) (connected : List ProvinceId)
      → weight o p (OrdSet.insert ⦃o = o⦄ id connected) m ≤ weight o p connected m
  unfolding weight
  weight_le [] id connected = omega arith
  weight_le ((k, prov) ∷ m) id connected =
      ground (arith, weight_le m id connected, OrdSet.contains-insert ⦃o = o⦄ id k connected)

  -- A province that becomes connected takes with it what it will push.
  weight_drops :
      (m : Dict Province) (id : ProvinceId) (prov : Province) (connected : List ProvinceId)
      → Dict.lookup id m ≡ some prov
      → OrdSet.contains ⦃o = o⦄ id connected ≡ false
      → weight o p (OrdSet.insert ⦃o = o⦄ id connected) m + suc (length prov.children)
        ≤ weight o p connected m
  unfolding weight
  weight_drops [] id prov connected e h = absurd cc
  weight_drops ((k, v) ∷ m) id prov connected e h = elim (Bool-cases (k == id)) [
    | inl t ↦
        let w : k ≡ id = (==_iff k id).0 t in
        let same : v ≡ prov = some-injective _ _ (sym (ground (arith, t)) ∙ e) in
        let now : OrdSet.contains ⦃o = o⦄ k (OrdSet.insert ⦃o = o⦄ id connected) ≡ true =
          subst (λ z. OrdSet.contains ⦃o = o⦄ z (OrdSet.insert ⦃o = o⦄ id connected) ≡ true) (sym w)
            (ground (
              arith,
              OrdSet.contains-insert ⦃o = o⦄ id id connected,
              OrdSet.same_self ⦃o = o⦄ id,
            )) in
        let before : OrdSet.contains ⦃o = o⦄ k connected ≡ false =
          subst (λ z. OrdSet.contains ⦃o = o⦄ z connected ≡ false) (sym w) h in
        let size : length v.children ≡ length prov.children = ap (λ z. length z.children) same in
        ground (arith, weight_le m id connected, now, before, size)
    | inr t ↦
        let rest : Dict.lookup id m ≡ some prov = sym (ground (arith, t)) ∙ e in
        ground (
          arith,
          weight_drops m id prov connected rest h,
          OrdSet.contains-insert ⦃o = o⦄ id k connected,
        )
  ]

  push_parent_le :
      (connected : List ProvinceId) (parent : ProvinceId) (queue : List ProvinceId)
      → length (push_parent o p connected parent queue) ≤ suc (length queue)
  unfolding push_parent
  push_parent_le connected parent queue = ground (arith, length-append queue (parent ∷ []))

  -- Children that are provinces can be pushed.
  push_children_le :
      (connected cs queue : List ProvinceId)
      → All (λ c. Dict.has c p.provinces ≡ true) cs
      → (next : List ProvinceId) × (push_children o p connected cs queue ≡ some next)
        × (length next ≤ length queue + length cs)
  unfolding push_children
  push_children_le connected [] queue h = (queue, refl, omega arith)
  push_children_le connected (c ∷ cs) queue (v, h) =
      let (child, e) = Dict.lookup_of_has c p.provinces v in
      elim (Bool-cases (OrdSet.contains ⦃o = o⦄ c connected)) [
        | inl t ↦
            let (next, f, l) = push_children_le connected cs queue h in
            (next, ground (arith, t, f), omega (arith, l))
        | inr t ↦
            let (next, f, l) = push_children_le connected cs (queue ++ (c ∷ [])) h in
            (next, ground (arith, t, f, e), omega (arith, l, length-append queue (c ∷ [])))
      ]

  module _
      (closed : (k : ProvinceId) (prov : Province)
        → Dict.lookup k p.provinces ≡ some prov
        → All (λ c. Dict.has c p.provinces ≡ true) prov.children) where
    abbrev work : List ProvinceId → List ProvinceId → ℕ
    work queue connected = length queue + weight o p connected p.provinces

    round_ends :
        (id : ProvinceId) (queue connected : List ProvinceId)
        → (next reached : List ProvinceId) × (search_round o p id queue connected
            ≡ some (next, reached))
          × (work next reached < suc (work queue connected))
    unfolding search_round
    round_ends id queue connected = elim (Option-cases (Dict.lookup id p.provinces)) [
      | inl e ↦ (queue, connected, ground (arith, e), omega arith)
      | inr (prov, e) ↦ elim (Bool-cases (OrdSet.contains ⦃o = o⦄ id connected)) [
        | inl t ↦ (queue, connected, ground (arith, e, t), omega arith)
        | inr t ↦
            let reached = OrdSet.insert ⦃o = o⦄ id connected in
            let (next, f, l) =
              push_children_le reached prov.children (push_parent o p reached prov.parent_id queue)
                (closed id prov e) in
            (
              next,
              reached,
              ground (arith, e, t, f),
              omega (
                arith,
                l,
                push_parent_le reached prov.parent_id queue,
                weight_drops p.provinces id prov connected e t,
              ),
            )
      ]
    ]

    -- What each round keeps holds of the provinces that are found.
    pub search_rule :
        (I : List ProvinceId → List ProvinceId → Type 0)
        → ((id : ProvinceId) (queue connected next reached : List ProvinceId)
            → I (id ∷ queue) connected
            → search_round o p id queue connected ≡ some (next, reached)
            → I next reached)
        → (n : ℕ) (queue connected : List ProvinceId) → I queue connected
        → work queue connected < n
        → (merged : List ProvinceId) × (search_merged o p n queue connected ≡ some (some merged))
          × I [] merged
    unfolding search_merged
    search_rule I keep zero queue connected i h = absurd (omega (arith, h))
    search_rule I keep (suc n) [] connected i h = (connected, refl, i)
    search_rule I keep (suc n) (id ∷ queue) connected i h =
        let (next, reached, e, l) = round_ends id queue connected in
        let (merged, f, j) =
          search_rule I keep n next reached (keep id queue connected next reached i e)
            (omega (arith, l, h)) in
        (merged, ground (arith, e, f), j)
