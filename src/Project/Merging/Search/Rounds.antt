-- ===== src/Project/Merging/Search/Rounds.antt =====
-- What a round of the search queues and connects.
use ho_i4_mod_development_to.Base.{
  ◌≡◌, ◌≢◌, ◌⊎◌, refl, sym, ◌∙◌, subst, true, false, Option, some, List, [], ◌∷◌, ◌++◌,
  if◌then◌else◌, ◌==◌, ==_ne, arith, inl, inr, Bool-cases, Option-cases, All,
}
use mathlib.Core.Option.{some-injective}
use ho_i4_mod_development_to.Base.Ord.{Ord}
use ho_i4_mod_development_to.Base.OrdSet
use ho_i4_mod_development_to.Base.Dict
use ho_i4_mod_development_to.Project.{ProvinceId, invalid_province, Province, Project}
use ho_i4_mod_development_to.Project.Merging.Search.{push_parent, push_children, search_round}

module _ (o : Ord ProvinceId) where
  abbrev pub In : ProvinceId → List ProvinceId → Type 0
  In x xs = OrdSet.contains ⦃o = o⦄ x xs ≡ true

  In-append :
      (x : ProvinceId) (xs : List ProvinceId) (y : ProvinceId)
      → OrdSet.contains ⦃o = o⦄ x (xs ++ (y ∷ []))
        ≡ (if OrdSet.contains ⦃o = o⦄ x xs then true else OrdSet.same ⦃o = o⦄ x y)
  In-append x [] y = ground arith
  In-append x (z ∷ xs) y = ground (arith, In-append x xs y)

  pub In-self : (x : ProvinceId) (xs : List ProvinceId) → In x (x ∷ xs)
  In-self x xs = ground (arith, OrdSet.same_self ⦃o = o⦄ x)

  -- Every element of a list has what each member has.
  pub All_of_In :
      (P : ProvinceId → Type 0) (xs : List ProvinceId)
      → ((x : ProvinceId) → In x xs → P x)
      → All P xs
  All_of_In P [] h = tt
  All_of_In P (x ∷ xs) h = (h x (In-self x xs), All_of_In P xs (λ y i. h y (ground (arith, i))))

  module _ (p : Project) where
    -- What is queued was there, or it is the parent or a child.
    push_parent_from :
        (connected : List ProvinceId) (parent : ProvinceId) (queue : List ProvinceId)
        (x : ProvinceId)
        → In x (push_parent o p connected parent queue)
        → In x queue ⊎ ((x ≡ parent) × (parent ≢ invalid_province))
    unfolding push_parent
    push_parent_from connected parent queue x h =
        elim (Bool-cases (OrdSet.contains ⦃o = o⦄ parent connected)) [
          | inl t ↦ inl (ground (arith, t, h))
          | inr t ↦ elim (Bool-cases (parent == invalid_province)) [
            | inl u ↦ inl (ground (arith, t, u, h))
            | inr u ↦ elim (Bool-cases (OrdSet.contains ⦃o = o⦄ x queue)) [
              | inl v ↦ inl v
              | inr v ↦
                  let w : OrdSet.same ⦃o = o⦄ x parent ≡ true =
                    ground (arith, t, u, v, h, In-append x queue parent) in
                  inr (OrdSet.same_iff ⦃o = o⦄ x parent w, λ z. ground (arith, u, z))
            ]
          ]
        ]

    push_parent_to :
        (connected : List ProvinceId) (parent : ProvinceId) (queue : List ProvinceId)
        (x : ProvinceId)
        → In x queue
        → In x (push_parent o p connected parent queue)
    unfolding push_parent
    push_parent_to connected parent queue x h = ground (arith, h, In-append x queue parent)

    push_parent_queues :
        (connected : List ProvinceId) (parent : ProvinceId) (queue : List ProvinceId)
        → parent ≢ invalid_province
        → In parent connected ⊎ In parent (push_parent o p connected parent queue)
    unfolding push_parent
    push_parent_queues connected parent queue n =
        elim (Bool-cases (OrdSet.contains ⦃o = o⦄ parent connected)) [
          | inl t ↦ inl t
          | inr t ↦ inr (
              ground (
                arith,
                t,
                In-append parent queue parent,
                OrdSet.same_self ⦃o = o⦄ parent,
                ==_ne parent invalid_province n,
              ))
        ]

    -- A child that is connected is left out, another one is queued.
    push_children_step :
        (connected cs queue next : List ProvinceId) (c : ProvinceId)
        → push_children o p connected (c ∷ cs) queue ≡ some next
        → (In c connected × (push_children o p connected cs queue ≡ some next))
          ⊎ (push_children o p connected cs (queue ++ (c ∷ [])) ≡ some next)
    unfolding push_children
    push_children_step connected cs queue next c e =
        elim (Bool-cases (OrdSet.contains ⦃o = o⦄ c connected)) [
          | inl t ↦ inl (t, sym (ground (arith, t)) ∙ e)
          | inr t ↦ elim (Option-cases (Dict.lookup c p.provinces)) [
            | inl g ↦ absurd (ground (arith, t, g, e))
            | inr (child, g) ↦ inr (sym (ground (arith, t, g)) ∙ e)
          ]
        ]

    push_children_from :
        (connected cs queue next : List ProvinceId) (x : ProvinceId)
        → push_children o p connected cs queue ≡ some next
        → In x next
        → In x queue ⊎ In x cs
    unfolding push_children
    push_children_from connected [] queue next x e h =
        inl (subst (In x) (sym (some-injective _ _ e)) h)
    push_children_from connected (c ∷ cs) queue next x e h =
        elim (push_children_step connected cs queue next c e) [
          | inl (_, f) ↦ elim (push_children_from connected cs queue next x f h) [
            | inl i ↦ inl i
            | inr i ↦ inr (ground (arith, i))
          ]
          | inr f ↦ elim (push_children_from connected cs (queue ++ (c ∷ [])) next x f h) [
            | inl i ↦ elim (Bool-cases (OrdSet.contains ⦃o = o⦄ x queue)) [
              | inl v ↦ inl v
              | inr v ↦ inr (ground (arith, v, i, In-append x queue c))
            ]
            | inr i ↦ inr (ground (arith, i))
          ]
        ]

    push_children_to :
        (connected cs queue next : List ProvinceId) (x : ProvinceId)
        → push_children o p connected cs queue ≡ some next
        → In x queue
        → In x next
    unfolding push_children
    push_children_to connected [] queue next x e h = subst (In x) (some-injective _ _ e) h
    push_children_to connected (c ∷ cs) queue next x e h =
        elim (push_children_step connected cs queue next c e) [
          | inl (_, f) ↦ push_children_to connected cs queue next x f h
          | inr f ↦
              push_children_to connected cs (queue ++ (c ∷ [])) next x f
                (ground (arith, h, In-append x queue c))
        ]

    push_children_queues :
        (connected cs queue next : List ProvinceId) (x : ProvinceId)
        → push_children o p connected cs queue ≡ some next
        → In x cs
        → In x connected ⊎ In x next
    push_children_queues connected [] queue next x e h = absurd cc
    push_children_queues connected (c ∷ cs) queue next x e h =
        elim (push_children_step connected cs queue next c e) [
          | inl (t, f) ↦ elim (Bool-cases (OrdSet.same ⦃o = o⦄ x c)) [
            | inl u ↦ inl (subst (λ z. In z connected) (sym (OrdSet.same_iff ⦃o = o⦄ x c u)) t)
            | inr u ↦ push_children_queues connected cs queue next x f (ground (arith, u, h))
          ]
          | inr f ↦ elim (Bool-cases (OrdSet.same ⦃o = o⦄ x c)) [
            | inl u ↦ inr (
                push_children_to connected cs (queue ++ (c ∷ [])) next x f
                  (ground (arith, u, In-append x queue c)))
            | inr u ↦
                push_children_queues connected cs (queue ++ (c ∷ [])) next x f
                  (ground (arith, u, h))
          ]
        ]

    -- What a round leaves: nothing new, or one more province with its parent and its children queued.
    pub data Round (id : ProvinceId) (queue connected next reached : List ProvinceId) : Type 0 where
      same :
          next ≡ queue
          → reached ≡ connected
          → (In id connected ⊎ (Dict.has id p.provinces ≡ false))
          → Round id queue connected next reached
      wider :
          (prov : Province)
          → Dict.lookup id p.provinces ≡ some prov
          → reached ≡ OrdSet.insert ⦃o = o⦄ id connected
          → ((x : ProvinceId) → In x queue → In x next)
          → ((x : ProvinceId)
              → In x next
              → In x queue
                ⊎ (((x ≡ prov.parent_id) × (prov.parent_id ≢ invalid_province))
                    ⊎ In x prov.children))
          → (prov.parent_id ≢ invalid_province → In prov.parent_id reached ⊎ In prov.parent_id next)
          → ((x : ProvinceId) → In x prov.children → In x reached ⊎ In x next)
          → Round id queue connected next reached

    pub round_lem :
        (id : ProvinceId) (queue connected next reached : List ProvinceId)
        → search_round o p id queue connected ≡ some (next, reached)
        → Round id queue connected next reached
    unfolding search_round
    round_lem id queue connected next reached e = elim (Option-cases (Dict.lookup id p.provinces)) [
      | inl g ↦ back (sym (ground (arith, g)) ∙ e) (same refl refl (inr (ground (arith, g))))
      | inr (prov, g) ↦ elim (Bool-cases (OrdSet.contains ⦃o = o⦄ id connected)) [
        | inl t ↦ back (sym (ground (arith, g, t)) ∙ e) (same refl refl (inl t))
        | inr t ↦
            elim (Option-cases (
              push_children o p (now id connected) prov.children
                (push_parent o p (now id connected) prov.parent_id queue))) [
                  | inl u ↦ absurd (ground (arith, g, t, u, e))
                  | inr (q, u) ↦ back (sym (ground (arith, g, t, u)) ∙ e) (widened prov q g u)
                ]
      ]
    ]
      where
        now : ProvinceId → List ProvinceId → List ProvinceId
        now = OrdSet.insert ⦃o = o⦄

        back :
            {q c : List ProvinceId}
            → ◌≡◌ {A = Option (List ProvinceId × List ProvinceId)}
                (some (q, c))
                (some (next, reached))
            → Round id queue connected q c
            → Round id queue connected next reached
        back f r = subst (λ v. Round id queue connected v.0 v.1) (some-injective _ _ f) r

        widened :
            (prov : Province) (q : List ProvinceId)
            → Dict.lookup id p.provinces ≡ some prov
            → push_children o p
                (now id connected)
                prov.children
                (push_parent o p (now id connected) prov.parent_id queue)
              ≡ some q
            → Round id queue connected q (now id connected)
        widened prov q g u =
            let c = now id connected in
            let pq = push_parent o p c prov.parent_id queue in
            wider prov g refl
              (λ x i.
                push_children_to c prov.children pq q x u
                  (push_parent_to c prov.parent_id queue x i))
              (λ x i. elim (push_children_from c prov.children pq q x u i) [
                | inl j ↦ elim (push_parent_from c prov.parent_id queue x j) [
                  | inl k ↦ inl k
                  | inr k ↦ inr (inl k)
                ]
                | inr j ↦ inr (inr j)
              ])
              (λ n. elim (push_parent_queues c prov.parent_id queue n) [
                | inl j ↦ inl j
                | inr j ↦ inr (push_children_to c prov.children pq q prov.parent_id u j)
              ])
              (λ x i. push_children_queues c prov.children pq q x u i)
