-- ===== src/Project/Merging/Search/Class.antt =====
-- In a forest the search finds exactly the provinces that have the same root.
use ho_i4_mod_development_to.Base.{
  ℕ, zero, suc, ◌-◌, ◌<◌, ◌≡◌, ◌≢◌, ◌⊎◌, ◌↔◌, refl, sym, ◌∙◌, ap, subst, true, false, Option, some,
  List, [], ◌∷◌, ◌==◌, ==_iff, arith, inl, inr, Bool-cases,
}
use ho_i4_mod_development_to.Base.Ord.{Ord}
use ho_i4_mod_development_to.Base.OrdSet
use ho_i4_mod_development_to.Base.Dict
use ho_i4_mod_development_to.Status.{Maybe, ok}
use ho_i4_mod_development_to.Project.{ProvinceId, invalid_province, Province, Project}
use ho_i4_mod_development_to.Project.Merging.{get_root_province_parent}
use ho_i4_mod_development_to.Project.Merging.Forest.{
  parent_of, children_of, IsForest, has_of_parent, key_not_nil, get_root_province_parent_step,
  get_root_province_parent_enough, get_root_province_parent_stable,
}
use ho_i4_mod_development_to.Project.Merging.Search.{rounds, get_merged_provinces}
use ho_i4_mod_development_to.Project.Merging.Search.Ends.{search_rule}
use ho_i4_mod_development_to.Project.Merging.Search.Rounds.{
  In, In-self, All_of_In, Round, same, wider, round_lem,
}

ok_injective :
    {a b : ProvinceId} → ◌≡◌ {A = Option (Maybe ProvinceId)} (some (ok a)) (some (ok b)) → a ≡ b
ok_injective e = cc

module _ (o : Ord ProvinceId) (d : ℕ) (p : Project) (f : IsForest o d p) where
  abbrev IsValid : ProvinceId → Type 0
  IsValid k = Dict.has k p.provinces ≡ true

  -- What the climb from a province gives.
  abbrev pub root_of : ProvinceId → Option (Maybe ProvinceId)
  root_of k = get_root_province_parent d k p

  children_lem :
      (k : ProvinceId) (prov : Province) (c : ProvinceId)
      → Dict.lookup k p.provinces ≡ some prov
      → In o c prov.children
      → (parent_of p c ≡ k) × IsValid c
  children_lem k prov c e i =
      let here : IsValid k = ground (arith, e) in
      let own : OrdSet.contains ⦃o = o⦄ c (children_of p k) ≡ true = ground (arith, e, i) in
      let up : parent_of p c ≡ k = (==_iff _ _).0 (sym (f.listed k c here) ∙ own) in
      let nil = key_not_nil o d p f k here in
      (up, has_of_parent p c (λ z. ground (arith, up, z, nil)))

  root_up :
      (k : ProvinceId)
      → IsValid k
      → parent_of p k ≢ invalid_province
      → root_of k ≡ root_of (parent_of p k)
  root_up k v n =
      let c = f.climbs k n in
      let s = f.short k in
      let e : suc (d - 1) ≡ d = omega (arith, s) in
      let nil : (parent_of p k == invalid_province) ≡ false = ground (arith, n) in
      let a = get_root_province_parent_step o d p f (d - 1) k v in
      let b : get_root_province_parent (suc (d - 1)) k p
          ≡ get_root_province_parent (d - 1) (parent_of p k) p =
        ground (arith, a, nil) in
      ap (λ z. get_root_province_parent z k p) (sym e)
      ∙ (b
          ∙ get_root_province_parent_stable o d p f (d - 1) d (parent_of p k) (f.there k n)
              (omega (arith, c, s)) (omega (arith, c, s)))

  module _ (id : ProvinceId) (here : IsValid id) where
    -- Between two rounds: the provinces so far have the root of `id`, and what is next to a connected one
    -- is connected or queued.
    record Found (queue connected : List ProvinceId) : Type 0 where
      named : In o id connected ⊎ In o id queue
      queued : (x : ProvinceId) → In o x queue → IsValid x × (root_of x ≡ root_of id)
      alike : (x : ProvinceId) → In o x connected → IsValid x × (root_of x ≡ root_of id)
      up :
          (k : ProvinceId)
          → In o k connected
          → parent_of p k ≢ invalid_province
          → In o (parent_of p k) connected ⊎ In o (parent_of p k) queue
      down :
          (k c : ProvinceId)
          → In o k connected
          → parent_of p c ≡ k
          → In o c connected ⊎ In o c queue

    -- The front of the queue is connected now, and the rest is where it was.
    shift :
        (x i : ProvinceId) (queue connected next reached : List ProvinceId)
        → In o i reached
        → ((y : ProvinceId) → In o y connected → In o y reached)
        → ((y : ProvinceId) → In o y queue → In o y next)
        → In o x connected ⊎ In o x (i ∷ queue)
        → In o x reached ⊎ In o x next
    shift x i queue connected next reached r c q (inl h) = inl (c x h)
    shift x i queue connected next reached r c q (inr h) =
        elim (Bool-cases (OrdSet.same ⦃o = o⦄ x i)) [
          | inl t ↦ inl (subst (λ z. In o z reached) (sym (OrdSet.same_iff ⦃o = o⦄ x i t)) r)
          | inr t ↦ inr (q x (ground (arith, t, h)))
        ]

    keep :
        (i : ProvinceId) (queue connected next reached : List ProvinceId)
        → Found (i ∷ queue) connected
        → Round o p i queue connected next reached
        → Found next reached
    keep i queue connected next reached h (same e g r) =
        let (v, _) = h.queued i (In-self o i queue) in
        let at_front : In o i connected = elim r [
          | inl x ↦ x
          | inr x ↦ absurd (let no_way : true ≡ false = sym v ∙ x in cc)
        ] in
        let move = λ (x : ProvinceId).
          shift x i queue connected queue connected at_front (λ y z. z) (λ y z. z) in
        subst (λ q. Found q reached) (sym e)
          (subst (Found queue) (sym g) (record {
            named = move id h.named;
            queued = λ x j. h.queued x (ground (arith, j));
            alike = h.alike;
            up = λ k j n. move (parent_of p k) (h.up k j n);
            down = λ k c j u. move c (h.down k c j u);
          }))
    keep i queue connected next reached h (wider prov e g to from parent children) =
        let (v, alike) = h.queued i (In-self o i queue) in
        let look = λ (x : ProvinceId).
          ap (OrdSet.contains ⦃o = o⦄ x) g ∙ OrdSet.contains-insert ⦃o = o⦄ i x connected in
        let at_front : In o i reached = ground (arith, look i, OrdSet.same_self ⦃o = o⦄ i) in
        let grows : (x : ProvinceId) → In o x connected → In o x reached =
          λ x j. ground (arith, look x, j) in
        let split : (x : ProvinceId) → In o x reached → (i ≡ x) ⊎ In o x connected = λ x j.
          elim (Bool-cases (OrdSet.same ⦃o = o⦄ x i)) [
            | inl t ↦ inl (sym (OrdSet.same_iff ⦃o = o⦄ x i t))
            | inr t ↦ inr (ground (arith, look x, t, j))
          ] in
        let move = λ (x : ProvinceId). shift x i queue connected next reached at_front grows to in
        let above : parent_of p i ≡ prov.parent_id = ground (arith, e) in
        let below : children_of p i ≡ prov.children = ground (arith, e) in
        record {
          named = move id h.named;
          queued = λ x j. elim (from x j) [
            | inl a ↦ h.queued x (ground (arith, a))
            | inr (inl (b, n)) ↦
                let w : parent_of p i ≡ x = above ∙ sym b in
                let m : parent_of p i ≢ invalid_province = λ z. n (sym above ∙ z) in
                subst (λ z. IsValid z × (root_of z ≡ root_of id)) w
                  (f.there i m, sym (root_up i v m) ∙ alike)
            | inr (inr c) ↦
                let (w, u) = children_lem i prov x e c in
                let nil = key_not_nil o d p f i v in
                (u, root_up x u (λ z. ground (arith, w, z, nil)) ∙ (ap root_of w ∙ alike))
          ];
          alike = λ x j. elim (split x j) [
            | inl w ↦ subst (λ z. IsValid z × (root_of z ≡ root_of id)) w (v, alike)
            | inr a ↦ h.alike x a
          ];
          up = λ k j n. elim (split k j) [
            | inl w ↦
                let u : parent_of p k ≡ prov.parent_id = ap (parent_of p) (sym w) ∙ above in
                subst (λ z. In o z reached ⊎ In o z next) (sym u) (parent (λ z. n (u ∙ z)))
            | inr a ↦ move (parent_of p k) (h.up k a n)
          ];
          down = λ k c j u. elim (split k j) [
            | inl w ↦
                let own = f.listed i c v in
                let child : (parent_of p c == i) ≡ true = (==_iff _ _).1 (u ∙ sym w) in
                children c (ap (OrdSet.contains ⦃o = o⦄ c) (sym below) ∙ (own ∙ child))
            | inr a ↦ move c (h.down k c a u)
          ];
        }

    -- Once the queue is empty.
    not_queued :
        (x : ProvinceId) (merged : List ProvinceId) → In o x merged ⊎ In o x [] → In o x merged
    not_queued x merged (inl i) = i
    not_queued x merged (inr i) = absurd (ground (arith, i))

    climb_step :
        (merged : List ProvinceId)
        → Found [] merged
        → (n : ℕ) (k r : ProvinceId) → IsValid k
        → f.rank k < n
        → get_root_province_parent n k p ≡ some (ok r)
        → In o k merged
        → In o r merged
    climb_step merged h zero k r v l e i = absurd (omega (arith, l))
    climb_step merged h (suc n) k r v l e i =
        let a = get_root_province_parent_step o d p f n k v in
        elim (Bool-cases (parent_of p k == invalid_province)) [
          | inl t ↦ subst (λ z. In o z merged) (ok_injective (sym (ground (arith, a, t)) ∙ e)) i
          | inr t ↦
              let m : parent_of p k ≢ invalid_province = ground (arith, t) in
              climb_step merged h n (parent_of p k) r (f.there k m) (omega (arith, f.climbs k m, l))
                (sym (ground (arith, a, t)) ∙ e) (not_queued _ _ (h.up k i m))
        ]

    descend :
        (merged : List ProvinceId)
        → Found [] merged
        → (n : ℕ) (x r : ProvinceId) → IsValid x
        → f.rank x < n
        → get_root_province_parent n x p ≡ some (ok r)
        → In o r merged
        → In o x merged
    descend merged h zero x r v l e i = absurd (omega (arith, l))
    descend merged h (suc n) x r v l e i =
        let a = get_root_province_parent_step o d p f n x v in
        elim (Bool-cases (parent_of p x == invalid_province)) [
          | inl t ↦
              subst (λ z. In o z merged) (sym (ok_injective (sym (ground (arith, a, t)) ∙ e))) i
          | inr t ↦
              let m : parent_of p x ≢ invalid_province = ground (arith, t) in
              let above =
                descend merged h n (parent_of p x) r (f.there x m) (omega (arith, f.climbs x m, l))
                  (sym (ground (arith, a, t)) ∙ e) i in
              not_queued _ _ (h.down (parent_of p x) x above refl)
        ]

    -- From a province of the forest, the search ends without an exception, and finds exactly the provinces
    -- that have the same root.
    pub get_merged_provinces_lem :
        (merged : List ProvinceId) × (get_merged_provinces o p (rounds o p) id ≡ some (some merged))
        × ((x : ProvinceId)
            → (OrdSet.contains ⦃o = o⦄ x merged ≡ true) ↔ (IsValid x × (root_of x ≡ root_of id)))
    unfolding get_merged_provinces
    get_merged_provinces_lem =
        let closed =
          λ (k : ProvinceId) (prov : Province) (e : Dict.lookup k p.provinces ≡ some prov).
            All_of_In o IsValid prov.children (λ c i. (children_lem k prov c e i).1) in
        let begin : Found (id ∷ []) [] = record {
          named = inr (In-self o id []);
          queued = λ x i.
              let same : OrdSet.same ⦃o = o⦄ x id ≡ true = ground (arith, i) in
              let e : id ≡ x = sym (OrdSet.same_iff ⦃o = o⦄ x id same) in
              subst (λ z. IsValid z × (root_of z ≡ root_of id)) e (here, refl);
          alike = λ x i. absurd (ground (arith, i));
          up = λ k i n. absurd (ground (arith, i));
          down = λ k c i u. absurd (ground (arith, i));
        } in
        let (merged, e, h) =
          search_rule o p closed Found
            (λ i q c next reached g u.
              keep i q c next reached g (round_lem o p i q c next reached u))
            (rounds o p) (id ∷ []) [] begin (omega arith) in
        let (r, g, _, _) = get_root_province_parent_enough o d p f d id here (f.short id) in
        let top = climb_step merged h d id r here (f.short id) g (not_queued _ _ h.named) in
        (merged, e, λ x. (h.alike x, λ (v, t). descend merged h d x r v (f.short x) (t ∙ g) top))
