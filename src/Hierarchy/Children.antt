-- ===== src/Hierarchy/Children.antt =====
-- GroupNode.cpp: what a group holds after each call, on every branch.
use ho_i4_mod_development_to.Base.{
  ◌≡◌, refl, ap, sym, subst, ◌∙◌, ◌&&◌, true, false, not, Option, none, some, List, [], ◌∷◌,
  if◌then◌else◌, is_some, arith, Bool-cases, Option-cases, inl, inr,
}
use ho_i4_mod_development_to.Base.Ord.{Text, text_ord}
use ho_i4_mod_development_to.Base.OrdSet
use ho_i4_mod_development_to.Status.{success, param_cannot_be_null, key_exists, key_not_found}
use ho_i4_mod_development_to.Hierarchy.{
  is_name, GroupNode, find, drop, add_child_as, remove_child, set_child,
}

is_name_iff : (j k : Text) → is_name j k ≡ true → j ≡ k
is_name_iff j k h = OrdSet.same_iff ⦃o = text_ord⦄ j k h

module _ {N : Type 0} where
  -- No name stands twice.
  abbrev pub HasDistinctNames : List (Text × N) → Type 0
  HasDistinctNames [] = Unit
  HasDistinctNames ((k, n) ∷ m) = (find k m ≡ none) × HasDistinctNames m

  find-drop_ne :
      (k j : Text) (m : List (Text × N)) → is_name j k ≡ false → find j (drop k m) ≡ find j m
  find-drop_ne k j [] h = refl
  find-drop_ne k j ((i, n) ∷ m) h = elim (Bool-cases (is_name k i)) [
    | inl t ↦
        let e : is_name j i ≡ false = subst (λ x. is_name j x ≡ false) (is_name_iff k i t) h in
        ground (arith, t, e)
    | inr t ↦ ground (arith, t, find-drop_ne k j m h)
  ]

  find-drop_self : (k : Text) (m : List (Text × N)) → HasDistinctNames m → find k (drop k m) ≡ none
  find-drop_self k [] h = refl
  find-drop_self k ((i, n) ∷ m) h = elim (Bool-cases (is_name k i)) [
    | inl t ↦
        let e : find k m ≡ none = subst (λ x. find x m ≡ none) (sym (is_name_iff k i t)) h.0 in
        ground (arith, t, e)
    | inr t ↦ ground (arith, t, find-drop_self k m h.1)
  ]

  find-drop :
      (k j : Text) (m : List (Text × N))
      → HasDistinctNames m
      → find j (drop k m) ≡ (if is_name j k then none else find j m)
  find-drop k j m h = elim (Bool-cases (is_name j k)) [
    | inl t ↦
        let e : find j (drop k m) ≡ none =
          subst (λ x. find x (drop k m) ≡ none) (sym (is_name_iff j k t)) (find-drop_self k m h) in
        ground (arith, t, e)
    | inr t ↦ ground (arith, t, find-drop_ne k j m t)
  ]

  drop-none : (j k : Text) (m : List (Text × N)) → find j m ≡ none → find j (drop k m) ≡ none
  drop-none j k [] h = refl
  drop-none j k ((i, n) ∷ m) h = ground (arith, drop-none j k m, h)

  drop-HasDistinctNames :
      (k : Text) (m : List (Text × N)) → HasDistinctNames m → HasDistinctNames (drop k m)
  drop-HasDistinctNames k [] h = tt
  drop-HasDistinctNames k ((i, n) ∷ m) h =
      ground (arith, drop-HasDistinctNames k m h.1, drop-none i k m h.0, h)

  find_named : (j k : Text) (m : List (Text × N)) → is_name j k ≡ true → find j m ≡ find k m
  find_named j k m h = ap (λ x. find x m) (is_name_iff j k h)

  abbrev pub Outcome : Text → Option N → GroupNode N → Type 0
  Outcome k node g =
      let a = add_child_as k node g in
      let r = remove_child k g in
      let s = set_child k node g in
      let there = is_some (find k g.children) in
      (a.0 ≡ elim node [
        | none ↦ param_cannot_be_null
        | some n ↦ if there then key_exists else success
      ])
      × (r.0 ≡ (if there then success else key_not_found))
      × (s.0 ≡ (
          if there
          then elim node [ none ↦ param_cannot_be_null | some n ↦ success ]
          else key_not_found))
      × ((j : Text)
          → (find j a.1.children ≡ (if is_name j k && not there then node else find j g.children))
            × (find j r.1.children ≡ (if is_name j k then none else find j g.children))
            × (find j s.1.children ≡ (if is_name j k && there then node else find j g.children)))
      × HasDistinctNames a.1.children
      × HasDistinctNames r.1.children
      × HasDistinctNames s.1.children

  missing_lem :
      (k : Text) (node : Option N) (g : GroupNode N)
      → HasDistinctNames g.children
      → find k g.children ≡ none
      → Outcome k node g
  unfolding add_child_as remove_child set_child
  missing_lem k none g h e =
      let f : (j : Text) → is_name j k ≡ true → find j g.children ≡ none =
        λ j t. find_named j k g.children t ∙ e in
      (
        refl,
        ground (arith, e),
        ground (arith, e),
        λ j. (ground (arith, e, f j), ground (arith, e, f j), ground (arith, e)),
        h,
        ground (arith, e, h),
        ground (arith, e, h),
      )
  missing_lem k (some n) g h e =
      let f : (j : Text) → is_name j k ≡ true → find j g.children ≡ none =
        λ j t. find_named j k g.children t ∙ e in
      (
        ground (arith, e),
        ground (arith, e),
        ground (arith, e),
        λ j. (ground (arith, e, f j), ground (arith, e, f j), ground (arith, e)),
        ground (arith, e, h),
        ground (arith, e, h),
        ground (arith, e, h),
      )

  there_lem :
      (k : Text) (node : Option N) (g : GroupNode N) (n : N)
      → HasDistinctNames g.children
      → find k g.children ≡ some n
      → Outcome k node g
  unfolding add_child_as remove_child set_child
  there_lem k none g n h e =
      let d = drop-HasDistinctNames k g.children h in
      (
        refl,
        ground (arith, e),
        ground (arith, e),
        λ j. (
          ground (arith, e),
          ground (arith, e, find-drop k j g.children h),
          ground (arith, e, find-drop k j g.children h),
        ),
        h,
        ground (arith, e, d),
        ground (arith, e, d),
      )
  there_lem k (some v) g n h e =
      let d = drop-HasDistinctNames k g.children h in
      let z = find-drop_self k g.children h in
      (
        ground (arith, e),
        ground (arith, e),
        ground (arith, e, z),
        λ j. (
          ground (arith, e),
          ground (arith, e, find-drop k j g.children h),
          ground (arith, e, z, find-drop k j g.children h),
        ),
        ground (arith, e, h),
        ground (arith, e, d),
        ground (arith, e, z, d),
      )

  -- In a group where no name stands twice: adding fails for a null node and for a name that is taken,
  -- and changes nothing then; removing fails for a name that is not there; setting fails for both a
  -- missing name, which changes nothing, and a null node, which takes the old node out all the same.
  -- Otherwise exactly the named node changes. No name stands twice afterwards.
  pub children_lem :
      (k : Text) (node : Option N) (g : GroupNode N)
      → HasDistinctNames g.children
      → Outcome k node g
  children_lem k node g h = elim (Option-cases (find k g.children)) [
    | inl e ↦ missing_lem k node g h e
    | inr (n, e) ↦ there_lem k node g n h e
  ]
