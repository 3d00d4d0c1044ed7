-- ===== src/Shapes/Finder/Linking.antt =====
-- Linking two labels: both have the label that the pixel takes as their root.
use ho_i4_mod_development_to.Base.{
  ◌≡◌, ◌≢◌, refl, sym, ◌∙◌, ap, false, none, some, inl, inr, if◌then◌else◌, ◌==◌, ==_iff, ==_ne,
  ==_self, arith, Bool-cases, subst,
}
use mathlib.Core.Option.{some-injective}
use Prim.Native.Nat.Ordering.{lt}
use ho_i4_mod_development_to.Base.Ord.{Ord, Ordering-cases}
use ho_i4_mod_development_to.Base.Dict
use ho_i4_mod_development_to.Base.Dict.{Dict}
use ho_i4_mod_development_to.Project.{ProvinceId}
use ho_i4_mod_development_to.Shapes.Finder.{get_root_label, link_labels, min_label, max_label}
use ho_i4_mod_development_to.Shapes.Finder.Roots.{
  Leads, here, link, IsDescending, get_root_label_lem,
}

-- The links from a label end at one root.
Leads-unique :
    {m : Dict ProvinceId} {k a b : ProvinceId}
    → Leads m k a
    → Dict.lookup a m ≡ none
    → Leads m k b
    → Dict.lookup b m ≡ none
    → a ≡ b
Leads-unique here e here f = refl
Leads-unique here e (link g q) f = absurd (ground (arith, e, g))
Leads-unique (link g p) e here f = absurd (ground (arith, f, g))
Leads-unique {m} {k} {a} {b} (link {v = u} g p) e (link {v = w} h q) f =
    Leads-unique p e (subst (λ z. Leads m z b) (some-injective _ _ (sym h ∙ g)) q) f

module _ (o : Ord ProvinceId) where
  lt_ne : (a b : ProvinceId) → o.cmp a b ≡ lt → (b == a) ≡ false
  lt_ne a b h = ==_ne b a (λ e. absurd (ground (arith, h, o.cmp_self a, ap (o.cmp a) e)))

  -- A new parent of a greater label leaves the way from a label as it was.
  Leads-insert :
      {m : Dict ProvinceId} {k l : ProvinceId} (large small : ProvinceId)
      → IsDescending o m
      → o.cmp k large ≡ lt
      → Leads m k l
      → Leads (Dict.insert large small m) k l × (o.cmp l large ≡ lt)
  Leads-insert large small d h here = (here, h)
  Leads-insert {m} {k} large small d h (link {v} e p) =
      let (q, g) = Leads-insert large small d (o.trans v k large (d k v e) h) p in
      (link (ground (arith, Dict.lookup-insert large k small m, lt_ne k large h, e)) q, g)

  insert-IsDescending :
      (m : Dict ProvinceId) (large small : ProvinceId)
      → IsDescending o m
      → o.cmp small large ≡ lt
      → IsDescending o (Dict.insert large small m)
  insert-IsDescending m large small d h k v e = elim (Bool-cases (large == k)) [
    | inl y ↦
        let found =
          subst
            (λ b.
              Dict.lookup k (Dict.insert large small m)
              ≡ (if b then some small else Dict.lookup k m))
            y (Dict.lookup-insert large k small m) in
        subst (λ z. o.cmp v z ≡ lt) ((==_iff large k).0 y)
          (subst (λ z. o.cmp z large ≡ lt) (some-injective _ _ (sym found ∙ e)) h)
    | inr y ↦ d k v (ground (arith, Dict.lookup-insert large k small m, e, y))
  ]

  root-insert :
      (m : Dict ProvinceId) (large small root : ProvinceId)
      → IsDescending o m
      → o.cmp small large ≡ lt
      → get_root_label m small ≡ some root
      → let n = Dict.insert large small m in
        (get_root_label n small ≡ some root) × (get_root_label n large ≡ some root)
  root-insert m large small root d h e =
      let n = Dict.insert large small m in
      let dn = insert-IsDescending m large small d h in
      let (r, er, p, top) = get_root_label_lem o m small d in
      let same : r ≡ root = some-injective _ _ (sym er ∙ e) in
      let (q, below) = Leads-insert large small d h p in
      let up : Dict.lookup large n ≡ some small =
        ground (arith, Dict.lookup-insert large large small m, ==_self large) in
      let still : Dict.lookup r n ≡ none =
        ground (arith, Dict.lookup-insert large r small m, lt_ne r large below, top) in
      let (a, ea, pa, ta) = get_root_label_lem o n small dn in
      let (b, eb, pb, tb) = get_root_label_lem o n large dn in
      (
        ea ∙ ap some (Leads-unique pa ta q still ∙ same),
        eb ∙ ap some (Leads-unique pb tb (link up q) still ∙ same),
      )

  -- Where each link goes to a smaller label, linking two labels does not fail: the pixel takes a label
  -- that is the root of both of them afterwards, and each link still goes to a smaller label.
  pub link_labels_lem :
      (parents : Dict ProvinceId) (a b : ProvinceId)
      → IsDescending o parents
      → a ≢ b
      → (root : ProvinceId) × (after : Dict ProvinceId) × (link_labels o a b parents
          ≡ some (root, after))
        × (get_root_label after a ≡ some root)
        × (get_root_label after b ≡ some root)
        × IsDescending o after
  unfolding link_labels
  link_labels_lem parents a b d ne =
      let small = min_label o a b in
      let large = max_label o a b in
      let (root, e, _, _) = get_root_label_lem o parents small d in
      let after = Dict.insert large small parents in
      let run : link_labels o a b parents ≡ some (root, after) = rw (link_labels, e) refl in
      elim (Ordering-cases (o.cmp b a)) [
        | inl f ↦
            let s : small ≡ b = ground (arith, f) in
            let l : large ≡ a = ground (arith, o.flip b a f) in
            let h : o.cmp small large ≡ lt = rw (s, l) f in
            let (x, y) = root-insert parents large small root d h e in
            (
              root,
              after,
              run,
              subst (λ z. get_root_label after z ≡ some root) l y,
              subst (λ z. get_root_label after z ≡ some root) s x,
              insert-IsDescending parents large small d h,
            )
        | inr (inl f) ↦ absurd (ne (sym (o.eq_of_cmp b a f)))
        | inr (inr f) ↦
            let s : small ≡ a = ground (arith, f) in
            let l : large ≡ b = ground (arith, o.flip_gt b a f) in
            let h : o.cmp small large ≡ lt = rw (s, l) (o.flip_gt b a f) in
            let (x, y) = root-insert parents large small root d h e in
            (
              root,
              after,
              run,
              subst (λ z. get_root_label after z ≡ some root) s x,
              subst (λ z. get_root_label after z ≡ some root) l y,
              insert-IsDescending parents large small d h,
            )
      ]
