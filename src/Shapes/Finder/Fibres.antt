-- ===== src/Shapes/Finder/Fibres.antt =====
-- When the shapes are those of the labels: each shape has the pixels of its label, each once.
use ho_i4_mod_development_to.Base.{
  ℕ, ◌≡◌, ◌⊎◌, sym, ◌∙◌, ap, Bool, true, false, ◌&&◌, none, some, List, [], ◌∷◌, ◌++◌, length, inl,
  inr, if◌then◌else◌, ◌==◌, ==_iff, ==_ne, ==_self, get_elem?, All, arith, Bool-cases, subst,
}
use mathlib.Core.Option.{some-injective}
use ho_i4_mod_development_to.Base.Dict
use ho_i4_mod_development_to.Base.Dict.{Dict}
use ho_i4_mod_development_to.Project.{ProvinceId}
use ho_i4_mod_development_to.Shapes.{Point2d, Dimensions}
use ho_i4_mod_development_to.Shapes.Neighbours.{IsInside}
use ho_i4_mod_development_to.Shapes.Finder.{Polygon, write, color_of, index_of}
use ho_i4_mod_development_to.Shapes.Finder.Matrix.{Fits, same_point, eq_of_same_point, at, at-write}
use ho_i4_mod_development_to.Shapes.Finder.Editing.{count, get_elem?-append, get_elem?-length}

module _ (d : Dimensions) (bytes : ℕ → ℕ) (fits : Fits d) where
  -- The shapes of the pixels that are done, where the dictionary has the place of each label's shape.
  pub record Shaped (labels : ℕ → ProvinceId) (is_done : Point2d → Bool) (idx : Dict ℕ)
      (shapes : List Polygon) : Type 0 where
    pub indexed :
        (l : ProvinceId) (i : ℕ)
        → Dict.lookup l idx ≡ some i
        → (s : Polygon) × (get_elem? shapes i ≡ some s) × (s.id ≡ l)
    pub known : (i : ℕ) (s : Polygon) → get_elem? shapes i ≡ some s → Dict.lookup s.id idx ≡ some i
    pub reached :
        (p : Point2d)
        → IsInside d p
        → is_done p ≡ true
        → (i : ℕ) × (Dict.lookup (at d fits labels p) idx ≡ some i)
    pub exact :
        (i : ℕ) (s : Polygon) (p : Point2d)
        → get_elem? shapes i ≡ some s
        → IsInside d p
        → count p s.pixels ≡ (if is_done p && at d fits labels p == s.id then 1 else 0)
    pub within :
        (i : ℕ) (s : Polygon)
        → get_elem? shapes i ≡ some s
        → All (λ x. IsInside d x.point × (x.color ≡ color_of d bytes x.point)) s.pixels

  pub Shaped-same :
      {labels : ℕ → ProvinceId} {before after : Point2d → Bool} {idx : Dict ℕ}
      {shapes : List Polygon}
      → ((p : Point2d) → IsInside d p → before p ≡ after p)
      → Shaped labels before idx shapes
      → Shaped labels after idx shapes
  Shaped-same {labels} e h = record {
    indexed = h.indexed;
    known = h.known;
    reached = λ p i t. h.reached p i (e p i ∙ t);
    exact = λ i s p g j.
        subst (λ b. count p s.pixels ≡ (if b && at d fits labels p == s.id then 1 else 0)) (e p j)
          (h.exact i s p g j);
    within = h.within;
  }

  -- The label of a pixel that is not done does not matter.
  pub Shaped-write :
      {labels : ℕ → ProvinceId} {is_done : Point2d → Bool} {idx : Dict ℕ} {shapes : List Polygon}
      (p : Point2d) (l : ProvinceId)
      → IsInside d p
      → is_done p ≡ false
      → Shaped labels is_done idx shapes
      → Shaped (write (index_of d bytes p) l labels) is_done idx shapes
  Shaped-write {labels} {is_done} {idx} p l i n h = record {
    indexed = h.indexed;
    known = h.known;
    reached = λ q j t.
        subst (λ z. (k : ℕ) × (Dict.lookup z idx ≡ some k)) (sym (kept q j t)) (h.reached q j t);
    exact = λ k s q g j. elim (Bool-cases (is_done q)) [
      | inl t ↦
          subst (λ z. count q s.pixels ≡ (if is_done q && z == s.id then 1 else 0))
            (sym (kept q j t)) (h.exact k s q g j)
      | inr t ↦ ground (arith, t, h.exact k s q g j)
    ];
    within = h.within;
  }
    where
      kept :
          (q : Point2d)
          → IsInside d q
          → is_done q ≡ true
          → at d fits (write (index_of d bytes p) l labels) q ≡ at d fits labels q
      kept q j t = elim (Bool-cases (same_point p q)) [
        | inl e ↦ absurd (ground (arith, n, t, ap is_done (eq_of_same_point p q e)))
        | inr e ↦ ground (arith, at-write d fits bytes p q l labels i j, e)
      ]

  -- A label that has no shape gets an empty one, behind the others.
  pub Shaped-ensure :
      {labels : ℕ → ProvinceId} {is_done : Point2d → Bool} {idx : Dict ℕ} {shapes : List Polygon}
      (s : Polygon)
      → s.pixels ≡ []
      → Dict.lookup s.id idx ≡ none
      → Shaped labels is_done idx shapes
      → Shaped labels is_done (Dict.insert s.id (length shapes) idx) (shapes ++ s ∷ [])
  Shaped-ensure {labels} {is_done} {idx} {shapes} s empty new h = record {
    indexed = λ l i o. elim (Bool-cases (s.id == l)) [
      | inl y ↦
          let at_end : length shapes ≡ i =
            some-injective _ _
              (ground (arith, Dict.lookup-insert s.id l (length shapes) idx, o, y)) in
          (s, ground (arith, get_elem?-append shapes s i, at_end), (==_iff s.id l).0 y)
      | inr y ↦
          let (t, a, b) =
            h.indexed l i (ground (arith, Dict.lookup-insert s.id l (length shapes) idx, o, y)) in
          let before = get_elem?-length shapes i t a in
          (t, ground (arith, get_elem?-append shapes s i, before, a), b)
    ];
    known = λ k t o. elim (which k t o) [
      | inl (y, z) ↦
          subst (λ v. Dict.lookup v.id (Dict.insert s.id (length shapes) idx) ≡ some k) z
            (ground (arith, Dict.lookup-insert s.id s.id (length shapes) idx, ==_self s.id, y))
      | inr y ↦
          let k' = h.known k t y in
          let ne : (s.id == t.id) ≡ false =
            ==_ne s.id t.id
              (λ e. absurd (ground (arith, new, k', ap (λ v. Dict.lookup v idx) e))) in
          ground (arith, Dict.lookup-insert s.id t.id (length shapes) idx, ne, k')
    ];
    reached = λ q j t.
        let (k, e) = h.reached q j t in
        let ne : (s.id == at d fits labels q) ≡ false =
          ==_ne s.id (at d fits labels q)
            (λ f. absurd (ground (arith, new, e, ap (λ v. Dict.lookup v idx) f))) in
        (
          k,
          ground (arith, Dict.lookup-insert s.id (at d fits labels q) (length shapes) idx, ne, e),
        );
    exact = λ k t q o j. elim (which k t o) [
      | inl (y, z) ↦
          subst (λ v. count q v.pixels ≡ (if is_done q && at d fits labels q == v.id then 1 else 0))
            z
            (subst (λ v. count q v ≡ (if is_done q && at d fits labels q == s.id then 1 else 0))
              (sym empty) (none_yet q j))
      | inr y ↦ h.exact k t q y j
    ];
    within = λ k t o. elim (which k t o) [
      | inl (y, z) ↦
          subst (λ v. All (λ w. IsInside d w.point × (w.color ≡ color_of d bytes w.point)) v.pixels)
            z
            (subst (All (λ w. IsInside d w.point × (w.color ≡ color_of d bytes w.point)))
              (sym empty) tt)
      | inr y ↦ h.within k t y
    ];
  }
    where
      which :
          (k : ℕ) (t : Polygon)
          → get_elem? (shapes ++ s ∷ []) k ≡ some t
          → (length shapes ≡ k) × (s ≡ t) ⊎ (get_elem? shapes k ≡ some t)
      which k t o = elim (Bool-cases (length shapes == k)) [
        | inl y ↦ inl (
          (==_iff _ k).0 y,
          some-injective _ _ (
              sym (
                subst
                  (λ b. get_elem? (shapes ++ s ∷ []) k ≡ (if b then some s else get_elem? shapes k))
                  y (get_elem?-append shapes s k))
              ∙ o),
        )
        | inr y ↦ inr (ground (arith, get_elem?-append shapes s k, y, o))
      ]

      none_yet :
          (q : Point2d)
          → IsInside d q
          → count q [] ≡ (if is_done q && at d fits labels q == s.id then 1 else 0)
      none_yet q j = elim (Bool-cases (is_done q)) [
        | inr t ↦ ground (arith, t)
        | inl t ↦
            let (k, e) = h.reached q j t in
            let ne : (at d fits labels q == s.id) ≡ false =
              ==_ne _ _ (λ f. absurd (ground (arith, new, e, ap (λ v. Dict.lookup v idx) f))) in
            ground (arith, t, ne)
      ]
