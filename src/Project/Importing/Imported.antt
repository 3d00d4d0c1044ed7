-- ===== src/Project/Importing/Imported.antt =====
-- The provinces of shapes that part the image, and the image that they are written out to again.
use ho_i4_mod_development_to.Base.{
  ℕ, zero, suc, ◌+◌, ◌≡◌, ◌≢◌, refl, sym, ◌∙◌, ap, subst, ◌⊎◌, true, false, Option, none, some,
  List, [], ◌∷◌, length, get_elem?, ◌==◌, ==_iff, ==_ne, ==_self, inl, inr, arith, Bool-cases,
}
use mathlib.Core.Option.{some-injective}
use ho_i4_mod_development_to.Base.Dict
use ho_i4_mod_development_to.Base.Dict.{Dict}
use ho_i4_mod_development_to.Project.{ProvinceId, invalid_province, Province, Project}
use ho_i4_mod_development_to.Project.Importing.{
  province_of, create_provinces, create_provinces_from_shape_list,
}
use ho_i4_mod_development_to.Project.{is_valid_province_id, get_province_for_id}
use ho_i4_mod_development_to.Project.Merging.{get_root_province_parent}
use ho_i4_mod_development_to.Project.Graphics.{Image, get_province_colors_for_export}
use ho_i4_mod_development_to.Project.Graphics.Cells.{IsDrawable}
use ho_i4_mod_development_to.Project.Graphics.Colored.{Rooted, export_lem}
use ho_i4_mod_development_to.Shapes.{Point2d, Dimensions, xy_to_index, get_color_at}
use ho_i4_mod_development_to.Shapes.Neighbours.{IsInside}
use ho_i4_mod_development_to.Shapes.Finder.{Polygon}
use ho_i4_mod_development_to.Shapes.Finder.Matrix.{Fits}
use ho_i4_mod_development_to.Shapes.Finder.Whole.{Whole}

-- No two of the shapes have one label.
abbrev pub IsApart : List Polygon → Type 0
IsApart shapes =
    (i j : ℕ) (s t : Polygon)
    → get_elem? shapes i ≡ some s
    → get_elem? shapes j ≡ some t
    → s.id ≡ t.id
    → i ≡ j

-- A province comes from a shape, or it was there before.
Comes : List Polygon → Dict Province → ProvinceId → Province → Type 0
Comes shapes m k prov =
    ((i : ℕ) × (s : Polygon) × (get_elem? shapes i ≡ some s) × (s.id ≡ k) × (prov ≡ province_of s))
    ⊎ (Dict.lookup k m ≡ some prov)

create_provinces-Comes :
    (shapes : List Polygon) (m : Dict Province) (k : ProvinceId) (prov : Province)
    → Dict.lookup k (create_provinces shapes m) ≡ some prov
    → Comes shapes m k prov
unfolding create_provinces Comes
create_provinces-Comes [] m k prov e = inr e
create_provinces-Comes (x ∷ xs) m k prov e =
    elim (create_provinces-Comes xs (Dict.insert x.id (province_of x) m) k prov e) [
      | inl (i, s, g, own, same) ↦ inl (suc i, s, g, own, same)
      | inr f ↦ elim (Bool-cases (x.id == k)) [
        | inl t ↦ inl (
          0,
          x,
          refl,
          (==_iff x.id k).0 t,
          ground (arith, t, f, Dict.lookup-insert x.id k (province_of x) m),
        )
        | inr t ↦ inr (ground (arith, t, f, Dict.lookup-insert x.id k (province_of x) m))
      ]
    ]

IsApart-tail : (x : Polygon) (xs : List Polygon) → IsApart (x ∷ xs) → IsApart xs
IsApart-tail x xs h i j s t a b e =
    (let n : suc i ≡ suc j = h (suc i) (suc j) s t a b e in omega (arith, n))

-- Where the label of no shape is that of a province, the province stays.
create_provinces_other :
    (shapes : List Polygon) (m : Dict Province) (k : ProvinceId)
    → ((i : ℕ) (s : Polygon) → get_elem? shapes i ≡ some s → s.id ≢ k)
    → Dict.lookup k (create_provinces shapes m) ≡ Dict.lookup k m
unfolding create_provinces
create_provinces_other [] m k h = refl
create_provinces_other (x ∷ xs) m k h =
    create_provinces_other xs (Dict.insert x.id (province_of x) m) k (λ i. h (suc i))
    ∙ ground (arith, Dict.lookup-insert x.id k (province_of x) m, ==_ne x.id k (h 0 x refl))

create_provinces_at :
    (shapes : List Polygon) (m : Dict Province) (i : ℕ) (s : Polygon)
    → IsApart shapes
    → get_elem? shapes i ≡ some s
    → Dict.lookup s.id (create_provinces shapes m) ≡ some (province_of s)
unfolding create_provinces
create_provinces_at [] m i s h g = absurd cc
create_provinces_at (x ∷ xs) m zero s h g =
    let same : x ≡ s = some-injective _ _ g in
    create_provinces_other xs (Dict.insert x.id (province_of x) m) s.id (λ i t f e. absurd (
      let no : suc i ≡ 0 = h (suc i) 0 t x f refl (e ∙ ap (λ v. v.id) (sym same)) in
      omega (arith, no)))
    ∙ subst (λ v. Dict.lookup v.id (Dict.insert x.id (province_of x) m) ≡ some (province_of v)) same
        (ground (arith, Dict.lookup-insert x.id x.id (province_of x) m, ==_self x.id))
create_provinces_at (x ∷ xs) m (suc i) s h g =
    create_provinces_at xs (Dict.insert x.id (province_of x) m) i s (IsApart-tail x xs h) g

create_provinces-size :
    (shapes : List Polygon) (m : Dict Province)
    → IsApart shapes
    → ((i : ℕ) (s : Polygon) → get_elem? shapes i ≡ some s → Dict.has s.id m ≡ false)
    → Dict.size (create_provinces shapes m) ≡ length shapes + Dict.size m
unfolding create_provinces
create_provinces-size [] m h new = omega arith
create_provinces-size (x ∷ xs) m h new =
    let wider = Dict.insert x.id (province_of x) m in
    let apart : (i : ℕ) (s : Polygon) → get_elem? xs i ≡ some s → Dict.has s.id wider ≡ false =
      λ i s g. elim (Bool-cases (x.id == s.id)) [
        | inl t ↦ absurd (
            let no : 0 ≡ suc i = h 0 (suc i) x s refl g ((==_iff x.id s.id).0 t) in
            omega (arith, no))
        | inr t ↦ ground (arith, t, new (suc i) s g, Dict.lookup-insert x.id s.id (province_of x) m)
      ] in
    omega (
      arith,
      create_provinces-size xs wider (IsApart-tail x xs h) apart,
      Dict.size-insert_new x.id (province_of x) m (new 0 x refl),
    )

-- Shapes with different labels give as many provinces as there are shapes: every shape has one under its
-- label, and every province is that of a shape.
pub create_provinces_from_shape_list_lem :
    (shapes : List Polygon)
    → IsApart shapes
    → ((i : ℕ) (s : Polygon)
        → get_elem? shapes i ≡ some s
        → Dict.lookup s.id (create_provinces_from_shape_list shapes) ≡ some (province_of s))
      × ((k : ProvinceId) (prov : Province)
          → Dict.lookup k (create_provinces_from_shape_list shapes) ≡ some prov
          → (i : ℕ) × (s : Polygon) × (get_elem? shapes i ≡ some s)
            × (s.id ≡ k)
            × (prov ≡ province_of s))
      × (Dict.size (create_provinces_from_shape_list shapes) ≡ length shapes)
unfolding create_provinces_from_shape_list Comes
create_provinces_from_shape_list_lem shapes h = (
  (λ i s g. create_provinces_at shapes [] i s h g),
  (λ k prov e. elim (create_provinces-Comes shapes [] k prov e) [
    | inl f ↦ f
    | inr f ↦ absurd (let no : ◌≡◌ {A = Option Province} none (some prov) = f in cc)
  ]),
  omega (arith, create_provinces-size shapes [] h (λ i s g. refl)),
)

-- The project with the provinces of the shapes.
abbrev pub imported : List Polygon → Project → Project
imported shapes p = record p { provinces = create_provinces_from_shape_list shapes }

module _ (d : Dimensions) (bytes : ℕ → ℕ) (fits : Fits d) (drawable : IsDrawable d)
    (labels : ℕ → ProvinceId) (shapes : List Polygon) (p : Project) where
  -- A province that was just made is its own root.
  imported_climb :
      (n : ℕ) (i : ℕ) (s : Polygon)
      → IsApart shapes
      → get_elem? shapes i ≡ some s
      → s.id ≢ invalid_province
      → Rooted d labels (imported shapes p) drawable (suc n) s.id s.id (province_of s)
  unfolding get_province_for_id get_root_province_parent
  imported_climb n i s h g nil =
      let e = (create_provinces_from_shape_list_lem shapes h).0 i s g in
      let no = ==_ne s.id invalid_province nil in
      record { climbs = ground (arith, e, no); there = e; top = ground (arith, e) }

  imported_valid :
      (i : ℕ) (s : Polygon)
      → IsApart shapes
      → get_elem? shapes i ≡ some s
      → is_valid_province_id s.id (imported shapes p) ≡ true
  unfolding is_valid_province_id
  imported_valid i s h g =
      let e = (create_provinces_from_shape_list_lem shapes h).0 i s g in ground (arith, e)

  Rooted-unique :
      (fuel : ℕ) (k root other : ProvinceId) (prov found : Province)
      → Rooted d labels (imported shapes p) drawable fuel k root prov
      → Rooted d labels (imported shapes p) drawable fuel k other found
      → found ≡ prov
  Rooted-unique fuel k root other prov found r t =
      let a : root ≡ other = ground (arith, r.climbs, t.climbs) in
      let b : get_province_for_id root (imported shapes p) ≡ some found =
        subst (λ z. get_province_for_id z (imported shapes p) ≡ some found) (sym a) t.there in
      some-injective _ _ (sym b ∙ r.there)

  -- Where a uint32_t can index the bytes of the image, shapes part the image and none has the
  -- invalid label, their provinces can be written out on any fuel but 0: each pixel of the image
  -- has the unique colour of the shape that it is in, whatever the project held before and
  -- whatever the new array holds.
  pub import_lem :
      Whole d bytes fits labels shapes
      → ((i : ℕ) (s : Polygon) → get_elem? shapes i ≡ some s → s.id ≢ invalid_province)
      → (n : ℕ) (fresh : Image)
      → (out : Image) × (get_province_colors_for_export d labels (imported shapes p) (suc n) fresh
          ≡ some (some out))
        × ((q : Point2d)
            → IsInside d q
            → (i : ℕ) × (s : Polygon) × (get_elem? shapes i ≡ some s)
              × (s.id ≡ labels (xy_to_index d.w q.x q.y))
              × (get_color_at d out q.x q.y ≡ s.unique_color))
  import_lem w named n fresh =
      let (out, e, x) =
        export_lem d labels (imported shapes p) drawable (suc n)
          (λ q i v. let (k, s, g, own, r, _) = shape_at q i in (s.id, province_of s, r)) fresh in
      (
        out,
        e,
        λ q i.
            let (k, s, g, own, r, v) = shape_at q i in
            let (root, prov, t, c) = x.of_root q i v in
            let same =
              Rooted-unique (suc n) (labels (xy_to_index d.w q.x q.y)) s.id root (province_of s)
                prov r t in
            (k, s, g, own, c ∙ ap (λ v. v.unique_color) same),
      )
    where
      shape_at :
          (q : Point2d)
          → IsInside d q
          → (k : ℕ) × (s : Polygon) × (get_elem? shapes k ≡ some s)
            × (s.id ≡ labels (xy_to_index d.w q.x q.y))
            × Rooted d labels
                (imported shapes p)
                drawable
                (suc n)
                (labels (xy_to_index d.w q.x q.y))
                s.id
                (province_of s)
            × (is_valid_province_id (labels (xy_to_index d.w q.x q.y)) (imported shapes p) ≡ true)
      shape_at q i =
          let (k, s, g, e) = w.covers q i in
          let r = imported_climb n k s w.apart g (named k s g) in
          (
            k,
            s,
            g,
            e,
            subst (λ z. Rooted d labels (imported shapes p) drawable (suc n) z s.id (province_of s))
                e r,
            subst (λ z. is_valid_province_id z (imported shapes p) ≡ true) e
                (imported_valid k s w.apart g),
          )
