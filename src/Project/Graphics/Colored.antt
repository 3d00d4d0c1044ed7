-- ===== src/Project/Graphics/Colored.antt =====
-- The colours that the map gets, and those that are written out.
use ho_i4_mod_development_to.Base.{
  ℕ, ◌≡◌, refl, ◌∙◌, ap, true, false, Option, none, some, if◌then◌else◌, inl, inr, arith,
  Bool-cases, Option-cases,
}
use ho_i4_mod_development_to.Base.Dict
use ho_i4_mod_development_to.Base.Ord.{Ord}
use ho_i4_mod_development_to.Status.{ok, error}
use ho_i4_mod_development_to.Colors.{Color}
use ho_i4_mod_development_to.Project.{
  ProvinceId, invalid_province, Province, Project, is_valid_province_id, get_province_for_id,
}
use ho_i4_mod_development_to.Project.Merging.{get_root_province_parent}
use ho_i4_mod_development_to.Project.Merging.Forest.{
  parent_of, IsForest, get_root_province_parent_enough,
}
use ho_i4_mod_development_to.Shapes.{Point2d, Dimensions, xy_to_index, get_color_at}
use ho_i4_mod_development_to.Shapes.Neighbours.{IsInside}
use ho_i4_mod_development_to.Shapes.Loops.{more}
use ho_i4_mod_development_to.Project.Graphics.{
  Image, cell, write_cell, color_pixel, build_graphics_data, export_pixel,
  get_province_colors_for_export,
}
use ho_i4_mod_development_to.Project.Graphics.Cells.{IsDrawable, Cell, bytes_at, for_columns_lem}

-- A colour with its red and its blue exchanged.
abbrev pub flipped : Color → Color
flipped c = record { r = c.b; g = c.g; b = c.r }

abbrev color_of_cell : Cell → Color
color_of_cell c = record { r = c.0; g = c.1; b = c.2 }

module _ (d : Dimensions) (labels : ℕ → ProvinceId) (p : Project) (h : IsDrawable d) where
  abbrev id_of : Point2d → ProvinceId
  id_of q = labels (xy_to_index d.w q.x q.y)

  color_at : (m : Image) (q : Point2d) → get_color_at d m q.x q.y ≡ color_of_cell (bytes_at d h m q)
  unfolding get_color_at cell
  color_at m q = refl

  abbrev shown : Point2d → Option Cell
  shown q = elim (get_province_for_id (id_of q) p) [
    | none ↦ none
    | some prov ↦ some (prov.unique_color.b, prov.unique_color.g, prov.unique_color.r)
  ]

  color_pixel_lem :
      (q : Point2d) (m : Image)
      → color_pixel d labels p q m
        ≡ more (elim (shown q) [ none ↦ m | some c ↦ write_cell (cell d q) c.0 c.1 c.2 m ])
  unfolding color_pixel
  color_pixel_lem q m = elim (Option-cases (get_province_for_id (id_of q) p)) [
    | inl e ↦ ground (arith, e)
    | inr (prov, e) ↦ ground (arith, e)
  ]

  show_one :
      (start : Image) (q : Point2d)
      → color_of_cell (elim (shown q) [ none ↦ bytes_at d h start q | some c ↦ c ])
        ≡ (elim (get_province_for_id (id_of q) p) [
          | none ↦ get_color_at d start q.x q.y
          | some prov ↦ flipped prov.unique_color
        ])
  show_one start q = elim (Option-cases (get_province_for_id (id_of q) p)) [
    | inl e ↦ ground (arith, e, color_at start q)
    | inr (prov, e) ↦ ground (arith, e)
  ]

  -- Where a uint32_t can index the bytes of the image, the loop over the map ends with every pixel
  -- of a province in its colour, with red and blue exchanged, and every other pixel of the map as
  -- it was.
  pub build_graphics_data_lem :
      (start : Image)
      → (out : Image) × (build_graphics_data d labels p start ≡ more out)
        × ((q : Point2d)
            → IsInside d q
            → get_color_at d out q.x q.y ≡ (elim (get_province_for_id (id_of q) p) [
              | none ↦ get_color_at d start q.x q.y
              | some prov ↦ flipped prov.unique_color
            ]))
  unfolding build_graphics_data
  build_graphics_data_lem start =
      let (out, e, f) =
        for_columns_lem d h (color_pixel d labels p) shown start (λ q m i. color_pixel_lem q m) in
      (out, e, λ q i. color_at out q ∙ (ap color_of_cell (f q i) ∙ show_one start q))

  -- What the climb from a province leads to, on some fuel.
  pub record Rooted (fuel : ℕ) (k root : ProvinceId) (prov : Province) : Type 0 where
    pub climbs : get_root_province_parent fuel k p ≡ some (ok root)
    pub there : get_province_for_id root p ≡ some prov
    pub top : parent_of p root ≡ invalid_province

  -- What is written out: a pixel of a province has the colour of the root of its province, and every
  -- other pixel is what the new array held.
  pub record Exported (fuel : ℕ) (fresh out : Image) : Type 0 where
    pub of_root :
        (q : Point2d)
        → IsInside d q
        → is_valid_province_id (id_of q) p ≡ true
        → (root : ProvinceId) × (prov : Province) × Rooted fuel (id_of q) root prov
          × (get_color_at d out q.x q.y ≡ prov.unique_color)
    pub of_none :
        (q : Point2d)
        → IsInside d q
        → is_valid_province_id (id_of q) p ≡ false
        → get_color_at d out q.x q.y ≡ get_color_at d fresh q.x q.y

  module _ (fuel : ℕ)
      (climb : (q : Point2d)
        → IsInside d q
        → is_valid_province_id (id_of q) p ≡ true
        → (root : ProvinceId) × (prov : Province) × Rooted fuel (id_of q) root prov) where
    abbrev written : Point2d → Option Cell
    written q =
        if is_valid_province_id (id_of q) p
        then (elim (get_root_province_parent fuel (id_of q) p) [
          | none ↦ none
          | some (error s) ↦ none
          | some (ok root) ↦ elim (get_province_for_id root p) [
            | none ↦ none
            | some prov ↦ some (prov.unique_color.r, prov.unique_color.g, prov.unique_color.b)
          ]
        ])
        else none

    export_pixel_lem :
        (q : Point2d) (m : Image)
        → IsInside d q
        → export_pixel d labels p fuel q m
          ≡ more (elim (written q) [ none ↦ m | some c ↦ write_cell (cell d q) c.0 c.1 c.2 m ])
    unfolding export_pixel
    export_pixel_lem q m i = elim (Bool-cases (is_valid_province_id (id_of q) p)) [
      | inl v ↦ let (root, prov, r) = climb q i v in ground (arith, v, r.climbs, r.there)
      | inr v ↦ ground (arith, v)
    ]

    pub export_lem :
        (fresh : Image)
        → (out : Image) × (get_province_colors_for_export d labels p fuel fresh ≡ some (some out))
          × Exported fuel fresh out
    unfolding get_province_colors_for_export
    export_lem fresh =
        let (out, e, f) =
          for_columns_lem d h (export_pixel d labels p fuel) written fresh export_pixel_lem in
        (
          out,
          ground (arith, e),
          record {
            of_root = λ q i v.
                let (root, prov, r) = climb q i v in
                let c : Color = prov.unique_color in
                let own : written q ≡ some (c.r, c.g, c.b) = ground (arith, v, r.climbs, r.there) in
                (root, prov, r, color_at out q ∙ (ap color_of_cell (f q i) ∙ ground (arith, own)));
            of_none = λ q i v.
                let own : written q ≡ none = ground (arith, v) in
                color_at out q ∙ (ap color_of_cell (f q i) ∙ ground (arith, own, color_at fresh q));
          },
        )

  forest_climb :
      (o : Ord ProvinceId) (depth : ℕ)
      → IsForest o depth p
      → (k : ProvinceId) → is_valid_province_id k p ≡ true
      → (root : ProvinceId) × (prov : Province) × Rooted depth k root prov
  unfolding is_valid_province_id get_province_for_id
  forest_climb o depth forest k v =
      let (root, e, t, top) =
        get_root_province_parent_enough o depth p forest depth k v (forest.short k) in
      let (prov, g) = Dict.lookup_of_has root p.provinces t in
      (root, prov, record { climbs = e; there = g; top = top })

  -- Where a uint32_t can index the bytes of the image, merged provinces form a forest and the fuel
  -- is its depth, writing out the map ends with an image: each pixel of a province has the colour
  -- of the root of its province, and every other pixel is what the new array held.
  pub get_province_colors_for_export_lem :
      (o : Ord ProvinceId) (depth : ℕ)
      → IsForest o depth p
      → (fresh : Image)
      → (out : Image) × (get_province_colors_for_export d labels p depth fresh ≡ some (some out))
        × Exported depth fresh out
  get_province_colors_for_export_lem o depth forest =
      export_lem depth (λ q i. forest_climb o depth forest (id_of q))
