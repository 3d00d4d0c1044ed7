-- ===== src/Project/Outlines/Adjacent.antt =====
-- Which provinces are next to each other once the outlines are built.
use ho_i4_mod_development_to.Base.{
  ℕ, suc, ◌<◌, ◌≡◌, refl, sym, ◌∙◌, subst, true, false, inl, inr, ◌↔◌, arith, Option-cases,
  if◌then◌else◌,
}
use ho_i4_mod_development_to.Base.Ord.{Ord}
use ho_i4_mod_development_to.Base.Dict
use ho_i4_mod_development_to.Project.{ProvinceId, Project, get_province_for_id}
use ho_i4_mod_development_to.Project.Graphics.{Image, turned}
use ho_i4_mod_development_to.Shapes.{Point2d, Dimensions, calculate_adjacency}
use ho_i4_mod_development_to.Shapes.Neighbours.{IsImage, IsInside, is_border}
use ho_i4_mod_development_to.Shapes.Loops.{Loop, more, done, point, Ends, for_rows-Ends}
use ho_i4_mod_development_to.Project.Outlines.{draw_outline, outline_pixel, build_province_outlines}
use ho_i4_mod_development_to.Project.Outlines.Meeting.{Meets, label_of, Meets-sym}
use ho_i4_mod_development_to.Project.Outlines.Steps.{
  adjacent, AreSorted, Outlined, skip, noted, note,
}

module _ (o : Ord ProvinceId) (d : Dimensions) (graphics : Image) (labels : ℕ → ProvinceId)
    (start : Project) where
  outline-Outlined :
      (y x : ℕ) (s : Project × Image)
      → y < d.h
      → x < d.w
      → Outlined o d graphics labels start y x s
      → Ends
          (Outlined o d graphics labels start (suc y) x)
          (λ _. ⊥)
          (outline_pixel o d graphics labels (point x y) s)
  unfolding outline_pixel get_province_for_id
  outline-Outlined y x s b a h =
      let q = point x y in
      let key = label_of o d graphics labels q in
      let Goal = Ends {R = Unit} (Outlined o d graphics labels start (suc y) x) (λ _. ⊥) in
      elim (Option-cases (Dict.lookup key s.0.provinces)) [
        | inl e ↦
            let step : outline_pixel o d graphics labels q s ≡ more s = ground (arith, e) in
            subst Goal (sym step)
              (skip o d graphics labels start y x s h (sym (h.same key) ∙ ground (arith, e)))
        | inr (prov, e) ↦
            let r = calculate_adjacency o d graphics labels prov.adjacent_provinces q in
            let drawn = if r.0 then draw_outline d q s.1 else s.1 in
            let step : outline_pixel o d graphics labels q s
                ≡ more (noted o d graphics labels start key r.1 s.0, drawn) =
              ground (arith, e) in
            subst Goal (sym step) (note o d graphics labels start y x s prov drawn (a, b) h e)
      ]

  loop_end :
      AreSorted o start
      → (outlines : Image)
      → (s : Project × Image) × (build_province_outlines o d graphics labels (start, outlines)
          ≡ more s)
        × Outlined o d graphics labels start 0 d.w s
  unfolding build_province_outlines
  loop_end sorted outlines = ended _ (
      for_rows-Ends (λ p. outline_pixel o d graphics labels (turned p))
        (Outlined o d graphics labels start) (λ _. ⊥) 0 d.h d.w
        (λ y x s b a t. outline-Outlined y x s b a t) (λ x s t. next_column x s t) d.h (omega arith)
        d.w 0 (start, outlines) (omega arith)
        (record {
          same = λ k. refl;
          sorted = sorted;
          sound = λ k l a. inr a;
          kept = λ k l a. a;
          complete = λ q r dir i seen v e f. absurd (ground (arith, seen));
        }))
    where
      ended :
          (l : Loop (Project × Image) Unit)
          → Ends (Outlined o d graphics labels start 0 d.w) (λ _. ⊥) l
          → (s : Project × Image) × (l ≡ more s) × Outlined o d graphics labels start 0 d.w s
      ended (more s) h = (s, refl, h)
      ended (done r) h = absurd h

      next_column :
          (x : ℕ) (s : Project × Image)
          → Outlined o d graphics labels start d.h x s
          → Outlined o d graphics labels start 0 (suc x) s
      next_column x s h = record {
        same = h.same;
        sorted = h.sorted;
        sound = h.sound;
        kept = h.kept;
        complete = λ q r dir i seen v e f. h.complete q r dir i (ground (arith, seen, i.1)) v e f;
      }

  -- Building the outlines of a map without black pixels, whose sides are below 2 ^ 32, from
  -- provinces that have no neighbours yet, ends. Then a province names a label as its neighbour
  -- exactly where one of its pixels is next to a pixel of another colour that has the label; and
  -- where a province names another province, the other names it.
  pub build_province_outlines_lem :
      IsImage d
      → ((q : Point2d) → IsInside d q → is_border d graphics q ≡ false)
      → AreSorted o start
      → ((k l : ProvinceId) → adjacent o start k l ≡ false)
      → (outlines : Image)
      → (s : Project × Image) × (build_province_outlines o d graphics labels (start, outlines)
          ≡ more s)
        × ((k l : ProvinceId)
            → Dict.has k start.provinces ≡ true
            → (adjacent o s.0 k l ≡ true) ↔ Meets o d graphics labels k l)
        × ((k l : ProvinceId)
            → Dict.has l start.provinces ≡ true
            → adjacent o s.0 k l ≡ true
            → adjacent o s.0 l k ≡ true)
  build_province_outlines_lem image colored sorted alone outlines =
      let (s, e, h) = loop_end sorted outlines in
      (
        s,
        e,
        (λ k l v. (to_meeting s h k l, from_meeting s h k l v)),
        (λ k l v a.
            from_meeting s h l k v
              (Meets-sym o d graphics labels image colored k l (to_meeting s h k l a))),
      )
    where
      to_meeting :
          (s : Project × Image)
          → Outlined o d graphics labels start 0 d.w s
          → (k l : ProvinceId) → adjacent o s.0 k l ≡ true
          → Meets o d graphics labels k l
      to_meeting s h k l a = elim (h.sound k l a) [
        | inl m ↦ m
        | inr b ↦ absurd (let no_way : false ≡ true = sym (alone k l) ∙ b in cc)
      ]

      from_meeting :
          (s : Project × Image)
          → Outlined o d graphics labels start 0 d.w s
          → (k l : ProvinceId) → Dict.has k start.provinces ≡ true
          → Meets o d graphics labels k l
          → adjacent o s.0 k l ≡ true
      from_meeting s h k l v m =
          subst (λ z. adjacent o s.0 z l ≡ true) m.of_from
            (subst (λ z. adjacent o s.0 (label_of o d graphics labels m.from) z ≡ true) m.of_to
              (h.complete m.from m.to m.dir m.inside (ground (arith, m.inside.0))
                (subst (λ z. Dict.has z start.provinces ≡ true) (sym m.of_from) v) m.next m.differ))
