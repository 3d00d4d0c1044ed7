-- ===== src/Project/Outlines/Steps.antt =====
-- The neighbours of the provinces after each pixel that the loop comes to.
use ho_i4_mod_development_to.Base.{
  ℕ, suc, ◌≡◌, sym, ◌∙◌, ap, subst, Bool, true, false, none, some, List, inl, inr, ◌⊎◌, arith,
  Bool-cases, if◌then◌else◌, ◌==◌, ==_iff, ==_self,
}
use mathlib.Core.Option.{some-injective}
use ho_i4_mod_development_to.Base.Ord.{Ord}
use ho_i4_mod_development_to.Base.OrdSet
use ho_i4_mod_development_to.Base.Dict
use ho_i4_mod_development_to.Colors.{do_colors_match}
use ho_i4_mod_development_to.Project.{ProvinceId, Province, Project}
use ho_i4_mod_development_to.Project.Graphics.{Image, turned}
use ho_i4_mod_development_to.Project.Graphics.Cells.{seen_next}
use ho_i4_mod_development_to.Shapes.{
  Point2d, Dimensions, Pixel, Direction, get_color_at, get_adjacent_pixel, calculate_adjacency,
}
use ho_i4_mod_development_to.Shapes.Neighbours.{IsInside}
use ho_i4_mod_development_to.Shapes.Loops.{point, is_seen}
use ho_i4_mod_development_to.Shapes.Finder.Matrix.{same_point, eq_of_same_point}
use ho_i4_mod_development_to.Shapes.Adjacency.{calculate_adjacency-sees}
use ho_i4_mod_development_to.Project.Outlines.Meeting.{
  Meets, label_of, borders-Meets, Meets-borders, added_from, added_to,
}

module _ (o : Ord ProvinceId) where
  -- Whether a province names another as its neighbour.
  abbrev pub adjacent : Project → ProvinceId → ProvinceId → Bool
  adjacent p k l = elim (Dict.lookup k p.provinces) [
    | none ↦ false
    | some prov ↦ OrdSet.contains ⦃o = o⦄ l prov.adjacent_provinces
  ]

  -- The sets of neighbours are in order, as std::set keeps them.
  abbrev pub AreSorted : Project → Type 0
  AreSorted p =
      (k : ProvinceId) (prov : Province)
      → Dict.lookup k p.provinces ≡ some prov
      → OrdSet.IsSorted ⦃o = o⦄ prov.adjacent_provinces

module _ (o : Ord ProvinceId) (d : Dimensions) (graphics : Image) (labels : ℕ → ProvinceId)
    (start : Project) where
  -- Next to each other with a pixel that the loop came to.
  pub record Outlined (y x : ℕ) (s : Project × Image) : Type 0 where
    pub same : (k : ProvinceId) → Dict.has k s.0.provinces ≡ Dict.has k start.provinces
    pub sorted : AreSorted o s.0
    pub sound :
        (k l : ProvinceId)
        → adjacent o s.0 k l ≡ true
        → Meets o d graphics labels k l ⊎ (adjacent o start k l ≡ true)
    pub kept : (k l : ProvinceId) → adjacent o start k l ≡ true → adjacent o s.0 k l ≡ true
    pub complete :
        (q : Point2d) (r : Pixel) (dir : Direction)
        → IsInside d q
        → is_seen y x (turned q) ≡ true
        → Dict.has (label_of o d graphics labels q) start.provinces ≡ true
        → get_adjacent_pixel d graphics q dir ≡ some r
        → do_colors_match r.color (get_color_at d graphics q.x q.y) ≡ false
        → adjacent o s.0 (label_of o d graphics labels q) (label_of o d graphics labels r.point)
          ≡ true

  -- A pixel of no province.
  pub skip :
      (y x : ℕ) (s : Project × Image)
      → Outlined y x s
      → Dict.has (label_of o d graphics labels (point x y)) start.provinces ≡ false
      → Outlined (suc y) x s
  skip y x s h none_here = record {
    same = h.same;
    sorted = h.sorted;
    sound = h.sound;
    kept = h.kept;
    complete = λ q r dir i seen v e f. elim (Bool-cases (same_point (point x y) q)) [
      | inl t ↦ absurd (
          let w = eq_of_same_point (point x y) q t in
          let n = ap (λ z. Dict.has (label_of o d graphics labels z) start.provinces) w in
          ground (arith, n, none_here, v))
      | inr t ↦ h.complete q r dir i (ground (arith, seen_next x y q, t, seen)) v e f
    ];
  }

  abbrev pub noted : ProvinceId → List ProvinceId → Project → Project
  noted key list p = record p {
    provinces = Dict.update key (λ v. record v { adjacent_provinces = list }) p.provinces;
  }

  lookup-noted :
      (key : ProvinceId) (list : List ProvinceId) (p : Project) (prov : Province) (k : ProvinceId)
      → Dict.lookup key p.provinces ≡ some prov
      → Dict.lookup k (noted key list p).provinces ≡ (
          if key == k
          then some (record prov { adjacent_provinces = list })
          else Dict.lookup k p.provinces)
  lookup-noted key list p prov k e = elim (Bool-cases (key == k)) [
    | inl t ↦
        let w : key ≡ k = (==_iff key k).0 t in
        let found : Dict.lookup k p.provinces ≡ some prov =
          ap (λ v. Dict.lookup v p.provinces) (sym w) ∙ e in
        ground (
          arith,
          t,
          found,
          Dict.lookup-update key k (λ v. record v { adjacent_provinces = list }) p.provinces,
        )
    | inr t ↦ ground (
      arith,
      t,
      Dict.lookup-update key k (λ v. record v { adjacent_provinces = list }) p.provinces,
    )
  ]

  -- A pixel of a province.
  pub note :
      (y x : ℕ) (s : Project × Image) (prov : Province) (m : Image)
      → IsInside d (point x y)
      → Outlined y x s
      → Dict.lookup (label_of o d graphics labels (point x y)) s.0.provinces ≡ some prov
      → Outlined (suc y) x (
        noted
            (label_of o d graphics labels (point x y))
            (calculate_adjacency o d graphics labels prov.adjacent_provinces (point x y)).1
            s.0,
        m,
      )
  note y x s prov m i h e =
      let q = point x y in
      let key = label_of o d graphics labels q in
      let list = prov.adjacent_provinces in
      let r = calculate_adjacency o d graphics labels list q in
      let ordered = h.sorted key prov e in
      let look = λ (k : ProvinceId). lookup-noted key r.1 s.0 prov k e in
      let after = noted key r.1 s.0 in
      let other : (k l : ProvinceId)
          → (key == k) ≡ false
          → adjacent o after k l ≡ adjacent o s.0 k l =
        λ k l t. ground (arith, look k, t) in
      let own : (k l : ProvinceId)
          → (key == k) ≡ true
          → adjacent o after k l ≡ OrdSet.contains ⦃o = o⦄ l r.1 =
        λ k l t. ground (arith, look k, t) in
      let before : (k l : ProvinceId)
          → (key == k) ≡ true
          → adjacent o s.0 k l ≡ OrdSet.contains ⦃o = o⦄ l list =
        λ k l t. ap (λ v. adjacent o s.0 v l) (sym ((==_iff key k).0 t)) ∙ ground (arith, e) in
      let grows : (k l : ProvinceId) → adjacent o s.0 k l ≡ true → adjacent o after k l ≡ true =
        λ k l a. elim (Bool-cases (key == k)) [
          | inl t ↦
              own k l t
              ∙ added_to o d graphics labels q list ordered l (inr (sym (before k l t) ∙ a))
          | inr t ↦ other k l t ∙ a
        ] in
      record {
        same = λ k. elim (Bool-cases (key == k)) [
          | inl t ↦
              let found : Dict.has k s.0.provinces ≡ true =
                ap (λ v. Dict.has v s.0.provinces) (sym ((==_iff key k).0 t)) ∙ ground (arith, e) in
              let still : Dict.has k after.provinces ≡ true = ground (arith, look k, t) in
              still ∙ (sym found ∙ h.same k)
          | inr t ↦
              let still : Dict.has k after.provinces ≡ Dict.has k s.0.provinces =
                ground (arith, look k, t) in
              still ∙ h.same k
        ];
        sorted = λ k v f. elim (Bool-cases (key == k)) [
          | inl t ↦
              let g : some (record prov { adjacent_provinces = r.1 }) ≡ some v =
                sym (ground (arith, look k, t)) ∙ f in
              subst (λ z. OrdSet.IsSorted ⦃o = o⦄ z.adjacent_provinces) (some-injective _ _ g)
                (calculate_adjacency-sees o d graphics labels q list ordered).2
          | inr t ↦ h.sorted k v (sym (ground (arith, look k, t)) ∙ f)
        ];
        sound = λ k l a. elim (Bool-cases (key == k)) [
          | inl t ↦ elim (added_from o d graphics labels q list ordered l (sym (own k l t) ∙ a)) [
            | inl (dir, b) ↦ inl (
                subst (λ z. Meets o d graphics labels z l) ((==_iff key k).0 t)
                  (borders-Meets o d graphics labels q dir l i b))
            | inr b ↦ h.sound k l (before k l t ∙ b)
          ]
          | inr t ↦ h.sound k l (sym (other k l t) ∙ a)
        ];
        kept = λ k l a. grows k l (h.kept k l a);
        complete = λ p w dir j seen v f g. elim (Bool-cases (same_point q p)) [
          | inl t ↦
              let u : q ≡ p = eq_of_same_point q p t in
              let f2 = ap (λ z. get_adjacent_pixel d graphics z dir) u ∙ f in
              let g2 = ap (λ z. do_colors_match w.color (get_color_at d graphics z.x z.y)) u ∙ g in
              let l = label_of o d graphics labels w.point in
              subst (λ z. adjacent o after (label_of o d graphics labels z) l ≡ true) u
                (own key l (==_self key)
                  ∙ added_to o d graphics labels q list ordered l
                      (inl (dir, Meets-borders o d graphics labels q w dir f2 g2)))
          | inr t ↦
              grows _ _ (h.complete p w dir j (ground (arith, seen_next x y p, t, seen)) v f g)
        ];
      }
