-- ===== src/Shapes/Finder/Trees.antt =====
-- The links between labels: they go to smaller labels of the same colour, and which label a pixel
-- takes from its neighbours.
use ho_i4_mod_development_to.Base.{
  ℕ, ◌<◌, ◌≡◌, ◌≢◌, refl, sym, ◌∙◌, true, false, Option, some, ◌⊎◌, inl, inr, if◌then◌else◌, ◌==◌,
  ==_iff, ==_ne, arith, Bool-cases, subst,
}
use mathlib.Core.Option.{some-injective}
use Prim.Native.Nat.Ordering.{lt}
use ho_i4_mod_development_to.Base.Ord.{Ordering-cases}
use ho_i4_mod_development_to.Base.Dict
use ho_i4_mod_development_to.Base.Dict.{Dict}
use ho_i4_mod_development_to.Colors.{Color, do_colors_match, border_color}
use ho_i4_mod_development_to.Project.{ProvinceId}
use ho_i4_mod_development_to.Shapes.Finder.{Outside, pick_label, link_labels, min_label, max_label}
use ho_i4_mod_development_to.Shapes.Finder.Roots.{
  Leads, here, link, IsDescending, get_root_label_lem,
}

-- No UUID is made twice, and none is empty.
pub record IsFresh (out : Outside) : Type 0 where
  pub distinct : (i j : ℕ) → out.fresh i ≡ out.fresh j → i ≡ j
  pub valid : (i : ℕ) → out.fresh i ≢ 0

module _ (out : Outside) where
  -- The label is one of the first `n`.
  abbrev pub IsUsed : ℕ → ProvinceId → Type 0
  IsUsed n l = (j : ℕ) × (j < n) × (l ≡ out.fresh j)

  -- The links among the first `n` labels, where each label has a colour.
  pub record Tree (n : ℕ) (col : ProvinceId → Color) (parents : Dict ProvinceId) : Type 0 where
    pub descends : IsDescending out.order parents
    pub keeps_color : (k v : ProvinceId) → Dict.lookup k parents ≡ some v → col k ≡ col v
    pub used : (k v : ProvinceId) → Dict.lookup k parents ≡ some v → IsUsed n k × IsUsed n v

  pub Leads-color :
      {n : ℕ} {col : ProvinceId → Color} {parents : Dict ProvinceId} {k l : ProvinceId}
      → Tree n col parents
      → Leads parents k l
      → col k ≡ col l
  Leads-color t here = refl
  Leads-color t (link {k} {v} e p) = t.keeps_color k v e ∙ Leads-color t p

  pub Leads-IsUsed :
      {n : ℕ} {col : ProvinceId → Color} {parents : Dict ProvinceId} {k l : ProvinceId}
      → Tree n col parents
      → IsUsed n k
      → Leads parents k l
      → IsUsed n l
  Leads-IsUsed t u here = u
  Leads-IsUsed t u (link {k} {v} e p) = Leads-IsUsed t ((t.used k v e).1) p

  -- A label for a pixel of the colour `c`.
  abbrev pub Serves : ℕ → (ProvinceId → Color) → Color → ProvinceId → Type 0
  Serves n col c l = IsUsed n l × (col l ≡ c)

  Tree-insert :
      {n : ℕ} {col : ProvinceId → Color} {parents : Dict ProvinceId} {c : Color}
      (small large : ProvinceId)
      → Tree n col parents
      → Serves n col c small
      → Serves n col c large
      → out.order.cmp small large ≡ lt
      → Tree n col (Dict.insert large small parents)
  Tree-insert {n} {col} {parents} {c} small large t s l h = record {
    descends = λ k v e. elim (Bool-cases (large == k)) [
      | inl y ↦
          let (a, b) = split_yes k v e y in
          subst (λ z. out.order.cmp v z ≡ lt) a (subst (λ z. out.order.cmp z large ≡ lt) b h)
      | inr y ↦ t.descends k v (split_no k v e y)
    ];
    keeps_color = λ k v e. elim (Bool-cases (large == k)) [
      | inl y ↦
          let (a, b) = split_yes k v e y in
          subst (λ z. col z ≡ col v) a (subst (λ z. col large ≡ col z) b (l.1 ∙ sym s.1))
      | inr y ↦ t.keeps_color k v (split_no k v e y)
    ];
    used = λ k v e. elim (Bool-cases (large == k)) [
      | inl y ↦
          let (a, b) = split_yes k v e y in
          (subst (λ z. IsUsed n z) a l.0, subst (λ z. IsUsed n z) b s.0)
      | inr y ↦ t.used k v (split_no k v e y)
    ];
  }
    where
      split_yes :
          (k v : ProvinceId)
          → Dict.lookup k (Dict.insert large small parents) ≡ some v
          → (large == k) ≡ true
          → (large ≡ k) × (small ≡ v)
      split_yes k v e y = (
        (==_iff large k).0 y,
        some-injective _ _ (
            sym (
              subst
                (λ b.
                  Dict.lookup k (Dict.insert large small parents)
                  ≡ (if b then some small else Dict.lookup k parents))
                y (Dict.lookup-insert large k small parents))
            ∙ e),
      )

      split_no :
          (k v : ProvinceId)
          → Dict.lookup k (Dict.insert large small parents) ≡ some v
          → (large == k) ≡ false
          → Dict.lookup k parents ≡ some v
      split_no k v e y = ground (arith, Dict.lookup-insert large k small parents, e, y)

  -- What a neighbour offers: nothing, or a label for the colour.
  abbrev pub Offers : ℕ → (ProvinceId → Color) → Color → ProvinceId × Color → Type 0
  Offers n col c (l, k) =
      (do_colors_match k border_color ≡ true)
      ⊎ ((do_colors_match k border_color ≡ false) × Serves n col c l)

  -- What becomes of the pixel: the next label, with the links as they were, or a label in use.
  pub record Picked (n : ℕ) (col : ProvinceId → Color) (c : Color) (next_label : ProvinceId)
      (parents : Dict ProvinceId) (r : Option (ProvinceId × Dict ProvinceId)) : Type 0 where
    pub label : ProvinceId
    pub links : Dict ProvinceId
    pub picks : r ≡ some (label, links)
    pub tree : Tree n col links
    pub serves : (label ≡ next_label) ⊎ Serves n col c label

  -- Two labels that serve: the smaller one's root is taken, and the larger one is linked.
  joins :
      {n : ℕ} {col : ProvinceId → Color} {parents : Dict ProvinceId} {c : Color}
      (next_label a b : ProvinceId)
      → Tree n col parents
      → Serves n col c a
      → Serves n col c b
      → (a == b) ≡ false
      → Picked n col c next_label parents (link_labels out.order a b parents)
  unfolding link_labels
  joins {n} {col} {parents} {c} next_label a b t s u h =
      let o = out.order in
      let both : Serves n col c (min_label o a b)
          × Serves n col c (max_label o a b)
          × (o.cmp (min_label o a b) (max_label o a b) ≡ lt) =
        elim (Ordering-cases (o.cmp b a)) [
          | inl e ↦
              let m : min_label o a b ≡ b = ground (arith, e) in
              let x : max_label o a b ≡ a = ground (arith, o.flip b a e) in rw (m, x) (u, s, e)
          | inr (inl e) ↦ absurd (ground (arith, h, o.eq_of_cmp b a e))
          | inr (inr e) ↦
              let m : min_label o a b ≡ a = ground (arith, e) in
              let x : max_label o a b ≡ b = ground (arith, o.flip_gt b a e) in
              rw (m, x) (s, u, o.flip_gt b a e)
        ] in
      let (root, g, p, top) = get_root_label_lem o parents (min_label o a b) t.descends in
      record {
        label = root;
        links = Dict.insert (max_label o a b) (min_label o a b) parents;
        picks = rw (link_labels, g) refl;
        tree = Tree-insert (min_label o a b) (max_label o a b) t both.0 both.1 both.2;
        serves = inr (Leads-IsUsed t both.0.0 p, sym (Leads-color t p) ∙ both.0.1);
      }

  -- The label of a pixel of the colour `c`, when each neighbour offers nothing or a label for `c`.
  pub pick_label-Picked :
      {n : ℕ} {col : ProvinceId → Color} {parents : Dict ProvinceId} {c : Color}
      (next_label : ProvinceId) (to_left above : ProvinceId × Color)
      → Tree n col parents
      → ¬ IsUsed n next_label
      → Offers n col c to_left
      → Offers n col c above
      → Picked n col c next_label parents (pick_label out.order next_label to_left above parents)
  unfolding pick_label
  pick_label-Picked next_label (l, k) (m, j) t new (inl a) (inl b) = record {
    label = next_label;
    links = _;
    picks = ground (arith, a, b);
    tree = t;
    serves = inl refl;
  }
  pick_label-Picked next_label (l, k) (m, j) t new (inl a) (inr (b, s)) = record {
    label = m;
    links = _;
    picks = ground (arith, a, b);
    tree = t;
    serves = inr s;
  }
  pick_label-Picked next_label (l, k) (m, j) t new (inr (a, s)) (inl b) = record {
    label = l;
    links = _;
    picks = ground (arith, a, b);
    tree = t;
    serves = inr s;
  }
  pick_label-Picked {n} next_label (l, k) (m, j) t new (inr (a, s)) (inr (b, u)) =
      let other : (l == next_label) ≡ false =
        ==_ne l next_label (λ e. new (subst (λ z. IsUsed n z) e s.0)) in
      elim (Bool-cases (l == m)) [
        | inl y ↦ record {
          label = l;
          links = _;
          picks = ground (arith, a, b, other, y);
          tree = t;
          serves = inr s;
        }
        | inr y ↦
            let p = joins next_label l m t s u y in
            record {
              label = p.label;
              links = p.links;
              picks = ground (arith, a, b, other, y, p.picks);
              tree = p.tree;
              serves = p.serves;
            }
      ]
