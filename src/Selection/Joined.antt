-- ===== src/Selection/Joined.antt =====
-- What the main window adds to the selection: the provinces that are merged with the one that is added.
use ho_i4_mod_development_to.Base.{
  ℕ, ◌≡◌, ◌⊎◌, ◌↔◌, refl, sym, ◌∙◌, ap, subst, true, false, ◌||◌, some, List, [], ◌∷◌, ◌==◌, ==_iff,
  arith, inl, inr, Bool-cases,
}
use ho_i4_mod_development_to.Base.Ord.{Ord, nat_ord}
use ho_i4_mod_development_to.Base.OrdSet
use ho_i4_mod_development_to.Base.Dict
use ho_i4_mod_development_to.Project.{ProvinceId, Project, is_valid_province_id}
use ho_i4_mod_development_to.Project.Merging.Forest.{IsForest}
use ho_i4_mod_development_to.Project.Merging.Search.Class.{root_of, get_merged_provinces_lem}
use ho_i4_mod_development_to.Selection.{Selected, SelectionManager, add_province_selection}
use ho_i4_mod_development_to.Selection.Sets.{same_lem, inserted_lem}
use ho_i4_mod_development_to.Selection.Window.{merged_provinces, add_quietly, add_merged}

module _ (W : Type 0) (o : Ord ProvinceId) (depth : ℕ) (p : Project)
    (forest : IsForest o depth p) where
  -- Whether two provinces are merged.
  abbrev pub Joined : ProvinceId → ProvinceId → Type 0
  Joined k id =
      (Dict.has k p.provinces ≡ true) × (root_of o depth p forest k ≡ root_of o depth p forest id)

  merged_provinces_lem :
      (id k : ProvinceId)
      → is_valid_province_id id p ≡ true
      → (OrdSet.contains ⦃o = o⦄ k (merged_provinces W o p id) ≡ true) ↔ Joined k id
  unfolding merged_provinces is_valid_province_id
  merged_provinces_lem id k v =
      let (merged, e, h) = get_merged_provinces_lem o depth p forest id v in
      let same : merged_provinces W o p id ≡ merged = ground (arith, e) in
      subst (λ l. (OrdSet.contains ⦃o = o⦄ k l ≡ true) ↔ Joined k id) (sym same) (h k)

  add_merged_lem :
      (id k : ProvinceId) (list : List ProvinceId) (s : Selected)
      → ((x : ProvinceId) → OrdSet.contains ⦃o = o⦄ x list ≡ true → is_valid_province_id x p ≡ true)
      → OrdSet.same ⦃o = o⦄ k id ≡ false
      → OrdSet.contains ⦃o = o⦄ k (add_merged W o p id list s).selected_provinces
        ≡ (OrdSet.contains ⦃o = o⦄ k s.selected_provinces || OrdSet.contains ⦃o = o⦄ k list)
  unfolding add_merged add_quietly
  add_merged_lem id k [] s v n = ground arith
  add_merged_lem id k (x ∷ xs) s v n =
      let tail =
        λ (y : ProvinceId) (i : OrdSet.contains ⦃o = o⦄ y xs ≡ true). v y (ground (arith, i)) in
      let here : is_valid_province_id x p ≡ true =
        v x (ground (arith, OrdSet.same_self ⦃o = o⦄ x)) in
      elim (Bool-cases (x == id)) [
        | inl t ↦
            let u : OrdSet.same ⦃o = o⦄ k x ≡ false =
              ap (OrdSet.same ⦃o = o⦄ k) ((==_iff x id).0 t) ∙ n in
            ground (arith, t, u, add_merged_lem id k xs s tail n)
        | inr t ↦ elim (Bool-cases (OrdSet.contains ⦃o = o⦄ x s.selected_provinces)) [
          | inl c ↦ elim (Bool-cases (OrdSet.same ⦃o = o⦄ k x)) [
            | inl u ↦
                let w : OrdSet.contains ⦃o = o⦄ k s.selected_provinces ≡ true =
                  subst (λ z. OrdSet.contains ⦃o = o⦄ z s.selected_provinces ≡ true)
                    (sym (OrdSet.same_iff ⦃o = o⦄ k x u)) c in
                ground (arith, t, c, u, w, add_merged_lem id k xs s tail n)
            | inr u ↦ ground (arith, t, c, u, add_merged_lem id k xs s tail n)
          ]
          | inr c ↦
              let next = record s {
                selected_provinces = OrdSet.insert ⦃o = o⦄ x s.selected_provinces;
              } in
              ground (
                arith,
                t,
                c,
                here,
                add_merged_lem id k xs next tail n,
                OrdSet.contains-insert ⦃o = o⦄ x k s.selected_provinces,
              )
        ]
      ]

  pub add_merged_states :
      (id : ProvinceId) (list : List ProvinceId) (s : Selected)
      → (add_merged W o p id list s).selected_states ≡ s.selected_states
  unfolding add_merged add_quietly
  add_merged_states id [] s = refl
  add_merged_states id (x ∷ xs) s =
      let next = record s { selected_provinces = OrdSet.insert ⦃o = o⦄ x s.selected_provinces } in
      ground (arith, add_merged_states id xs s, add_merged_states id xs next)

  -- What a callback of the main window makes of an addition: the provinces that are merged with it.
  pub joined_lem :
      (id k : ProvinceId) (s : Selected)
      → is_valid_province_id id p ≡ true
      → (OrdSet.contains ⦃o = o⦄ k (
            OrdSet.insert ⦃o = o⦄ id
              (add_merged W o p id (merged_provinces W o p id) s).selected_provinces)
          ≡ true)
        ↔ ((OrdSet.contains ⦃o = o⦄ k s.selected_provinces ≡ true) ⊎ Joined k id)
  unfolding is_valid_province_id
  joined_lem id k s v =
      let list = merged_provinces W o p id in
      let after = (add_merged W o p id list s).selected_provinces in
      let all = λ (x : ProvinceId) (i : OrdSet.contains ⦃o = o⦄ x list ≡ true).
        ((merged_provinces_lem id x v).0 i).0 in
      let joins = merged_provinces_lem id k v in
      let written = inserted_lem ⦃o = o⦄ k id after in
      elim (Bool-cases (OrdSet.same ⦃o = o⦄ k id)) [
        | inl t ↦
            let w = (same_lem ⦃o = o⦄ k id).0 t in
            ((λ _. inr (subst (λ z. Joined z id) (sym w) (v, refl))), (λ _. written.1 (inr w)))
        | inr t ↦
            let e = add_merged_lem id k list s all t in
            (
              (λ h. elim (written.0 h) [
                | inl i ↦ elim (Bool-cases (OrdSet.contains ⦃o = o⦄ k s.selected_provinces)) [
                  | inl was ↦ inl was
                  | inr new ↦ inr (joins.0 (ground (arith, e, i, new)))
                ]
                | inr w ↦ absurd (ground (arith, t, (same_lem ⦃o = o⦄ k id).1 w))
              ]),
              (λ h. elim h [
                | inl i ↦ written.1 (inl (ground (arith, e, i)))
                | inr j ↦ written.1 (inl (ground (arith, e, joins.1 j)))
              ]),
            )
      ]

  -- The call in the loop is `addProvinceSelection` without its callback.
  add_quietly_lem :
      (label : ProvinceId) (m : SelectionManager W o) (w : W)
      → add_province_selection W o (some p) label true m w
        ≡ (record m { selected = add_quietly W o p label m.selected }, w)
  unfolding add_province_selection add_quietly
  add_quietly_lem label m w = elim (Bool-cases (is_valid_province_id label p)) [
    | inl v ↦ ground (arith, v)
    | inr v ↦ ground (arith, v)
  ]
