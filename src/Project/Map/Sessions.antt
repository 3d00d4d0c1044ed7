-- ===== src/Project/Map/Sessions.antt =====
-- mod_dev_tool/project: a session of edits, as a relation: provinces are moved, states are made and
-- removed, in any order. Each edit is one of the operations of MapProject.cpp and StateProject.cpp.
use ho_i4_mod_development_to.Base.{
  ℕ, suc, ◌+◌, ◌≤◌, ◌<◌, ◌≡◌, refl, subst, ◌∙◌, sym, ◌≢◌, true, false, some, List, [], ◌∷◌, ◌++◌,
  IsDistinct, arith, inl, inr, Option-cases,
}
use ho_i4_mod_development_to.Base.Dict
use ho_i4_mod_development_to.Base.Dict.{Dict, lookup-update, size-update}
use mathlib.Core.Option.{some-injective}
use ho_i4_mod_development_to.Colors.{Palette}
use ho_i4_mod_development_to.Status.{success}
use ho_i4_mod_development_to.Project.{
  ProvinceId, StateId, no_state, State, Project, is_valid_state_id,
}
use ho_i4_mod_development_to.Project.States.{
  set_state, detach_province, add_province_to_state, update_state_id_matrix, take_state_id,
  all_valid, add_new_state, remove_state,
}
use ho_i4_mod_development_to.Project.Map.{move_province_to_state}
use ho_i4_mod_development_to.Project.Map.Consistent.{members, IsConsistent}
use ho_i4_mod_development_to.Project.Map.Moving.{move_province_to_state-IsConsistent}
use ho_i4_mod_development_to.Project.Map.Making.{add_new_state-IsConsistent}
use ho_i4_mod_development_to.Project.Map.Removing.{remove_state-IsConsistent}
use ho_i4_mod_development_to.Project.Map.Ids.{
  HasDenseIds, id_bound, take_state_id_new, SameIds, detach_province-SameIds,
}
use ho_i4_mod_development_to.Project.Map.DenseIds.{add_new_state-DenseIds, remove_state-DenseIds}

module _ (pal : Palette) where
  -- An edit, from a project to a project.
  pub data Step : Project → Project → Type 0 where
    moves :
        {p q : Project} (key : ProvinceId) (t : StateId)
        → Dict.has key p.provinces ≡ true
        → Dict.has t p.states ≡ true
        → move_province_to_state key t p ≡ some q
        → Step p q
    adds :
        {p q : Project} (ids : List ProvinceId) (x : StateId)
        → IsDistinct ids
        → all_valid ids p ≡ true
        → add_new_state pal ids p ≡ some (x, q)
        → Step p q
    removes :
        {p q : Project} (id : StateId)
        → Dict.has id p.states ≡ true
        → remove_state id p ≡ some (success, q)
        → Step p q

  -- What a number of edits leads to.
  pub data Session (p : Project) : ℕ → Project → Type 0 where
    start : Session p 0 p
    later : {n : ℕ} {q r : Project} → Session p n q → Step q r → Session p (suc n) r

abbrev pub IsSound : Project → Type 0
IsSound p = IsConsistent p × HasDenseIds p

move_province_to_state-SameIds :
    (key : ProvinceId) (t : StateId) (p q : Project)
    → move_province_to_state key t p ≡ some q
    → SameIds p q
unfolding move_province_to_state add_province_to_state set_state update_state_id_matrix
    is_valid_state_id
move_province_to_state-SameIds key t p q e = elim (Option-cases (Dict.lookup key p.provinces)) [
  | inl n ↦ absurd (let no = rw (n, move_province_to_state) at e in cc)
  | inr (prov, n) ↦
      let d = detach_province key true p in
      let s : SameIds p d = detach_province-SameIds key true p in
      let f : State → State = λ st. record st { provinces = st.provinces ++ prov.id ∷ [] } in
      subst (λ r. SameIds p r) (some-injective _ _ (rw (n, move_province_to_state) at e))
        (record {
          has = λ k. ground (arith, s.has k, lookup-update t k f d.states);
          size = ground (arith, s.size, size-update t f d.states);
          available = ground (arith, s.available);
          sorted = λ h. ground (arith, Dict.update-IsSorted t f d.states (s.sorted h));
        })
]

-- Nothing but the number of states and which ids they have counts.
SameIds-DenseIds :
    (p q : Project) → SameIds p q → HasDenseIds p → HasDenseIds q × (id_bound q ≡ id_bound p)
SameIds-DenseIds p q s d = (
  record {
    sorted = s.sorted d.sorted;
    used =
        λ k h. let u = d.used k (ground (arith, s.has k, h)) in (u.0, rw (s.size, s.available) u.1);
    free = λ k m.
        let f = d.free k (rw s.available at m) in
        (f.0, rw (s.size, s.available) f.1, s.has k ∙ f.2);
    distinct = rw s.available d.distinct;
  },
  rw (s.size, s.available) refl,
)

module _ (pal : Palette) where
  taken_new :
      (p : Project)
      → HasDenseIds p
      → id_bound p + 1 < no_state
      → ((take_state_id p).0 ≢ no_state) × (Dict.has (take_state_id p).0 p.states ≡ false)
  taken_new p d b = let n = take_state_id_new p d b in (λ e. omega (arith, n.1, e), n.2)

  Step-IsSound :
      {p q : Project}
      → Step pal p q
      → IsSound p
      → id_bound p + 1 < no_state
      → IsSound q × (id_bound q ≤ id_bound p + 1)
  Step-IsSound {p} {q} (moves key t h v e) (c, d) b =
      let (r, f, cr, _, _) = move_province_to_state-IsConsistent key t p c h v in
      let (dq, z) = SameIds-DenseIds p q (move_province_to_state-SameIds key t p q e) d in
      ((subst (λ s. IsConsistent s) (some-injective _ _ (sym f ∙ e)) cr, dq), omega (arith, z))
  Step-IsSound {p} {q} (adds ids x i v e) (c, d) b =
      let n = taken_new p d b in
      let (r, f, cr, _, _, _) = add_new_state-IsConsistent pal ids p c i v n.0 n.1 in
      let (dq, z) = add_new_state-DenseIds pal ids p q x d b e in
      ((subst (λ s. IsConsistent s.1) (some-injective _ _ (sym f ∙ e)) cr, dq), z)
  Step-IsSound {p} {q} (removes id h e) (c, d) b =
      let (r, f, cr, _, _, _, _) = remove_state-IsConsistent id p c h in
      let (dq, z) = remove_state-DenseIds id p q success d e in
      ((subst (λ s. IsConsistent s.1) (some-injective _ _ (sym f ∙ e)) cr, dq), omega (arith, z))

  -- From a project whose states list exactly the provinces that name them, and whose ids are dense,
  -- every session of fewer edits than there are ids leads to such a project.
  pub Session-IsSound :
      {p q : Project} (n : ℕ)
      → Session pal p n q
      → IsSound p
      → id_bound p + n < no_state
      → IsSound q × (id_bound q ≤ id_bound p + n)
  Session-IsSound n start s b = (s, omega arith)
  Session-IsSound (suc n) (later r e) s b =
      let (sq, z) = Session-IsSound n r s (omega arith) in
      let (sr, w) = Step-IsSound e sq (omega (arith, z)) in (sr, omega (arith, z, w))

  -- After such a session, a state can be made of any distinct provinces of the project: `addNewState`
  -- returns, under an id that is neither 0 nor `-1` nor the id of a state, and the new state has exactly
  -- those provinces.
  pub add_new_state_after :
      {p q : Project} (n : ℕ) (ids : List ProvinceId)
      → Session pal p n q
      → IsSound p
      → id_bound p + n + 1 < no_state
      → IsDistinct ids
      → all_valid ids q ≡ true
      → (x : StateId) × (r : Project) × (add_new_state pal ids q ≡ some (x, r))
        × (1 ≤ x)
        × (x < no_state)
        × (Dict.has x q.states ≡ false)
        × (members r x ≡ ids)
        × IsSound r
  add_new_state_after {p} {q} n ids session s b i v =
      let (sq, z) = Session-IsSound n session s (omega arith) in
      let t = take_state_id_new q sq.1 (omega (arith, z)) in
      let (r, f, cr, m, _, _) =
        add_new_state-IsConsistent pal ids q sq.0 i v (λ e. omega (arith, t.1, e)) t.2 in
      (
        (take_state_id q).0,
        r,
        f,
        t.0,
        t.1,
        t.2,
        m,
        (cr, (add_new_state-DenseIds pal ids q r _ sq.1 (omega (arith, z)) f).0),
      )
