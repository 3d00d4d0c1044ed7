-- ===== src/Project/Map/Making.antt =====
-- addNewState keeps the invariant, and the new state has exactly the provinces it is given.
use ho_i4_mod_development_to.Base.{
  ◌≡◌, refl, ◌∙◌, ◌≢◌, true, false, some, List, [], if◌then◌else◌, ◌==◌, elem, IsDistinct, arith,
  inl, inr, Bool-cases,
}
use ho_i4_mod_development_to.Base.Dict
use ho_i4_mod_development_to.Base.Dict.{Dict, lookup-insert}
use ho_i4_mod_development_to.Colors.{Generator, Palette, unknown, generate_unique_color}
use ho_i4_mod_development_to.Project.{ProvinceId, StateId, no_state, State, Project}
use ho_i4_mod_development_to.Project.States.{
  update_state_id_matrix, take_state_id, move_all, all_valid, add_new_state, default_name,
  default_buildings_max_level_factor,
}
use ho_i4_mod_development_to.Project.Map.Consistent.{
  members, belongs, IsConsistent, IsConsistentBut, update_state_id_matrix-IsConsistent,
  belongs-update_state_id_matrix, members-update_state_id_matrix, IsCurrent,
  update_state_id_matrix-IsCurrent,
}
use ho_i4_mod_development_to.Project.Map.Claiming.{Claims, move_all-Claims, all_valid_same}

-- The state that addNewState stores.
abbrev pub made_state : Palette → StateId → List ProvinceId → Project → State
made_state pal x ids p = record {
  id = x;
  name = default_name x;
  manpower = 0;
  category = [];
  buildings_max_level_factor = default_buildings_max_level_factor;
  impassable = false;
  provinces = ids;
  color = (generate_unique_color pal unknown p.colors).0;
}

-- The taking of an id touches neither the provinces nor the states.
take_state_id-IsConsistent : (p : Project) → IsConsistent p → IsConsistent (take_state_id p).1
unfolding take_state_id
take_state_id-IsConsistent p c = record {
  sorted = c.sorted;
  no_minus = c.no_minus;
  keyed = c.keyed;
  distinct = c.distinct;
  member = c.member;
}

-- A state that no province names yet may be left out of the invariant.
leave_out : (x : StateId) (p : Project) → IsConsistent p → IsConsistentBut x p
leave_out x p c = record {
  sorted = c.sorted;
  no_minus = c.no_minus;
  keyed = c.keyed;
  distinct = c.distinct;
  member = λ s k n m. c.member s k n n;
}

module _ (x : StateId) (n : x ≢ no_state) (ids : List ProvinceId) (p q : Project) (st : State)
    (g : Generator) (c : IsConsistent p) (d : IsDistinct ids) (new : Dict.has x p.states ≡ false)
    (made : st.provinces ≡ ids) (r : Claims x n ids p q) where
  abbrev filled : Project
  filled = record q { states = Dict.insert x st q.states; colors = g }

  members-filled : (s : StateId) → members filled s ≡ (if x == s then ids else members q s)
  members-filled s = ground (arith, lookup-insert x s st q.states, made)

  unnamed : (k : ProvinceId) → belongs p k x ≡ false
  unnamed k = ground (arith, c.member x k n n, new)

  filled-IsConsistent : IsConsistent filled
  filled-IsConsistent = record {
    sorted = Dict.insert-IsSorted x st q.states r.consistent.sorted;
    no_minus = ground (arith, lookup-insert x no_state st q.states, r.consistent.no_minus, n);
    keyed = r.consistent.keyed;
    distinct = λ s. elim (Bool-cases (x == s)) [
      | inl e ↦ rw (members-filled s, e) d
      | inr e ↦ rw (members-filled s, e) (r.consistent.distinct s)
    ];
    member = λ s k m o.
        ground (arith, members-filled s, r.names k s, r.consistent.member s k m, unnamed k);
  }

  belongs-filled :
      (k : ProvinceId) (s : StateId)
      → belongs filled k s ≡ (if elem k ids then x == s else belongs p k s)
  belongs-filled k s = r.names k s

-- Making a state of distinct provinces of the project, where the id that is taken is neither `-1` nor
-- the id of a state, keeps the invariant. The new state has exactly those provinces, no other province
-- changes its state, and the pixels of the state matrix are those that the provinces say.
pub add_new_state-IsConsistent :
    (pal : Palette) (ids : List ProvinceId) (p : Project)
    → IsConsistent p
    → IsDistinct ids
    → all_valid ids p ≡ true
    → (take_state_id p).0 ≢ no_state
    → Dict.has (take_state_id p).0 p.states ≡ false
    → let x = (take_state_id p).0 in
      (q : Project) × (add_new_state pal ids p ≡ some (x, q))
      × IsConsistent q
      × (members q x ≡ ids)
      × ((k : ProvinceId) (s : StateId)
          → belongs q k s ≡ (if elem k ids then x == s else belongs p k s))
      × IsCurrent q
unfolding add_new_state
add_new_state-IsConsistent pal ids p c d v n new =
    let x : StateId = (take_state_id p).0 in
    let t : Project = (take_state_id p).1 in
    let ct : IsConsistent t = take_state_id-IsConsistent p c in
    let vt : all_valid ids t ≡ true = all_valid_same ids t p (unfold take_state_id in refl) ∙ v in
    let q : Project = move_all x ids t in
    let r : Claims x n ids t q = move_all-Claims x n ids t vt (leave_out x t ct) in
    let g = generate_unique_color pal unknown q.colors in
    let st : State = made_state pal x ids q in
    let new' : Dict.has x t.states ≡ false = (unfold take_state_id in new) in
    let f : Project = filled x n ids t q st g.1 ct d new' refl r in
    (
      update_state_id_matrix f,
      rw v refl,
      update_state_id_matrix-IsConsistent f
          (filled-IsConsistent x n ids t q st g.1 ct d new' refl r),
      members-update_state_id_matrix f x
          ∙ ground (arith, members-filled x n ids t q st g.1 ct d new' refl r x),
      λ k s.
          belongs-update_state_id_matrix f k s
          ∙ belongs-filled x n ids t q st g.1 ct d new' refl r k s
          ∙ (unfold take_state_id in refl),
      update_state_id_matrix-IsCurrent f,
    )
