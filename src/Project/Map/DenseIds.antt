-- ===== src/Project/Map/DenseIds.antt =====
-- addNewState and removeState keep the ids dense, so over any session the id of a new state is new.
use ho_i4_mod_development_to.Base.{
  ℕ, suc, ◌+◌, ◌%◌, ◌^◌, ◌≤◌, ◌<◌, ◌≡◌, refl, ap, subst, ◌∙◌, Bool, true, false, some, List, [],
  ◌∷◌, ◌++◌, if◌then◌else◌, ◌==◌, elem, elem-append, length, length-append, arith, inl, inr,
  Bool-cases, Option-cases,
}
use ho_i4_mod_development_to.Base.Dict
use ho_i4_mod_development_to.Base.Dict.{
  Dict, lookup-insert, lookup-erase, lookup_of_has, size-insert_new, size-erase,
}
use mathlib.Core.Option.{some-injective}
use ho_i4_mod_development_to.Colors.{Palette}
use ho_i4_mod_development_to.Status.{Status}
use ho_i4_mod_development_to.Project.{ProvinceId, StateId, no_state, State, Project}
use ho_i4_mod_development_to.Project.States.{
  update_state_id_matrix, take_state_id, next_state_id, popped, move_all, all_valid, add_new_state,
  remove_state,
}
use ho_i4_mod_development_to.Project.Map.Moving.{append-IsDistinct}
use ho_i4_mod_development_to.Project.Map.Removing.{clear_all-Cleared}
use ho_i4_mod_development_to.Project.Map.Ids.{
  bound, DenseIds, HasDenseIds, id_bound, next_is_new, SameIds, move_all-SameIds,
}

-- The states with one more, under the id that is next.
insert-DenseIds :
    (available : List StateId) (states next : Dict State)
    → DenseIds available states
    → bound available states + 1 < no_state
    → Dict.IsSorted next
    → ((k : StateId)
        → Dict.has k next
          ≡ (if next_state_id available states == k then true else Dict.has k states))
    → Dict.size next ≡ suc (Dict.size states)
    → DenseIds (popped available) next
unfolding next_state_id popped
insert-DenseIds [] states next d b s h z =
    let x : ℕ = (Dict.size states + 1) % 2 ^ 32 in
    let e : x ≡ Dict.size states + 1 = omega arith in
    record {
      sorted = s;
      used = λ k m. elim (Bool-cases (x == k)) [
        | inl t ↦ (ground (arith, z, e, t), ground (arith, z, e, t))
        | inr t ↦ let u = d.used k (ground (arith, h k, m, t)) in (u.0, ground (arith, z, u.1))
      ];
      free = λ k m. absurd (let no : ◌≡◌ {A = Bool} false true = m in cc);
      distinct = tt;
    }
insert-DenseIds (a ∷ rest) states next d b s h z = record {
  sorted = s;
  used = λ k m. elim (Bool-cases (a == k)) [
    | inl t ↦ let f = d.free a (ground arith) in (ground (arith, f.0, t), ground (arith, z, f.1, t))
    | inr t ↦ let u = d.used k (ground (arith, h k, m, t)) in (u.0, ground (arith, z, u.1))
  ];
  free = λ k m.
      let f = d.free k (ground (arith, m)) in
      (f.0, ground (arith, z, f.1), ground (arith, h k, f.2, d.distinct.0, m));
  distinct = d.distinct.1;
}

-- The states with one less, whose id is given back.
erase-DenseIds :
    (available : List StateId) (states : Dict State) (id : StateId)
    → DenseIds available states
    → Dict.has id states ≡ true
    → DenseIds (available ++ id ∷ []) (Dict.erase id states)
erase-DenseIds available states id d h =
    let z = size-erase id states h in
    let l = length-append available (id ∷ []) in
    record {
      sorted = Dict.erase-IsSorted id states d.sorted;
      used = λ k m.
          let u = d.used k (ground (arith, lookup-erase id k states d.sorted, m)) in
          (u.0, omega (arith, z, l, u.1));
      free = λ k m. elim (Bool-cases (id == k)) [
        | inl t ↦
            let u = d.used id h in
            (
              ground (arith, u.0, t),
              ground (arith, z, l, u.1, t),
              ground (arith, lookup-erase id k states d.sorted, t),
            )
        | inr t ↦
            let f = d.free k (ground (arith, elem-append k available (id ∷ []), m, t)) in
            (
              f.0,
              omega (arith, z, l, f.1),
              ground (arith, lookup-erase id k states d.sorted, t, f.2),
            )
      ];
      distinct = append-IsDistinct id available d.distinct (elim (Bool-cases (elem id available)) [
        | inl e ↦ absurd (ground (arith, (d.free id e).2, h))
        | inr e ↦ e
      ]);
    }

length-popped : (ids : List StateId) → length (popped ids) ≤ length ids
unfolding popped
length-popped [] = omega arith
length-popped (a ∷ ids) = omega arith

-- The state may be any that is stored under the id that is next.
stored-DenseIds :
    (x : StateId) (st : State) (p m : Project)
    → HasDenseIds p
    → id_bound p + 1 < no_state
    → next_state_id p.available_state_ids p.states ≡ x
    → SameIds (record p { available_state_ids = popped p.available_state_ids }) m
    → DenseIds m.available_state_ids (Dict.insert x st m.states)
      × (bound m.available_state_ids (Dict.insert x st m.states) ≤ id_bound p + 1)
unfolding popped
stored-DenseIds x st p m d b e s =
    let new = next_is_new p.available_state_ids p.states b d.used d.free in
    let n : Dict.has x m.states ≡ false = ground (arith, s.has x, new.2, e) in
    let z : Dict.size (Dict.insert x st m.states) ≡ suc (Dict.size p.states) =
      size-insert_new x st m.states n ∙ ap suc s.size in
    let h : (k : StateId)
        → Dict.has k (Dict.insert x st m.states) ≡ (
            if next_state_id p.available_state_ids p.states == k
            then true
            else Dict.has k p.states) =
      λ k. ground (arith, lookup-insert x k st m.states, s.has k, e) in
    let l = length-popped p.available_state_ids in
    (
      rw s.available (
          insert-DenseIds p.available_state_ids p.states (Dict.insert x st m.states) d b
            (Dict.insert-IsSorted x st m.states (s.sorted d.sorted)) h z),
      rw s.available (omega (arith, z, l)),
    )

pub add_new_state-DenseIds :
    (pal : Palette) (ids : List ProvinceId) (p q : Project) (x : StateId)
    → HasDenseIds p
    → id_bound p + 1 < no_state
    → add_new_state pal ids p ≡ some (x, q)
    → HasDenseIds q × (id_bound q ≤ id_bound p + 1)
unfolding add_new_state update_state_id_matrix take_state_id
add_new_state-DenseIds pal ids p q x d b e = elim (Bool-cases (all_valid ids p)) [
  | inl v ↦
      let made = some-injective _ _ (rw v at e) in
      let y : StateId = next_state_id p.available_state_ids p.states in
      let t : Project = record p { available_state_ids = popped p.available_state_ids } in
      let m : Project = move_all y ids t in
      subst (λ r. HasDenseIds r.1 × (id_bound r.1 ≤ id_bound p + 1)) made
        (stored-DenseIds y _ p m d b refl (move_all-SameIds y ids t))
  | inr v ↦ absurd (let no = rw v at e in cc)
]

pub remove_state-DenseIds :
    (id : StateId) (p q : Project) (r : Status)
    → HasDenseIds p
    → remove_state id p ≡ some (r, q)
    → HasDenseIds q × (id_bound q ≡ id_bound p)
unfolding remove_state update_state_id_matrix
remove_state-DenseIds id p q r d e = elim (Option-cases (Dict.lookup id p.states)) [
  | inl n ↦
      subst (λ s. HasDenseIds s.1 × (id_bound s.1 ≡ id_bound p))
        (some-injective _ _ (rw (n, remove_state) at e)) (d, refl)
  | inr (st, n) ↦ elim (Bool-cases (all_valid st.provinces p)) [
    | inl v ↦
        let c = clear_all-Cleared st.provinces p in
        let h : Dict.has id p.states ≡ true = ground (arith, n) in
        subst (λ s. HasDenseIds s.1 × (id_bound s.1 ≡ id_bound p))
          (some-injective _ _ (rw (n, v, remove_state) at e))
          (
            rw (c.states, c.available) (erase-DenseIds p.available_state_ids p.states id d h),
            rw (c.states, c.available)
                (omega
                  (arith, size-erase id p.states h, length-append p.available_state_ids (id ∷ []))),
          )
    | inr v ↦ absurd (let no = rw (n, v, remove_state) at e in cc)
  ]
]
