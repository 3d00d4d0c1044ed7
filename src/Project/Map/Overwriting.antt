-- ===== src/Project/Map/Overwriting.antt =====
-- mod_dev_tool/project/src/StateProject.cpp: the ids that `load` counts as free, and what a state made
-- under the id of another does.
use ho_i4_mod_development_to.Base.{
  ℕ, zero, suc, ◌+◌, ◌-◌, ◌≤◌, ◌<◌, ◌≡◌, refl, ap, subst, ◌∙◌, true, not, ◌&&◌, some, List, [], ◌∷◌,
  leb, ltb, elem, IsDistinct, arith,
}
use ho_i4_mod_development_to.Base.Dict
use ho_i4_mod_development_to.Base.Dict.{Dict, lookup-insert, size-insert_old}
use ho_i4_mod_development_to.Colors.{Palette, unknown, generate_unique_color}
use ho_i4_mod_development_to.Project.{ProvinceId, StateId, no_state, State, Project}
use ho_i4_mod_development_to.Project.States.{
  unused_ids, track_unused_ids, update_state_id_matrix, take_state_id, next_state_id, popped,
  move_all, all_valid, add_new_state,
}
use ho_i4_mod_development_to.Project.Map.Consistent.{members}
use ho_i4_mod_development_to.Project.Map.Making.{made_state}
use ho_i4_mod_development_to.Project.Map.Ids.{HasDenseIds, SameIds, move_all-SameIds}

elem-unused_ids :
    (n : ℕ) (id : StateId) (states : Dict State) (k : StateId)
    → elem k (unused_ids n id states) ≡ (leb id k && ltb k (id + n) && not (Dict.has k states))
unfolding unused_ids
elem-unused_ids zero id states k = ground arith
elem-unused_ids (suc n) id states k = ground (arith, elem-unused_ids n (id + 1) states k)

unused_ids-IsDistinct :
    (n : ℕ) (id : StateId) (states : Dict State) → IsDistinct (unused_ids n id states)
unfolding unused_ids
unused_ids-IsDistinct zero id states = tt
unused_ids-IsDistinct (suc n) id states =
    let e = elem-unused_ids n (id + 1) states id in
    ground (arith, unused_ids-IsDistinct n (id + 1) states, e)

-- Where no id is past the number of states, the ids are dense once `load` is done.
pub track_unused_ids-DenseIds :
    (p : Project)
    → p.available_state_ids ≡ []
    → Dict.IsSorted p.states
    → ((k : StateId) → Dict.has k p.states ≡ true → (1 ≤ k) × (k ≤ Dict.size p.states))
    → HasDenseIds (track_unused_ids p)
unfolding track_unused_ids
track_unused_ids-DenseIds p a s u =
    let n : ℕ = Dict.size p.states - 1 in
    rw a (record {
      sorted = s;
      used = λ k h. let v = u k h in (v.0, omega (arith, v.1));
      free = λ k m. ground (arith, elem-unused_ids n 1 p.states k, m);
      distinct = unused_ids-IsDistinct n 1 p.states;
    })

next_after :
    (available : List StateId) (states : Dict State)
    → available ≡ []
    → Dict.size states + 1 < no_state
    → next_state_id available states ≡ Dict.size states + 1
unfolding next_state_id
next_after [] states a b = omega arith
next_after (x ∷ xs) states a b = absurd cc

-- Where no id was given back and the number of states, plus one, is already the id of a state,
-- `addNewState` returns that id, and its state takes the place of the other: the number of states stays.
pub add_new_state_overwrites :
    (pal : Palette) (ids : List ProvinceId) (p : Project)
    → p.available_state_ids ≡ []
    → Dict.IsSorted p.states
    → Dict.size p.states + 1 < no_state
    → Dict.has (Dict.size p.states + 1) p.states ≡ true
    → all_valid ids p ≡ true
    → (q : Project) × (add_new_state pal ids p ≡ some (Dict.size p.states + 1, q))
      × (Dict.size q.states ≡ Dict.size p.states)
      × (members q (Dict.size p.states + 1) ≡ ids)
unfolding add_new_state take_state_id update_state_id_matrix
add_new_state_overwrites pal ids p a s b h v =
    let y : StateId = next_state_id p.available_state_ids p.states in
    let e : y ≡ Dict.size p.states + 1 = next_after p.available_state_ids p.states a b in
    let t : Project = record p { available_state_ids = popped p.available_state_ids } in
    let m : Project = move_all y ids t in
    let r : SameIds t m = move_all-SameIds y ids t in
    let old : Dict.has y m.states ≡ true = r.has y ∙ ap (λ k. Dict.has k p.states) e ∙ h in
    subst
      (λ x.
        (q : Project) × (add_new_state pal ids p ≡ some (x, q))
        × (Dict.size q.states ≡ Dict.size p.states)
        × (members q x ≡ ids))
      e
      (
        update_state_id_matrix (record m {
          states = Dict.insert y (made_state pal y ids m) m.states;
          colors = (generate_unique_color pal unknown m.colors).1;
        }),
        rw v refl,
        size-insert_old y (made_state pal y ids m) m.states (r.sorted s) old ∙ r.size,
        ground (arith, lookup-insert y y (made_state pal y ids m) m.states),
      )
