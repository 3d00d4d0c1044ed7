-- ===== src/Project/Map/Ids.antt =====
-- The ids of the states: each id from 1 up to the number of states and of ids given back is either
-- the id of a state or given back. So an id that is taken is new.
use ho_i4_mod_development_to.Base.{
  ℕ, ◌+◌, ◌^◌, ◌%◌, ◌≤◌, ◌<◌, ◌≡◌, refl, ◌∙◌, Bool, true, false, List, [], ◌∷◌, elem, erase_first,
  length, IsDistinct, arith, Option-cases, inl, inr, Bool-cases,
}
use ho_i4_mod_development_to.Base.Dict
use ho_i4_mod_development_to.Base.Dict.{
  Dict, lookup-insert, lookup-erase, lookup-update, lookup_of_has, size-insert_new, size-erase,
  size-update,
}
use ho_i4_mod_development_to.Project.{
  ProvinceId, StateId, no_state, State, Project, is_valid_state_id,
}
use ho_i4_mod_development_to.Project.States.{
  set_state, detach_province, remove_province_from_state, update_state_id_matrix, take_state_id,
  next_state_id, move_all,
}

-- How far the ids go.
abbrev pub bound : List StateId → Dict State → ℕ
bound available states = Dict.size states + length available

pub record DenseIds (available : List StateId) (states : Dict State) : Type 0 where
  pub sorted : Dict.IsSorted states
  pub used : (k : StateId) → Dict.has k states ≡ true → (1 ≤ k) × (k ≤ bound available states)
  pub free :
      (k : StateId)
      → elem k available ≡ true
      → (1 ≤ k) × (k ≤ bound available states) × (Dict.has k states ≡ false)
  pub distinct : IsDistinct available

abbrev pub HasDenseIds : Project → Type 0
HasDenseIds p = DenseIds p.available_state_ids p.states

abbrev pub id_bound : Project → ℕ
id_bound p = bound p.available_state_ids p.states

pub next_is_new :
    (available : List StateId) (states : Dict State)
    → Dict.size states + length available + 1 < no_state
    → ((k : StateId)
        → Dict.has k states ≡ true
        → (1 ≤ k) × (k ≤ Dict.size states + length available))
    → ((k : StateId)
        → elem k available ≡ true
        → (1 ≤ k) × (k ≤ Dict.size states + length available) × (Dict.has k states ≡ false))
    → let x = next_state_id available states in
      (1 ≤ x) × (x < no_state) × (Dict.has x states ≡ false)
unfolding next_state_id
next_is_new [] states b u f =
    let x : ℕ = (Dict.size states + 1) % 2 ^ 32 in
    let e : x ≡ Dict.size states + 1 = omega arith in
    (
      omega (arith, e),
      omega (arith, e),
      elim (Bool-cases (Dict.has x states)) [
        | inl h ↦ absurd (omega (arith, e, (u x h).1))
        | inr h ↦ h
      ],
    )
next_is_new (a ∷ rest) states b u f = let r = f a (ground arith) in (r.0, omega (arith, r.1), r.2)

-- In such a project, with fewer ids than a uint32_t has, the id that is taken is neither 0 nor `-1`
-- nor the id of a state.
pub take_state_id_new :
    (p : Project)
    → HasDenseIds p
    → id_bound p + 1 < no_state
    → let x = (take_state_id p).0 in (1 ≤ x) × (x < no_state) × (Dict.has x p.states ≡ false)
unfolding take_state_id
take_state_id_new p h b = next_is_new p.available_state_ids p.states b h.used h.free

-- What leaves the ids of a project alone.
pub record SameIds (p q : Project) : Type 0 where
  pub has : (k : StateId) → Dict.has k q.states ≡ Dict.has k p.states
  pub size : Dict.size q.states ≡ Dict.size p.states
  pub available : q.available_state_ids ≡ p.available_state_ids
  pub sorted : Dict.IsSorted p.states → Dict.IsSorted q.states

pub detach_province-SameIds :
    (key : ProvinceId) (update : Bool) (p : Project) → SameIds p (detach_province key update p)
unfolding detach_province remove_province_from_state set_state is_valid_state_id
    update_state_id_matrix
detach_province-SameIds key update p = elim (Option-cases (Dict.lookup key p.provinces)) [
  | inl e ↦
      rw (e, detach_province)
        (record { has = λ k. refl; size = refl; available = refl; sorted = λ h. h })
  | inr (prov, e) ↦
      let f : State → State = λ st. record st { provinces = erase_first prov.id st.provinces } in
      record {
        has = λ k. ground (arith, e, lookup-update prov.state k f p.states);
        size = ground (arith, e, size-update prov.state f p.states);
        available = ground (arith, e);
        sorted = λ h. ground (arith, e, Dict.update-IsSorted prov.state f p.states h);
      }
]

pub move_all-SameIds :
    (x : StateId) (ids : List ProvinceId) (p : Project) → SameIds p (move_all x ids p)
unfolding move_all set_state
move_all-SameIds x [] p = record { has = λ k. refl; size = refl; available = refl; sorted = λ h. h }
move_all-SameIds x (id ∷ ids) p =
    let d : SameIds p (detach_province id false p) = detach_province-SameIds id false p in
    let r = move_all-SameIds x ids (set_state x id (detach_province id false p)) in
    record {
      has = λ k. r.has k ∙ d.has k;
      size = r.size ∙ d.size;
      available = r.available ∙ d.available;
      sorted = λ h. r.sorted (d.sorted h);
    }
