-- ===== src/Project/Map/Consistent.antt =====
-- The invariant that ties the provinces to the states: a state lists exactly the provinces that name
-- it. What the small operations do to the lists and to the names.
use ho_i4_mod_development_to.Base.{
  ◌≡◌, refl, ◌≢◌, Bool, true, false, ◌&&◌, none, some, List, [], ◌∷◌, ◌++◌, map, if◌then◌else◌,
  ◌==◌, elem, erase_first, IsDistinct, arith, elem-erase_first_ne, elem-erase_first_self,
  erase_first-IsDistinct, Option-cases, inl, inr, Bool-cases,
}
use ho_i4_mod_development_to.Base.Dict
use ho_i4_mod_development_to.Base.Dict.{Dict, lookup-update}
use ho_i4_mod_development_to.Project.{
  ProvinceId, StateId, no_state, Province, State, Project, is_valid_state_id,
}
use ho_i4_mod_development_to.Project.States.{
  set_state, add_province_to_state, remove_province_from_state, detach_province,
  update_state_id_matrix, state_at,
}

-- The provinces that a state lists; none if there is no such state.
abbrev pub members : Project → StateId → List ProvinceId
members p s = elim (Dict.lookup s p.states) [ none ↦ [] | some st ↦ st.provinces ]

-- Whether there is such a province, and it names the state as its own.
abbrev pub belongs : Project → ProvinceId → StateId → Bool
belongs p k s = elim (Dict.lookup k p.provinces) [ none ↦ false | some prov ↦ prov.state == s ]

-- The invariant for every state but `x`, which a loop has not yet made.
pub record IsConsistentBut (x : StateId) (p : Project) : Type 0 where
  pub sorted : Dict.IsSorted p.states
  pub no_minus : Dict.has no_state p.states ≡ false
  pub keyed :
      (k : ProvinceId) (prov : Province) → Dict.lookup k p.provinces ≡ some prov → prov.id ≡ k
  pub distinct : (s : StateId) → IsDistinct (members p s)
  pub member :
      (s : StateId) (k : ProvinceId) → s ≢ no_state → s ≢ x → elem k (members p s) ≡ belongs p k s

-- `-1` is no state.
abbrev pub IsConsistent : Project → Type 0
IsConsistent p = IsConsistentBut no_state p

pub belongs-set_state :
    (t s : StateId) (key k : ProvinceId) (p : Project)
    → belongs (set_state t key p) k s
      ≡ (if key == k then Dict.has k p.provinces && t == s else belongs p k s)
unfolding set_state
belongs-set_state t s key k p =
    ground (arith, lookup-update key k (λ (q : Province). record q { state = t }) p.provinces)

pub members-set_state :
    (t s : StateId) (key : ProvinceId) (p : Project) → members (set_state t key p) s ≡ members p s
unfolding set_state
members-set_state t s key p = refl

pub members-add :
    (t s : StateId) (id : ProvinceId) (p : Project)
    → Dict.has t p.states ≡ true
    → members (add_province_to_state t id p).1 s
      ≡ (if t == s then members p s ++ id ∷ [] else members p s)
unfolding add_province_to_state is_valid_state_id
members-add t s id p h = ground (
  arith,
  lookup-update t s (λ (st : State). record st { provinces = st.provinces ++ id ∷ [] }) p.states,
)

module _ (t : StateId) (id : ProvinceId) (p : Project) where
  abbrev push : State → State
  push st = record st { provinces = st.provinces ++ id ∷ [] }

  pub provinces-add : (add_province_to_state t id p).1.provinces ≡ p.provinces
  unfolding add_province_to_state is_valid_state_id
  provinces-add = ground arith

  pub belongs-add :
      (k : ProvinceId) (s : StateId) → belongs (add_province_to_state t id p).1 k s ≡ belongs p k s
  unfolding add_province_to_state is_valid_state_id
  belongs-add k s = ground arith

  pub IsSorted-add : Dict.IsSorted p.states → Dict.IsSorted (add_province_to_state t id p).1.states
  unfolding add_province_to_state is_valid_state_id
  IsSorted-add h = ground (arith, Dict.update-IsSorted t push p.states h)

  pub has-add :
      (s : StateId) → Dict.has s (add_province_to_state t id p).1.states ≡ Dict.has s p.states
  unfolding add_province_to_state is_valid_state_id
  has-add s = ground (arith, lookup-update t s push p.states)

pub members-remove :
    (t s : StateId) (id : ProvinceId) (p : Project)
    → members (remove_province_from_state t id p).1 s
      ≡ (if t == s then erase_first id (members p s) else members p s)
unfolding remove_province_from_state is_valid_state_id
members-remove t s id p = ground (
  arith,
  lookup-update t s (λ (st : State). record st { provinces = erase_first id st.provinces })
      p.states,
)

module _ (key : ProvinceId) (prov : Province) (update : Bool) (p : Project)
    (found : Dict.lookup key p.provinces ≡ some prov) where
  pub members-detach :
      (s : StateId)
      → members (detach_province key update p) s
        ≡ (if prov.state == s then erase_first prov.id (members p s) else members p s)
  unfolding detach_province is_valid_state_id update_state_id_matrix set_state
  members-detach s = ground (arith, members-remove prov.state s prov.id p)

  pub belongs-detach :
      (k : ProvinceId) (s : StateId)
      → belongs (detach_province key update p) k s
        ≡ (if key == k then no_state == s else belongs p k s)
  unfolding detach_province is_valid_state_id update_state_id_matrix remove_province_from_state
      set_state
  belongs-detach k s =
      ground
        (arith, lookup-update key k (λ (q : Province). record q { state = no_state }) p.provinces)

  pub lookup-detach :
      Dict.lookup key (detach_province key update p).provinces
      ≡ some (record prov { state = no_state })
  unfolding detach_province is_valid_state_id update_state_id_matrix remove_province_from_state
      set_state
  lookup-detach =
      ground
        (arith, lookup-update key key (λ (q : Province). record q { state = no_state }) p.provinces)

  pub IsSorted-detach : Dict.IsSorted p.states → Dict.IsSorted (detach_province key update p).states
  unfolding detach_province is_valid_state_id update_state_id_matrix remove_province_from_state
      set_state
  IsSorted-detach h = ground (
    arith,
    Dict.update-IsSorted prov.state
        (λ (st : State). record st { provinces = erase_first prov.id st.provinces }) p.states h,
  )

  pub has-detach :
      (s : StateId) → Dict.has s (detach_province key update p).states ≡ Dict.has s p.states
  unfolding detach_province is_valid_state_id update_state_id_matrix remove_province_from_state
      set_state
  has-detach s = ground (
    arith,
    lookup-update prov.state s
        (λ (st : State). record st { provinces = erase_first prov.id st.provinces }) p.states,
  )

  -- The ids of the provinces stay.
  pub keyed-detach :
      ((k : ProvinceId) (q : Province) → Dict.lookup k p.provinces ≡ some q → q.id ≡ k)
      → (k : ProvinceId) (q : Province)
      → Dict.lookup k (detach_province key update p).provinces ≡ some q
      → q.id ≡ k
  unfolding detach_province is_valid_state_id update_state_id_matrix remove_province_from_state
      set_state
  keyed-detach h k q e = elim (Option-cases (Dict.lookup k p.provinces)) [
    | inl n ↦
        ground
          (arith, lookup-update key k (λ (q : Province). record q { state = no_state }) p.provinces)
    | inr (r, n) ↦ ground (
      arith,
      lookup-update key k (λ (q : Province). record q { state = no_state }) p.provinces,
      h k r n,
    )
  ]

detach_missing :
    (key : ProvinceId) (update : Bool) (p : Project)
    → Dict.lookup key p.provinces ≡ none
    → detach_province key update p ≡ p
unfolding detach_province
detach_missing key update p e = rw (e, detach_province) refl

pub has_province-detach :
    (key k : ProvinceId) (update : Bool) (p : Project)
    → Dict.has k (detach_province key update p).provinces ≡ Dict.has k p.provinces
unfolding detach_province remove_province_from_state update_state_id_matrix is_valid_state_id
    set_state
has_province-detach key k update p =
    ground
      (arith, lookup-update key k (λ (q : Province). record q { state = no_state }) p.provinces)

-- Taking a province out of its state keeps the invariant.
pub detach_province-IsConsistent :
    (x : StateId) (key : ProvinceId) (update : Bool) (p : Project)
    → IsConsistentBut x p
    → IsConsistentBut x (detach_province key update p)
detach_province-IsConsistent x key update p c = elim (Option-cases (Dict.lookup key p.provinces)) [
  | inl e ↦ rw (detach_missing key update p e) c
  | inr (prov, e) ↦ record {
    sorted = IsSorted-detach key prov update p e c.sorted;
    no_minus = rw (has-detach key prov update p e) c.no_minus;
    keyed = keyed-detach key prov update p e c.keyed;
    distinct = λ s. elim (Bool-cases (prov.state == s)) [
      | inl t ↦
          rw (members-detach key prov update p e s, t)
            (erase_first-IsDistinct prov.id (members p s) (c.distinct s))
      | inr t ↦ rw (members-detach key prov update p e s, t) (c.distinct s)
    ];
    member = λ s k n m. ground (
      arith,
      members-detach key prov update p e s,
      belongs-detach key prov update p e k s,
      c.member s k n m,
      c.member s key n m,
      elem-erase_first_ne k prov.id (members p s),
      elem-erase_first_self prov.id (members p s) (c.distinct s),
      c.keyed key prov e,
      e,
    );
  }
]

pub update_state_id_matrix-IsConsistent :
    (p : Project) → IsConsistent p → IsConsistent (update_state_id_matrix p)
unfolding update_state_id_matrix
update_state_id_matrix-IsConsistent p c = record {
  sorted = c.sorted;
  no_minus = c.no_minus;
  keyed = c.keyed;
  distinct = c.distinct;
  member = c.member;
}

pub belongs-update_state_id_matrix :
    (p : Project) (k : ProvinceId) (s : StateId)
    → belongs (update_state_id_matrix p) k s ≡ belongs p k s
unfolding update_state_id_matrix
belongs-update_state_id_matrix p k s = refl

pub members-update_state_id_matrix :
    (p : Project) (s : StateId) → members (update_state_id_matrix p) s ≡ members p s
unfolding update_state_id_matrix
members-update_state_id_matrix p s = refl

-- Each pixel of the state matrix is what the provinces say of its province.
abbrev pub IsCurrent : Project → Type 0
IsCurrent p = p.state_id_matrix ≡ map (state_at p.provinces) p.province_matrix

pub update_state_id_matrix-IsCurrent : (p : Project) → IsCurrent (update_state_id_matrix p)
unfolding update_state_id_matrix
update_state_id_matrix-IsCurrent p = refl
