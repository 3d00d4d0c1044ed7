-- ===== src/Project/Map/Repair.antt =====
-- mod_dev_tool/project/src/MapProject.cpp, validateData: the repair of provinces that name a state that
-- is not there.
use ho_i4_mod_development_to.Base.{
  ◌≡◌, refl, ap, ◌∙◌, sym, Bool, true, false, Option, none, some, List, [], ◌∷◌, if◌then◌else◌,
  ◌==◌, ==_iff, elem, arith, Option-cases, inl, inr, Bool-cases,
}
use ho_i4_mod_development_to.Base.Dict
use ho_i4_mod_development_to.Base.Dict.{Dict, lookup-update, lookup_of_has}
use ho_i4_mod_development_to.Project.{ProvinceId, no_state, Province, State, Project}
use ho_i4_mod_development_to.Project.States.{set_state}
use ho_i4_mod_development_to.Project.Map.{
  validate_province_state_id, fix_province, validate_step, validate_loop, keys, validate_data,
}
use ho_i4_mod_development_to.Project.Map.Consistent.{members}
use ho_i4_mod_development_to.Project.Map.Validation.{is_placed, validate_loop_accepts, elem-keys}

-- What the repair leaves of a province: one that names a state that is not there names `-1`.
abbrev pub repaired : Dict State → Option Province → Option Province
repaired states none = none
repaired states (some prov) =
    some (if Dict.has prov.state states then prov else record prov { state = no_state })

-- A province whose state is there is listed by it.
abbrev pub IsListed : Project → Type 0
IsListed p =
    (k : ProvinceId) (prov : Province)
    → Dict.lookup k p.provinces ≡ some prov
    → Dict.has prov.state p.states ≡ true
    → elem prov.id (members p prov.state) ≡ true

pub record Repairs (ks : List ProvinceId) (p q : Project) : Type 0 where
  pub states : q.states ≡ p.states
  pub provinces :
      (k : ProvinceId)
      → Dict.lookup k q.provinces ≡ (
          if elem k ks
          then repaired p.states (Dict.lookup k p.provinces)
          else Dict.lookup k p.provinces)

unnamed_repaired :
    (states : Dict State) (prov : Province)
    → (prov.state == no_state) ≡ true
    → repaired states (some prov) ≡ some prov
unnamed_repaired states prov m =
    let e : no_state ≡ prov.state = omega (arith, (==_iff prov.state no_state).0 m) in
    let o : record prov { state = no_state } ≡ prov = ap (λ s. record prov { state = s }) e in
    ground (arith, o)

validate_step-Repairs :
    (k : ProvinceId) (valid : Bool) (p : Project)
    → IsListed p
    → (q : Project) × (validate_step true k (valid, p) ≡ (valid, q)) × Repairs (k ∷ []) p q
unfolding validate_step validate_province_state_id fix_province set_state
validate_step-Repairs k valid p h = elim (Option-cases (Dict.lookup k p.provinces)) [
  | inl n ↦ (p, ground (arith, n), record { states = refl; provinces = λ j. ground (arith, n) })
  | inr (prov, n) ↦ elim (Bool-cases (Dict.has prov.state p.states)) [
    | inl t ↦ (
      p,
      ground (arith, n, t, h k prov n t),
      record { states = refl; provinces = λ j. ground (arith, n, t) },
    )
    | inr t ↦ elim (Bool-cases (prov.state == no_state)) [
      | inl m ↦
          let o : repaired p.states (some prov) ≡ some prov = unnamed_repaired p.states prov m in
          (p, ground (arith, n, m), record { states = refl; provinces = λ j. ground (arith, n, o) })
      | inr m ↦ (
        set_state no_state k p,
        ground (arith, n, t, m),
        record {
          states = refl;
          provinces = λ j. ground (
            arith,
            n,
            t,
            lookup-update k j (λ (q : Province). record q { state = no_state }) p.provinces,
          );
        },
      )
    ]
  ]
]

-- What the repair leaves names a state that is there only if the province named it before.
repaired_named :
    (states : Dict State) (old prov : Province)
    → Dict.has no_state states ≡ false
    → repaired states (some old) ≡ some prov
    → Dict.has prov.state states ≡ true
    → old ≡ prov
repaired_named states old prov n e t = elim (Bool-cases (Dict.has old.state states)) [
  | inl h ↦ ground (arith, e, h)
  | inr h ↦ absurd (ground (arith, e, h, n, t))
]

Repairs-IsListed :
    (ks : List ProvinceId) (p q : Project)
    → Repairs ks p q
    → Dict.has no_state p.states ≡ false
    → IsListed p
    → IsListed q
Repairs-IsListed ks p q r m h k prov e t =
    let e' = sym (r.provinces k) ∙ e in
    let t' : Dict.has prov.state p.states ≡ true =
      ap (λ s. Dict.has prov.state s) (sym r.states) ∙ t in
    let old : Dict.lookup k p.provinces ≡ some prov =
      elim (Option-cases (Dict.lookup k p.provinces)) [
        | inl n ↦ absurd (ground (arith, n, e'))
        | inr (o, n) ↦ elim (Bool-cases (elem k ks)) [
          | inl i ↦
              n ∙ ap (λ x. some x) (repaired_named p.states o prov m (ground (arith, n, e', i)) t')
          | inr i ↦ ground (arith, e', i)
        ]
      ] in
    rw r.states (h k prov old t')

repaired_twice :
    (states : Dict State) (o : Option Province)
    → repaired states (repaired states o) ≡ repaired states o
repaired_twice states none = refl
repaired_twice states (some prov) = ground arith

Repairs-trans :
    (k : ProvinceId) (ks : List ProvinceId) (p q r : Project)
    → Repairs (k ∷ []) p q
    → Repairs ks q r
    → Repairs (k ∷ ks) p r
Repairs-trans k ks p q r a b = record {
  states = b.states ∙ a.states;
  provinces = λ j.
      let f = rw a.states at (b.provinces j) in
      ground (arith, f, a.provinces j, repaired_twice p.states (Dict.lookup j p.provinces));
}

validate_loop-Repairs :
    (ks : List ProvinceId) (p : Project)
    → Dict.has no_state p.states ≡ false
    → IsListed p
    → (q : Project) × (validate_loop true ks (true, p) ≡ (true, q)) × Repairs ks p q
unfolding validate_loop
validate_loop-Repairs [] p m h = (p, refl, record { states = refl; provinces = λ k. refl })
validate_loop-Repairs (k ∷ ks) p m h =
    let (q, e, a) = validate_step-Repairs k true p h in
    let m' : Dict.has no_state q.states ≡ false = rw a.states m in
    let (r, f, b) = validate_loop-Repairs ks q m' (Repairs-IsListed (k ∷ []) p q a m h) in
    (r, ap (λ x. validate_loop true ks x) e ∙ f, Repairs-trans k ks p q r a b)

repaired_placed :
    (p q : Project)
    → Dict.has no_state p.states ≡ false
    → q.states ≡ p.states
    → ((k : ProvinceId) → Dict.lookup k q.provinces ≡ repaired p.states (Dict.lookup k p.provinces))
    → IsListed q
    → (k : ProvinceId) (prov : Province) → Dict.lookup k q.provinces ≡ some prov
    → is_placed q prov ≡ true
repaired_placed p q m s r h k prov e = elim (Bool-cases (Dict.has prov.state q.states)) [
  | inl t ↦ ground (arith, h k prov e t)
  | inr t ↦
      let t' : Dict.has prov.state p.states ≡ false = rw s at t in
      let e' = sym (r k) ∙ e in
      elim (Option-cases (Dict.lookup k p.provinces)) [
        | inl n ↦ absurd (ground (arith, n, e'))
        | inr (old, n) ↦ ground (arith, n, e', t')
      ]
]

-- Where `-1` is no state, and each province whose state is there is listed by it, the check with
-- repairs accepts. It changes no state, and of the provinces exactly those that name a state that is
-- not there, which then name `-1`. What it leaves passes the check without repairs.
pub validate_data_repairs :
    (p : Project)
    → Dict.has no_state p.states ≡ false
    → IsListed p
    → (q : Project) × (validate_data true p ≡ (true, q))
      × (q.states ≡ p.states)
      × ((k : ProvinceId)
          → Dict.lookup k q.provinces ≡ repaired p.states (Dict.lookup k p.provinces))
      × (validate_data false q ≡ (true, q))
unfolding validate_data
validate_data_repairs p m h =
    let (q, e, r) = validate_loop-Repairs (keys p.provinces) p m h in
    let all : (k : ProvinceId)
        → Dict.lookup k q.provinces ≡ repaired p.states (Dict.lookup k p.provinces) =
      λ k. elim (Option-cases (Dict.lookup k p.provinces)) [
        | inl n ↦ ground (arith, r.provinces k, n)
        | inr (prov, n) ↦ ground (arith, r.provinces k, n, elem-keys k p.provinces prov n)
      ] in
    (
      q,
      e,
      r.states,
      all,
      validate_loop_accepts false (keys q.provinces) q
          (repaired_placed p q m r.states all (Repairs-IsListed (keys p.provinces) p q r m h)),
    )
