-- ===== src/Project/Map/Validation.antt =====
-- mod_dev_tool/project/src/MapProject.cpp, validateData: what the check of the loaded data accepts.
use ho_i4_mod_development_to.Base.{
  ◌≡◌, refl, ap, ◌∙◌, sym, ◌≢◌, ◌↔◌, Bool, true, false, ◌&&◌, not, none, some, List, [], ◌∷◌,
  if◌then◌else◌, ◌==◌, elem, arith, Option-cases, inl, inr, Bool-cases,
}
use ho_i4_mod_development_to.Base.Dict
use ho_i4_mod_development_to.Base.Dict.{Dict, lookup-update, lookup_of_has}
use ho_i4_mod_development_to.Project.{ProvinceId, no_state, Province, Project}
use ho_i4_mod_development_to.Project.Map.{
  validate_province_state_id, is_success, validate_step, validate_loop, keys, validate_data,
}
use ho_i4_mod_development_to.Project.Map.Consistent.{members, IsConsistent}

-- A province that names `-1`, or a state that lists it.
abbrev pub is_placed : Project → Province → Bool
is_placed p prov = if prov.state == no_state then true else elem prov.id (members p prov.state)

pub validate_province_state_id-is_placed :
    (p : Project) (prov : Province)
    → is_success (validate_province_state_id prov.state prov.id p) ≡ is_placed p prov
unfolding validate_province_state_id
validate_province_state_id-is_placed p prov = ground arith

abbrev pub all_placed : Project → List ProvinceId → Bool
all_placed p [] = true
all_placed p (k ∷ ks) =
    (elim (Dict.lookup k p.provinces) [ none ↦ true | some prov ↦ is_placed p prov ])
    && all_placed p ks

validate_step-all_placed :
    (fix : Bool) (k : ProvinceId) (valid : Bool) (p : Project)
    → (fix && not (all_placed p (k ∷ []))) ≡ false
    → validate_step fix k (valid, p) ≡ (valid && all_placed p (k ∷ []), p)
unfolding validate_step
validate_step-all_placed fix k valid p h = elim (Option-cases (Dict.lookup k p.provinces)) [
  | inl n ↦ ground (arith, n)
  | inr (prov, n) ↦ ground (arith, n, validate_province_state_id-is_placed p prov)
]

validate_loop-all_placed :
    (ks : List ProvinceId) (valid : Bool) (p : Project)
    → validate_loop false ks (valid, p) ≡ (valid && all_placed p ks, p)
unfolding validate_loop
validate_loop-all_placed [] valid p = ground arith
validate_loop-all_placed (k ∷ ks) valid p =
    ap (λ r. validate_loop false ks r) (validate_step-all_placed false k valid p refl)
    ∙ validate_loop-all_placed ks (valid && all_placed p (k ∷ [])) p
    ∙ ground arith

pub elem-keys :
    (k : ProvinceId) (m : Dict Province) (prov : Province)
    → Dict.lookup k m ≡ some prov
    → elem k (keys m) ≡ true
elem-keys k [] prov e = absurd cc
elem-keys k ((j, q) ∷ m) prov e = ground (arith, elem-keys k m prov)

all_placed-elim :
    (ks : List ProvinceId) (p : Project) (k : ProvinceId) (prov : Province)
    → all_placed p ks ≡ true
    → elem k ks ≡ true
    → Dict.lookup k p.provinces ≡ some prov
    → is_placed p prov ≡ true
all_placed-elim [] p k prov h m e = absurd (let no : ◌≡◌ {A = Bool} false true = m in cc)
all_placed-elim (j ∷ ks) p k prov h m e = elim (Bool-cases (j == k)) [
  | inl t ↦ ground (arith, h, e, t)
  | inr t ↦ all_placed-elim ks p k prov (ground (arith, h)) (ground (arith, m, t)) e
]

all_placed-intro :
    (ks : List ProvinceId) (p : Project)
    → ((k : ProvinceId) (prov : Province)
        → Dict.lookup k p.provinces ≡ some prov
        → is_placed p prov ≡ true)
    → all_placed p ks ≡ true
all_placed-intro [] p h = refl
all_placed-intro (k ∷ ks) p h = elim (Option-cases (Dict.lookup k p.provinces)) [
  | inl n ↦ ground (arith, n, all_placed-intro ks p h)
  | inr (prov, n) ↦ ground (arith, n, h k prov n, all_placed-intro ks p h)
]

-- Without repairs, the check changes nothing, and it accepts exactly the projects in which each
-- province names `-1` or a state that lists it.
pub validate_data_iff :
    (p : Project)
    → ((validate_data false p).1 ≡ p)
      × (((validate_data false p).0 ≡ true) ↔ (
          (k : ProvinceId) (prov : Province)
          → Dict.lookup k p.provinces ≡ some prov
          → is_placed p prov ≡ true))
unfolding validate_data
validate_data_iff p =
    let e = validate_loop-all_placed (keys p.provinces) true p in
    (
      ap (λ r. r.1) e,
      (
        λ t k prov f.
            all_placed-elim (keys p.provinces) p k prov (sym (ap (λ r. r.0) e) ∙ t)
              (elem-keys k p.provinces prov f) f,
        λ h. ap (λ r. r.0) e ∙ all_placed-intro (keys p.provinces) p h,
      ),
    )

consistent_placed :
    (p : Project)
    → IsConsistent p
    → (k : ProvinceId) (prov : Province) → Dict.lookup k p.provinces ≡ some prov
    → is_placed p prov ≡ true
consistent_placed p c k prov e = elim (Bool-cases (prov.state == no_state)) [
  | inl t ↦ ground (arith, t)
  | inr t ↦
      let n : prov.state ≢ no_state = ground (arith, t) in
      ground (arith, t, c.member prov.state k n n, c.keyed k prov e, e)
]

pub validate_loop_accepts :
    (fix : Bool) (ks : List ProvinceId) (p : Project)
    → ((k : ProvinceId) (prov : Province)
        → Dict.lookup k p.provinces ≡ some prov
        → is_placed p prov ≡ true)
    → validate_loop fix ks (true, p) ≡ (true, p)
unfolding validate_loop
validate_loop_accepts fix [] p h = refl
validate_loop_accepts fix (k ∷ ks) p h =
    let t : all_placed p (k ∷ []) ≡ true = all_placed-intro (k ∷ []) p h in
    let u = validate_step-all_placed fix k true p (ground (arith, t)) in
    ap (λ r. validate_loop fix ks r) u
    ∙ ap (λ b. validate_loop fix ks (b, p)) t
    ∙ validate_loop_accepts fix ks p h

-- With or without repairs, the check accepts a project that the operations keep consistent, and it
-- changes nothing.
pub validate_data-IsConsistent :
    (fix : Bool) (p : Project) → IsConsistent p → validate_data fix p ≡ (true, p)
unfolding validate_data
validate_data-IsConsistent fix p c =
    validate_loop_accepts fix (keys p.provinces) p (consistent_placed p c)
