-- ===== src/Project/Map/Moving.antt =====
-- moveProvinceToState keeps the invariant, and moves one province.
use ho_i4_mod_development_to.Base.{
  ℕ, ◌≡◌, refl, ◌∙◌, ◌≢◌, Bool, true, false, some, List, [], ◌∷◌, ◌++◌, if◌then◌else◌, ◌==◌, elem,
  elem-append, IsDistinct, arith, Option-cases, inl, inr, Bool-cases,
}
use ho_i4_mod_development_to.Base.Dict
use ho_i4_mod_development_to.Base.Dict.{Dict, lookup-update}
use ho_i4_mod_development_to.Project.{ProvinceId, StateId, no_state, Province, Project}
use ho_i4_mod_development_to.Project.States.{
  set_state, add_province_to_state, detach_province, update_state_id_matrix,
}
use ho_i4_mod_development_to.Project.Map.{move_province_to_state}
use ho_i4_mod_development_to.Project.Map.Consistent.{
  members, belongs, IsConsistent, belongs-set_state, members-add, lookup-detach,
  belongs-update_state_id_matrix, IsCurrent, update_state_id_matrix-IsCurrent,
  update_state_id_matrix-IsConsistent, belongs-add, provinces-add, IsSorted-add, has-add,
  belongs-detach, has-detach, detach_province-IsConsistent,
}

-- A new last element keeps a list distinct.
pub append-IsDistinct :
    (k : ℕ) (xs : List ℕ) → IsDistinct xs → elem k xs ≡ false → IsDistinct (xs ++ k ∷ [])
append-IsDistinct k [] d h = (refl, tt)
append-IsDistinct k (x ∷ xs) d h =
    ground (arith, append-IsDistinct k xs d.1, elem-append x xs (k ∷ []))

pub keyed-set_state :
    (t : StateId) (key : ProvinceId) (p : Project)
    → ((k : ProvinceId) (q : Province) → Dict.lookup k p.provinces ≡ some q → q.id ≡ k)
    → (k : ProvinceId) (q : Province) → Dict.lookup k (set_state t key p).provinces ≡ some q
    → q.id ≡ k
unfolding set_state
keyed-set_state t key p h k q e = elim (Option-cases (Dict.lookup k p.provinces)) [
  | inl n ↦
      ground (arith, lookup-update key k (λ (q : Province). record q { state = t }) p.provinces)
  | inr (r, n) ↦
      ground
        (arith, lookup-update key k (λ (q : Province). record q { state = t }) p.provinces, h k r n)
]

attach : StateId → ProvinceId → Project → Project
attach t key p = (add_province_to_state t key (set_state t key p)).1

-- A province of no state that is put into one.
module _ (t : StateId) (key : ProvinceId) (prov : Province) (p : Project) (c : IsConsistent p)
    (found : Dict.lookup key p.provinces ≡ some prov) (free : prov.state ≡ no_state)
    (valid : Dict.has t p.states ≡ true) where
  ne_minus : t ≢ no_state
  ne_minus e = let h : Dict.has t p.states ≡ false = rw e c.no_minus in cc

  fresh : elem key (members p t) ≡ false
  fresh = ground (arith, c.member t key ne_minus ne_minus, found, free, ne_minus)

  members-attach :
      (s : StateId)
      → members (attach t key p) s ≡ (if t == s then members p s ++ key ∷ [] else members p s)
  unfolding attach set_state
  members-attach s = members-add t s key (set_state t key p) valid

  belongs-attach :
      (k : ProvinceId) (s : StateId)
      → belongs (attach t key p) k s ≡ (if key == k then t == s else belongs p k s)
  unfolding attach
  belongs-attach k s =
      ground
        (arith, belongs-add t key (set_state t key p) k s, belongs-set_state t s key k p, found)

  attach-IsConsistent : IsConsistent (attach t key p)
  unfolding attach
  attach-IsConsistent = record {
    sorted = IsSorted-add t key (set_state t key p) (unfold set_state in c.sorted);
    no_minus = rw (has-add t key (set_state t key p) no_state) (unfold set_state in c.no_minus);
    keyed = rw (provinces-add t key (set_state t key p)) (keyed-set_state t key p c.keyed);
    distinct = λ s. elim (Bool-cases (t == s)) [
      | inl e ↦
          rw (members-attach s, e)
            (append-IsDistinct key (members p s) (c.distinct s) (ground (arith, fresh)))
      | inr e ↦ rw (members-attach s, e) (c.distinct s)
    ];
    member = λ s k n m. ground (
      arith,
      members-attach s,
      belongs-attach k s,
      c.member s k n m,
      fresh,
      elem-append k (members p s) (key ∷ []),
    );
  }

moves :
    (key : ProvinceId) (t : StateId) (p : Project) (prov : Province)
    → Dict.lookup key p.provinces ≡ some prov
    → prov.id ≡ key
    → move_province_to_state key t p
      ≡ some (update_state_id_matrix (attach t key (detach_province key true p)))
unfolding move_province_to_state attach
moves key t p prov e k = ground arith

-- Moving a province of the project into a state of the project keeps the invariant. Afterwards the
-- province names that state, every other province names the state it named, and the pixels of the
-- state matrix are those that the provinces say.
pub move_province_to_state-IsConsistent :
    (key : ProvinceId) (t : StateId) (p : Project)
    → IsConsistent p
    → Dict.has key p.provinces ≡ true
    → Dict.has t p.states ≡ true
    → (q : Project) × (move_province_to_state key t p ≡ some q)
      × IsConsistent q
      × ((k : ProvinceId) (s : StateId)
          → belongs q k s ≡ (if key == k then t == s else belongs p k s))
      × IsCurrent q
move_province_to_state-IsConsistent key t p c h v =
    elim (Option-cases (Dict.lookup key p.provinces)) [
      | inl e ↦ absurd (let no : ◌≡◌ {A = Bool} false true = rw e at h in cc)
      | inr (prov, e) ↦
          let d : Project = detach_province key true p in
          let free : Province = record prov { state = no_state } in
          let cd : IsConsistent d = detach_province-IsConsistent no_state key true p c in
          let e' : Dict.lookup key d.provinces ≡ some free = lookup-detach key prov true p e in
          let v' : Dict.has t d.states ≡ true = has-detach key prov true p e t ∙ v in
          (
            update_state_id_matrix (attach t key d),
            moves key t p prov e (c.keyed key prov e),
            update_state_id_matrix-IsConsistent (attach t key d)
                (attach-IsConsistent t key free d cd e' refl v'),
            λ k s. ground (
              arith,
              belongs-update_state_id_matrix (attach t key d) k s,
              belongs-attach t key free d cd e' refl v' k s,
              belongs-detach key prov true p e k s,
            ),
            update_state_id_matrix-IsCurrent (attach t key d),
          )
    ]
