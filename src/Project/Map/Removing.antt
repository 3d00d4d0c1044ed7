-- ===== src/Project/Map/Removing.antt =====
-- removeState keeps the invariant, never meets a missing province, and frees the state's provinces.
use ho_i4_mod_development_to.Base.{
  ◌≡◌, refl, ◌∙◌, ◌≢◌, true, false, some, List, [], ◌∷◌, ◌++◌, if◌then◌else◌, ◌==◌, elem, arith,
  inl, inr, Bool-cases,
}
use ho_i4_mod_development_to.Base.Dict
use ho_i4_mod_development_to.Base.Dict.{Dict, lookup-erase, lookup_of_has}
use ho_i4_mod_development_to.Status.{success}
use ho_i4_mod_development_to.Project.{
  ProvinceId, StateId, no_state, Province, State, Project, is_valid_province_id,
}
use ho_i4_mod_development_to.Project.States.{
  set_state, update_state_id_matrix, all_valid, clear_all, remove_state,
}
use ho_i4_mod_development_to.Project.Map.Consistent.{
  members, belongs, IsConsistent, belongs-set_state, update_state_id_matrix-IsConsistent,
  belongs-update_state_id_matrix, IsCurrent, update_state_id_matrix-IsCurrent,
}
use ho_i4_mod_development_to.Project.Map.Moving.{keyed-set_state}

-- What the loop over the provinces of a removed state leaves alone, and what it changes.
pub record Cleared (ids : List ProvinceId) (p q : Project) : Type 0 where
  pub states : q.states ≡ p.states
  pub available : q.available_state_ids ≡ p.available_state_ids
  pub keyed :
      ((k : ProvinceId) (r : Province) → Dict.lookup k p.provinces ≡ some r → r.id ≡ k)
      → (k : ProvinceId) (r : Province) → Dict.lookup k q.provinces ≡ some r
      → r.id ≡ k
  pub names :
      (k : ProvinceId) (s : StateId)
      → s ≢ no_state
      → belongs q k s ≡ (if elem k ids then false else belongs p k s)

pub clear_all-Cleared : (ids : List ProvinceId) (p : Project) → Cleared ids p (clear_all ids p)
unfolding clear_all
clear_all-Cleared [] p = record {
  states = refl;
  available = refl;
  keyed = λ h. h;
  names = λ k s n. refl;
}
clear_all-Cleared (id ∷ ids) p =
    let q : Project = set_state no_state id p in
    let r : Cleared ids q (clear_all ids q) = clear_all-Cleared ids q in
    record {
      states = r.states ∙ (unfold set_state in refl);
      available = r.available ∙ (unfold set_state in refl);
      keyed = λ h. r.keyed (keyed-set_state no_state id p h);
      names = λ k s n. ground (arith, r.names k s n, belongs-set_state no_state s id k p);
    }

-- Ids that are each the id of a province.
all_valid_of :
    (ids : List ProvinceId) (p : Project)
    → ((k : ProvinceId) → elem k ids ≡ true → Dict.has k p.provinces ≡ true)
    → all_valid ids p ≡ true
unfolding all_valid is_valid_province_id
all_valid_of [] p h = refl
all_valid_of (id ∷ ids) p h =
    ground (arith, all_valid_of ids p (λ k e. h k (ground (arith, e))), h id (ground arith))

module _ (id : StateId) (p : Project) (st : State) (c : IsConsistent p)
    (found : Dict.lookup id p.states ≡ some st) where
  ne_minus : id ≢ no_state
  ne_minus e = let h : Dict.has id p.states ≡ false = rw e c.no_minus in ground (arith, h, found)

  members_valid : all_valid st.provinces p ≡ true
  members_valid =
      all_valid_of st.provinces p (λ k e. ground (arith, c.member id k ne_minus ne_minus, found, e))

  abbrev cleared : Project
  cleared = clear_all st.provinces p

  abbrev dropped : Project
  dropped = record cleared {
    available_state_ids = cleared.available_state_ids ++ id ∷ [];
    states = Dict.erase id cleared.states;
  }

  members-dropped : (s : StateId) → members dropped s ≡ (if id == s then [] else members p s)
  members-dropped s =
      rw (clear_all-Cleared st.provinces p).states
        (ground (arith, lookup-erase id s p.states c.sorted))

  belongs-dropped :
      (k : ProvinceId) (s : StateId)
      → s ≢ no_state
      → belongs dropped k s ≡ (if id == s then false else belongs p k s)
  belongs-dropped k s n = ground (
    arith,
    (clear_all-Cleared st.provinces p).names k s n,
    c.member id k ne_minus ne_minus,
    found,
  )

  dropped-IsConsistent : IsConsistent dropped
  dropped-IsConsistent = record {
    sorted =
        rw (clear_all-Cleared st.provinces p).states (Dict.erase-IsSorted id p.states c.sorted);
    no_minus =
        rw (clear_all-Cleared st.provinces p).states
          (ground (arith, lookup-erase id no_state p.states c.sorted, c.no_minus));
    keyed = (clear_all-Cleared st.provinces p).keyed c.keyed;
    distinct = λ s. elim (Bool-cases (id == s)) [
      | inl e ↦ rw (members-dropped s, e) tt
      | inr e ↦ rw (members-dropped s, e) (c.distinct s)
    ];
    member = λ s k n m. ground (arith, members-dropped s, belongs-dropped k s n, c.member s k n m);
  }

  gone : Dict.has id dropped.states ≡ false
  gone =
      rw (clear_all-Cleared st.provinces p).states
        (ground (arith, lookup-erase id id p.states c.sorted))

  queued : dropped.available_state_ids ≡ p.available_state_ids ++ id ∷ []
  queued = rw (clear_all-Cleared st.provinces p).available

-- Removing a state of the project keeps the invariant and throws nothing. No province names the state
-- any more, every other membership stays, the id is the last to be taken again, and the pixels of the
-- state matrix are those that the provinces say.
pub remove_state-IsConsistent :
    (id : StateId) (p : Project)
    → IsConsistent p
    → Dict.has id p.states ≡ true
    → (q : Project) × (remove_state id p ≡ some (success, q))
      × IsConsistent q
      × (Dict.has id q.states ≡ false)
      × ((k : ProvinceId) (s : StateId)
          → s ≢ no_state
          → belongs q k s ≡ (if id == s then false else belongs p k s))
      × (q.available_state_ids ≡ p.available_state_ids ++ id ∷ [])
      × IsCurrent q
unfolding remove_state
remove_state-IsConsistent id p c h =
    let (st, e) = lookup_of_has id p.states h in
    let f : Project = dropped id p st c e in
    (
      update_state_id_matrix f,
      ground (arith, members_valid id p st c e, e),
      update_state_id_matrix-IsConsistent f (dropped-IsConsistent id p st c e),
      (unfold update_state_id_matrix in gone id p st c e),
      λ k s n. belongs-update_state_id_matrix f k s ∙ belongs-dropped id p st c e k s n,
      (unfold update_state_id_matrix in queued id p st c e),
      update_state_id_matrix-IsCurrent f,
    )
