-- ===== src/Project/Map/Claiming.antt =====
-- The loop of addNewState that takes each province out of its state, and what it does to the invariant.
use ho_i4_mod_development_to.Base.{
  ◌≡◌, refl, ◌∙◌, ◌≢◌, true, false, List, [], ◌∷◌, if◌then◌else◌, ◌==◌, elem, arith,
}
use ho_i4_mod_development_to.Base.Dict
use ho_i4_mod_development_to.Base.Dict.{Dict, lookup-update, lookup-insert, lookup_of_has}
use ho_i4_mod_development_to.Project.{
  ProvinceId, StateId, no_state, Province, Project, is_valid_province_id,
}
use ho_i4_mod_development_to.Project.States.{set_state, detach_province, move_all, all_valid}
use ho_i4_mod_development_to.Project.Map.Consistent.{
  belongs, IsConsistentBut, belongs-set_state, belongs-detach, has-detach, has_province-detach,
  members-set_state, detach_province-IsConsistent,
}
use ho_i4_mod_development_to.Project.Map.Moving.{keyed-set_state}

pub has-set_state :
    (t : StateId) (key k : ProvinceId) (p : Project)
    → Dict.has k (set_state t key p).provinces ≡ Dict.has k p.provinces
unfolding set_state
has-set_state t key k p =
    ground (arith, lookup-update key k (λ (q : Province). record q { state = t }) p.provinces)

-- Which provinces there are decides which ids are valid.
pub all_valid_same :
    (ids : List ProvinceId) (p q : Project)
    → p.provinces ≡ q.provinces
    → all_valid ids p ≡ all_valid ids q
unfolding all_valid is_valid_province_id
all_valid_same [] p q e = refl
all_valid_same (id ∷ ids) p q e = ground (arith, all_valid_same ids p q e)

-- One round of the loop for the state `x` that is being made.
module _ (x : StateId) (n : x ≢ no_state) where
  abbrev claim : ProvinceId → Project → Project
  claim id p = set_state x id (detach_province id false p)

  belongs-claim :
      (id k : ProvinceId) (s : StateId) (p : Project)
      → Dict.has id p.provinces ≡ true
      → belongs (claim id p) k s ≡ (if id == k then x == s else belongs p k s)
  belongs-claim id k s p h =
      let (prov, e) = lookup_of_has id p.provinces h in
      ground (
        arith,
        belongs-set_state x s id k (detach_province id false p),
        has_province-detach id k false p,
        h,
        belongs-detach id prov false p e k s,
      )

  claim-IsConsistent :
      (id : ProvinceId) (p : Project)
      → Dict.has id p.provinces ≡ true
      → IsConsistentBut x p
      → IsConsistentBut x (claim id p)
  claim-IsConsistent id p h c =
      let d : IsConsistentBut x (detach_province id false p) =
        detach_province-IsConsistent x id false p c in
      let (prov, e) = lookup_of_has id p.provinces h in
      record {
        sorted = unfold set_state in d.sorted;
        no_minus = unfold set_state in d.no_minus;
        keyed = keyed-set_state x id (detach_province id false p) d.keyed;
        distinct = unfold set_state in d.distinct;
        member = λ s k m o. ground (
          arith,
          members-set_state x s id (detach_province id false p),
          d.member s k m o,
          d.member s id m o,
          belongs-detach id prov false p e id s,
          belongs-set_state x s id k (detach_province id false p),
        );
      }

  has-claim :
      (id : ProvinceId) (p : Project)
      → Dict.has id p.provinces ≡ true
      → Dict.has x (claim id p).states ≡ Dict.has x p.states
  has-claim id p h =
      let (prov, e) = lookup_of_has id p.provinces h in
      unfold set_state in has-detach id prov false p e x

  -- What the whole loop does.
  pub record Claims (ids : List ProvinceId) (p q : Project) : Type 0 where
    pub consistent : IsConsistentBut x q
    pub unmade : Dict.has x q.states ≡ Dict.has x p.states
    pub names :
        (k : ProvinceId) (s : StateId)
        → belongs q k s ≡ (if elem k ids then x == s else belongs p k s)

  all_valid-claim :
      (ids : List ProvinceId) (id : ProvinceId) (p : Project)
      → all_valid ids (claim id p) ≡ all_valid ids p
  unfolding all_valid is_valid_province_id
  all_valid-claim [] id p = refl
  all_valid-claim (j ∷ ids) id p = ground (
    arith,
    all_valid-claim ids id p,
    has-set_state x id j (detach_province id false p),
    has_province-detach id j false p,
  )

  pub move_all-Claims :
      (ids : List ProvinceId) (p : Project)
      → all_valid ids p ≡ true
      → IsConsistentBut x p
      → Claims ids p (move_all x ids p)
  unfolding move_all
  move_all-Claims [] p h c = record { consistent = c; unmade = refl; names = λ k s. refl }
  move_all-Claims (id ∷ ids) p h c =
      let h' : Dict.has id p.provinces ≡ true =
        (unfold all_valid is_valid_province_id in ground arith) in
      let hs : all_valid ids p ≡ true = (unfold all_valid is_valid_province_id in ground arith) in
      let r : Claims ids (claim id p) (move_all x ids (claim id p)) =
        move_all-Claims ids (claim id p) (all_valid-claim ids id p ∙ hs)
          (claim-IsConsistent id p h' c) in
      record {
        consistent = r.consistent;
        unmade = r.unmade ∙ has-claim id p h';
        names = λ k s. ground (arith, r.names k s, belongs-claim id k s p h');
      }
