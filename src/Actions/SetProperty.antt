-- ===== src/Actions/SetProperty.antt =====
-- mod_dev_tool/actions/inc/SetPropertyAction.h: an action that sets one field of a structure.
use ho_i4_mod_development_to.Base.{
  ◌≡◌, ◌↔◌, Bool, true, false, ◌&&◌, if◌then◌else◌, arith, Bool-cases, inl, inr,
}
use ho_i4_mod_development_to.Actions.{IAction, Callback}
use ho_i4_mod_development_to.Actions.History.{IsReversible}

-- A field of an object in the world, as `m_structure->*m_field` reads and writes it.
pub record Field (W T : Type 0) : Type 0 where
  pub get : W → T
  pub put : T → W → W
  pub get-put : (t : T) (w : W) → get (put t w) ≡ t
  pub put-get : (w : W) → put (get w) w ≡ w
  pub put-put : (s t : T) (w : W) → put s (put t w) ≡ put s w

-- The field's `operator!=`, negated.
pub record Eq (T : Type 0) : Type 0 where
  pub beq : T → T → Bool
  pub beq_iff : (s t : T) → (beq s t ≡ true) ↔ (s ≡ t)

module _ {W T : Type 0} (f : Field W T) (e : Eq T) where
  abbrev pub write_property : T → T → Callback → W → Bool × W
  write_property from to callback w =
      if callback 0
      then (if e.beq (f.get w) from
          then (if callback 1 then (true, f.put to w) else (false, f.put from (f.put to w)))
          else (false, w))
      else (false, w)

  -- The constructor keeps the value that the field has then.
  unfoldable pub set_property : W → T → IAction W
  set_property now new_value = record {
    do_action = write_property (f.get now) new_value;
    undo_action = write_property new_value (f.get now);
    can_be_undone = true;
  }

  module _ (now : W) (new_value : T) (callback : Callback) (w : W) where
    -- The action succeeds exactly when the callback agrees twice and the field still has its old
    -- value; then the field has the new value. Otherwise the world is as it was.
    pub set_property-do_action :
        let r = (set_property now new_value).do_action callback w in
        (r.0 ≡ (callback 0 && (e.beq (f.get w) (f.get now) && callback 1)))
        × (r.1 ≡ (if r.0 then f.put new_value w else w))
    unfolding set_property
    set_property-do_action =
        ground
          (arith, e.beq_iff (f.get w) (f.get now), f.put-put (f.get now) new_value w, f.put-get w)

  -- A field can be set and set back, so the manager may keep the action.
  pub set_property-IsReversible :
      {Inv : W → Type 0}
      → ((t : T) (w : W) → Inv w → Inv (f.put t w))
      → (now : W) (new_value : T) → IsReversible Inv (set_property now new_value)
  unfolding set_property
  set_property-IsReversible p now new_value = record {
    keeps = λ w i. elim (Bool-cases (e.beq (f.get w) (f.get now))) [
      | inl d ↦ rw d (p new_value w i)
      | inr d ↦ rw d i
    ];
    undo_ok = λ w i h. ground (
      arith,
      e.beq_iff (f.get w) (f.get now),
      f.get-put new_value w,
      e.beq_iff new_value new_value,
    );
    undo_restores = λ w i h. ground (
      arith,
      e.beq_iff (f.get w) (f.get now),
      f.get-put new_value w,
      e.beq_iff new_value new_value,
      f.put-put (f.get now) new_value w,
      f.put-get w,
    );
    failed = λ w h. ground arith;
  }
