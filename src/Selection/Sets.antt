-- ===== src/Selection/Sets.antt =====
-- What the writes to a std::set do to the tests of it, as statements.
use ho_i4_mod_development_to.Base.{
  ◌≡◌, ◌≢◌, ◌⊎◌, ◌↔◌, sym, ◌∙◌, subst, Bool, true, false, List, [], ◌∷◌, arith, inl, inr,
  Bool-cases,
}
use ho_i4_mod_development_to.Base.Ord.{Ord}
use ho_i4_mod_development_to.Base.OrdSet

-- One of two statements.
abbrev pub Either : Bool → Type 0 → Type 0 → Type 0
Either true A B = A
Either false A B = B

pub either_first : (b : Bool) (X A B : Type 0) → b ≡ true → X ↔ A → X ↔ Either b A B
either_first true X A B e h = h
either_first false X A B e h = absurd cc

pub either_second : (b : Bool) (X A B : Type 0) → b ≡ false → X ↔ B → X ↔ Either b A B
either_second false X A B e h = h
either_second true X A B e h = absurd cc

-- A test that another one equals.
pub by_test : (a b : Bool) (P : Type 0) → a ≡ b → (b ≡ true) ↔ P → (a ≡ true) ↔ P
by_test a b P e (f, g) = (λ x. f (sym e ∙ x), λ y. e ∙ g y)

pub itself : (P : Type 0) → P ↔ P
itself P = (λ x. x, λ x. x)

pub never : (false ≡ true) ↔ ⊥
never = (λ e. absurd cc, λ e. absurd e)

module _ {A : Type 0} ⦃o : Ord A⦄ (k id : A) where
  pub same_lem : (OrdSet.same k id ≡ true) ↔ (k ≡ id)
  same_lem = (OrdSet.same_iff k id, λ e. subst (λ z. OrdSet.same k z ≡ true) e (OrdSet.same_self k))

  -- The tests after the writes of one id.
  pub alone_lem : (OrdSet.contains k (id ∷ []) ≡ true) ↔ (k ≡ id)
  alone_lem = by_test _ (OrdSet.same k id) _ (ground arith) same_lem

  pub inserted_lem :
      (xs : List A)
      → (OrdSet.contains k (OrdSet.insert id xs) ≡ true)
        ↔ ((OrdSet.contains k xs ≡ true) ⊎ (k ≡ id))
  inserted_lem xs =
      let e = OrdSet.contains-insert id k xs in
      (
        (λ h. elim (Bool-cases (OrdSet.same k id)) [
          | inl t ↦ inr (same_lem.0 t)
          | inr t ↦ inl (ground (arith, e, t, h))
        ]),
        (λ h. elim h [ inl i ↦ ground (arith, e, i) | inr w ↦ ground (arith, e, same_lem.1 w) ]),
      )

  pub erased_lem :
      (xs : List A)
      → OrdSet.IsSorted xs
      → (OrdSet.contains k (OrdSet.erase id xs) ≡ true) ↔ ((OrdSet.contains k xs ≡ true) × (k ≢ id))
  erased_lem xs sorted =
      let e = OrdSet.contains-erase id k xs sorted in
      (
        (λ h. (ground (arith, e, h), λ w. absurd (ground (arith, e, h, same_lem.1 w)))),
        (λ (i, n). elim (Bool-cases (OrdSet.same k id)) [
          | inl t ↦ absurd (n (same_lem.0 t))
          | inr t ↦ ground (arith, e, i, t)
        ]),
      )
