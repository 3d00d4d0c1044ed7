-- ===== src/Base/Dict.antt =====
-- std::map and std::unordered_map with numbers for keys: an association list that a write keeps in
-- key order. Only `lookup`, `insert`, `erase` and `size` are used, so the order shows only where the
-- source walks a std::map.
use Prim.Native.Nat.{ℕ, suc, ◌<◌, compare, Ordering}
use mathlib.Core.Path.{◌≡◌, refl}
use mathlib.Core.Bool.{Bool, true, false}
use mathlib.Core.List.{List, [], ◌∷◌}
use mathlib.Core.Option.{Option, none, some}
use native.Mathlib.Omega.{arith}
use ho_i4_mod_development_to.Base.Tests.{◌==◌, if◌then◌else◌, is_some, Option-cases}
use mathlib.Core.Logic.{inl, inr}

abbrev pub Dict {ℓ} : Type ℓ → Type ℓ
Dict V = List (ℕ × V)

module _ {ℓ} {V : Type ℓ} where
  abbrev pub size : Dict V → ℕ
  size [] = 0
  size (x ∷ m) = suc (size m)

  abbrev pub lookup : ℕ → Dict V → Option V
  lookup k [] = none
  lookup k ((j, v) ∷ m) = if j == k then some v else lookup k m

  -- `count(k) != 0`
  abbrev pub has : ℕ → Dict V → Bool
  has k m = is_some (lookup k m)

  abbrev pub insert : ℕ → V → Dict V → Dict V
  insert k v [] = (k, v) ∷ []
  insert k v ((j, w) ∷ m) = elim (compare k j) [
    | Ordering.lt ↦ (k, v) ∷ (j, w) ∷ m
    | Ordering.eq ↦ (k, v) ∷ m
    | Ordering.gt ↦ (j, w) ∷ insert k v m
  ]

  abbrev pub erase : ℕ → Dict V → Dict V
  erase k [] = []
  erase k ((j, v) ∷ m) = if j == k then m else (j, v) ∷ erase k m

  -- A write through a reference that a lookup gave; a missing key changes nothing.
  abbrev pub update : ℕ → (V → V) → Dict V → Dict V
  update k f [] = []
  update k f ((j, v) ∷ m) = if j == k then (j, f v) ∷ m else (j, v) ∷ update k f m

  -- Every key of the map comes after `k`.
  abbrev pub Before : ℕ → Dict V → Type 0
  Before k [] = Unit
  Before k ((j, v) ∷ m) = (k < j) × Before k m

  -- The keys increase, so none stands twice.
  abbrev pub IsSorted : Dict V → Type 0
  IsSorted [] = Unit
  IsSorted ((k, v) ∷ m) = Before k m × IsSorted m

  pub lookup-Before : (k : ℕ) (m : Dict V) → Before k m → lookup k m ≡ none
  lookup-Before k [] h = refl
  lookup-Before k ((j, w) ∷ m) h = ground (arith, lookup-Before k m h.1)

  Before-trans : (k j : ℕ) (m : Dict V) → k < j → Before j m → Before k m
  Before-trans k j [] h b = tt
  Before-trans k j ((i, w) ∷ m) h b = (omega arith, Before-trans k j m h b.1)

  Before-insert : (i k : ℕ) (v : V) (m : Dict V) → i < k → Before i m → Before i (insert k v m)
  Before-insert i k v [] h b = (h, tt)
  Before-insert i k v ((j, w) ∷ m) h b = ground (arith, Before-insert i k v m h b.1)

  Before-update : (i k : ℕ) (f : V → V) (m : Dict V) → Before i m → Before i (update k f m)
  Before-update i k f [] b = tt
  Before-update i k f ((j, w) ∷ m) b = ground (arith, Before-update i k f m b.1)

  Before-erase : (i k : ℕ) (m : Dict V) → Before i m → Before i (erase k m)
  Before-erase i k [] b = tt
  Before-erase i k ((j, w) ∷ m) b = ground (arith, Before-erase i k m b.1)

  pub lookup_of_has : (k : ℕ) (m : Dict V) → has k m ≡ true → (v : V) × (lookup k m ≡ some v)
  lookup_of_has k m h = elim (Option-cases (lookup k m)) [
    | inl e ↦ absurd (let no : ◌≡◌ {A = Bool} false true = rw e at h in cc)
    | inr f ↦ f
  ]

  pub lookup-insert :
      (k j : ℕ) (v : V) (m : Dict V)
      → lookup j (insert k v m) ≡ (if k == j then some v else lookup j m)
  lookup-insert k j v [] = refl
  lookup-insert k j v ((i, w) ∷ m) = ground (arith, lookup-insert k j v m)

  pub lookup-update :
      (k j : ℕ) (f : V → V) (m : Dict V)
      → lookup j (update k f m)
        ≡ (if k == j then elim (lookup j m) [ none ↦ none | some v ↦ some (f v) ] else lookup j m)
  lookup-update k j f [] = ground arith
  lookup-update k j f ((i, w) ∷ m) = ground (arith, lookup-update k j f m)

  pub lookup-erase_ne :
      (k j : ℕ) (m : Dict V) → (k == j) ≡ false → lookup j (erase k m) ≡ lookup j m
  lookup-erase_ne k j [] h = refl
  lookup-erase_ne k j ((i, w) ∷ m) h = ground (arith, lookup-erase_ne k j m h)

  pub lookup-erase_self : (k : ℕ) (m : Dict V) → IsSorted m → lookup k (erase k m) ≡ none
  lookup-erase_self k [] h = refl
  lookup-erase_self k ((i, w) ∷ m) h = ground (arith, lookup-erase_self k m h.1, lookup-Before k m)

  pub lookup-erase :
      (k j : ℕ) (m : Dict V)
      → IsSorted m
      → lookup j (erase k m) ≡ (if k == j then none else lookup j m)
  lookup-erase k j m h = ground (arith, lookup-erase_self k m h, lookup-erase_ne k j m)

  pub insert-IsSorted : (k : ℕ) (v : V) (m : Dict V) → IsSorted m → IsSorted (insert k v m)
  insert-IsSorted k v [] h = (tt, tt)
  insert-IsSorted k v ((j, w) ∷ m) h =
      ground (arith, insert-IsSorted k v m h.1, Before-insert j k v m, Before-trans k j m)

  pub update-IsSorted : (k : ℕ) (f : V → V) (m : Dict V) → IsSorted m → IsSorted (update k f m)
  update-IsSorted k f [] h = tt
  update-IsSorted k f ((j, w) ∷ m) h =
      ground (arith, update-IsSorted k f m h.1, Before-update j k f m h.0)

  pub erase-IsSorted : (k : ℕ) (m : Dict V) → IsSorted m → IsSorted (erase k m)
  erase-IsSorted k [] h = tt
  erase-IsSorted k ((j, w) ∷ m) h = ground (arith, erase-IsSorted k m h.1, Before-erase j k m h.0)

  pub size-insert_new :
      (k : ℕ) (v : V) (m : Dict V) → has k m ≡ false → size (insert k v m) ≡ suc (size m)
  size-insert_new k v [] h = refl
  size-insert_new k v ((j, w) ∷ m) h = ground (arith, size-insert_new k v m)

  pub size-insert_old :
      (k : ℕ) (v : V) (m : Dict V) → IsSorted m → has k m ≡ true → size (insert k v m) ≡ size m
  size-insert_old k v [] s h = cc
  size-insert_old k v ((j, w) ∷ m) s h =
      ground
        (arith, size-insert_old k v m s.1, lookup-Before j m, lookup-Before k m, Before-trans k j m)

  pub size-erase : (k : ℕ) (m : Dict V) → has k m ≡ true → suc (size (erase k m)) ≡ size m
  size-erase k [] h = cc
  size-erase k ((j, w) ∷ m) h = ground (arith, size-erase k m)

  pub size-update : (k : ℕ) (f : V → V) (m : Dict V) → size (update k f m) ≡ size m
  size-update k f [] = refl
  size-update k f ((j, w) ∷ m) = ground (arith, size-update k f m)
