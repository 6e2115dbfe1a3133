-- ===== src/Common/Maps.antt =====
-- Go maps as association lists: a write replaces in place, or appends a new key at the end.
use mathlib.Core.Path.{◌≡◌, refl, subst}
use mathlib.Core.Logic.{◌≢◌, ◌⊎◌, inl, inr}
use mathlib.Core.Option.{Option, none, some}
use mathlib.Core.List.{List, [], ◌∷◌, ◌++◌}
use native.Mathlib.Omega.{arith}
use agent_rd.Common.Tests.{if◌then◌else◌, Bool-cases}
use agent_rd.Common.Lists.{All}
use agent_rd.Common.Classes.{Equality, ◌==◌}

abbrev pub Dict {ℓ κ} : Type ℓ → Type κ → Type (ℓ ⊔ κ)
Dict K V = List (K × V)

abbrev pub keys {ℓ κ} : {K : Type ℓ} {V : Type κ} → Dict K V → List K
keys [] = []
keys ((k, v) ∷ m) = k ∷ keys m

module _ {ℓ κ} {K : Type ℓ} {V : Type κ} ⦃e : Equality K⦄ where
  unfoldable pub lookup : K → Dict K V → Option V
  lookup k [] = none
  lookup k ((j, v) ∷ m) = if k == j then some v else lookup k m

  unfoldable pub insert : K → V → Dict K V → Dict K V
  insert k v [] = (k, v) ∷ []
  insert k v ((j, w) ∷ m) = if k == j then (k, v) ∷ m else (j, w) ∷ insert k v m

  unfoldable pub erase : K → Dict K V → Dict K V
  erase k [] = []
  erase k ((j, w) ∷ m) = if k == j then m else (j, w) ∷ erase k m

  pub lookup-insert :
      (j k : K) (v : V) (m : Dict K V)
      → lookup j (insert k v m) ≡ (if j == k then some v else lookup j m)
  unfolding lookup insert
  lookup-insert j k v [] = refl
  lookup-insert j k v ((i, w) ∷ m) =
      ground (arith, e.decides k i, e.decides j i, e.decides j k, lookup-insert j k v m)

  pub lookup-insert_self : (k : K) (v : V) (m : Dict K V) → lookup k (insert k v m) ≡ some v
  lookup-insert_self k v m = rw (lookup-insert, (e.decides k k).1 refl)

  pub lookup-insert_ne :
      (j k : K) (v : V) (m : Dict K V) → j ≢ k → lookup j (insert k v m) ≡ lookup j m
  lookup-insert_ne j k v m h = rw lookup-insert (ground (arith, e.decides j k))

  pub lookup-insert_cases :
      (j k : K) (v u : V) (m : Dict K V)
      → lookup j (insert k v m) ≡ some u
      → ((j ≡ k) × (v ≡ u)) ⊎ ((j ≢ k) × (lookup j m ≡ some u))
  lookup-insert_cases j k v u m h = elim (Bool-cases (j == k)) [
    | inl hit ↦ inl ((e.decides j k).0 hit, ground (arith, lookup-insert j k v m))
    | inr miss ↦ inr ((λ p. ground (arith, e.decides j k)), ground (arith, lookup-insert j k v m))
  ]

  -- A write to a key that is there keeps the keys, and to any other key adds it at the end.
  pub keys-insert :
      (k : K) (v : V) (m : Dict K V)
      → keys (insert k v m) ≡ elim (lookup k m) [ none ↦ keys m ++ k ∷ [] | some _ ↦ keys m ]
  unfolding lookup insert
  keys-insert k v [] = refl
  keys-insert k v ((j, w) ∷ m) = ground (arith, e.decides k j, keys-insert k v m)

  pub All-insert {μ} :
      (P : K × V → Type μ) (k : K) (v : V) (m : Dict K V)
      → P (k, v)
      → All P m
      → All P (insert k v m)
  unfolding insert
  All-insert P k v [] p h = (p, tt)
  All-insert P k v ((j, w) ∷ m) p h = elim (Bool-cases (k == j)) [
    | inl hit ↦ rw hit (p, h.1)
    | inr miss ↦ rw miss (h.0, All-insert P k v m p h.1)
  ]

  pub All-lookup {μ} :
      (P : K × V → Type μ) (k : K) (v : V) (m : Dict K V) → All P m → lookup k m ≡ some v → P (k, v)
  unfolding lookup
  All-lookup P k v [] h l = absurd (cc)
  All-lookup P k v ((j, w) ∷ m) h l = elim (Bool-cases (k == j)) [
    | inl hit ↦ subst P (ground (arith, e.decides k j)) h.0
    | inr miss ↦ All-lookup P k v m h.1 (ground arith)
  ]

  -- A key that is looked up with success is among the keys.
  pub lookup-keys-none : (k : K) (m : Dict K V) → All (λ j. k ≢ j) (keys m) → lookup k m ≡ none
  unfolding lookup
  lookup-keys-none k [] h = refl
  lookup-keys-none k ((j, w) ∷ m) h = ground (arith, e.decides k j, h.0, lookup-keys-none k m h.1)

  pub lookup-none-keys : (k : K) (m : Dict K V) → lookup k m ≡ none → All (λ j. k ≢ j) (keys m)
  unfolding lookup
  lookup-none-keys k [] h = tt
  lookup-none-keys k ((j, w) ∷ m) h = elim (Bool-cases (k == j)) [
    | inl hit ↦ absurd (ground (arith))
    | inr miss ↦ ((λ p. ground (arith, e.decides k j)), lookup-none-keys k m (ground arith))
  ]
