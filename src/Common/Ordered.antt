-- ===== src/Common/Ordered.antt =====
-- A Go map with a slice beside it that holds its keys in the order of insertion.
use mathlib.Core.Path.{◌≡◌, refl, sym, ap, ◌∙◌, subst}
use mathlib.Core.Logic.{◌≢◌, inl, inr}
use mathlib.Core.Option.{none, some}
use mathlib.Core.List.{List, [], ◌∷◌, ◌++◌}
use native.Mathlib.Omega.{arith}
use agent_rd.Common.Tests.{if◌then◌else◌, Bool-cases, Option-cases}
use agent_rd.Common.Lists.{All, Distinct, Distinct-append}
use agent_rd.Common.Classes.{Equality, ◌==◌}
use agent_rd.Common.Maps.{
  Dict, keys, lookup, insert, erase, keys-insert, lookup-none-keys, lookup-keys-none,
}

pub record Ordered {ℓ κ} (K : Type ℓ) (V : Type κ) : Type (ℓ ⊔ κ) where
  pub entries : Dict K V
  pub order : List K

module _ {ℓ κ} {K : Type ℓ} {V : Type κ} where
  abbrev pub empty_ordered : Ordered K V
  empty_ordered = record { entries = []; order = [] }

module _ {ℓ} {K : Type ℓ} ⦃e : Equality K⦄ where
  -- The loop that deletes the first occurrence from the slice.
  unfoldable pub remove_first : K → List K → List K
  remove_first k [] = []
  remove_first k (x ∷ xs) = if x == k then xs else x ∷ remove_first k xs

  All-remove_first {μ} :
      (P : K → Type μ) (k : K) (xs : List K) → All P xs → All P (remove_first k xs)
  unfolding remove_first
  All-remove_first P k [] h = tt
  All-remove_first P k (x ∷ xs) h = elim (Bool-cases (x == k)) [
    | inl t ↦ rw t h.1
    | inr u ↦ rw u (h.0, All-remove_first P k xs h.1)
  ]

  Distinct-remove_first : (k : K) (xs : List K) → Distinct xs → Distinct (remove_first k xs)
  unfolding remove_first
  Distinct-remove_first k [] d = tt
  Distinct-remove_first k (x ∷ xs) d = elim (Bool-cases (x == k)) [
    | inl t ↦ rw t d.1
    | inr u ↦ rw u (All-remove_first (λ y. x ≢ y) k xs d.0, Distinct-remove_first k xs d.1)
  ]

module _ {ℓ κ} {K : Type ℓ} {V : Type κ} ⦃e : Equality K⦄ where
  -- A write: a new key goes to the end of the order, an old one keeps its place.
  unfoldable pub put : K → V → Ordered K V → Ordered K V
  put k v m = record {
    entries = insert k v m.entries;
    order = elim (lookup k m.entries) [ none ↦ m.order ++ k ∷ [] | some old ↦ m.order ];
  }

  unfoldable pub remove : K → Ordered K V → Ordered K V
  remove k m = record { entries = erase k m.entries; order = remove_first k m.order }

  -- The entries in the order of the slice, as a walk over it that looks each key up finds them.
  unfoldable pub walk : List K → Dict K V → List (K × V)
  walk [] m = []
  walk (k ∷ ks) m =
      let rest = walk ks m in elim (lookup k m) [ none ↦ rest | some v ↦ (k, v) ∷ rest ]

  -- The slice holds exactly the keys of the map, each once.
  pub record IsOrdered (m : Ordered K V) : Type (ℓ ⊔ κ) where
    pub listed : keys m.entries ≡ m.order
    pub once : Distinct m.order

  pub put-IsOrdered : (k : K) (v : V) (m : Ordered K V) → IsOrdered m → IsOrdered (put k v m)
  unfolding put
  put-IsOrdered k v m h = elim (Option-cases (lookup k m.entries)) [
    | inl new ↦ record {
      listed = keys-insert k v m.entries ∙ rw (new, put) (ap (λ l. l ++ k ∷ []) h.listed);
      once =
          rw (new, put)
            (Distinct-append m.order k
              (subst (All (λ y. k ≢ y)) h.listed (lookup-none-keys k m.entries new)) h.once);
    }
    | inr (w, old) ↦ record {
      listed = keys-insert k v m.entries ∙ rw (old, put) h.listed;
      once = rw (old, put) h.once;
    }
  ]

  keys-erase : (k : K) (m : Dict K V) → keys (erase k m) ≡ remove_first k (keys m)
  unfolding erase remove_first
  keys-erase k [] = refl
  keys-erase k ((j, w) ∷ m) = ground (arith, e.decides k j, e.decides j k, keys-erase k m)

  pub remove-IsOrdered : (k : K) (m : Ordered K V) → IsOrdered m → IsOrdered (remove k m)
  unfolding remove
  remove-IsOrdered k m h = record {
    listed = keys-erase k m.entries ∙ ap (remove_first k) h.listed;
    once = Distinct-remove_first k m.order h.once;
  }

  walk-cons :
      (ks : List K) (j : K) (w : V) (m : Dict K V)
      → All (λ k. j ≢ k) ks
      → walk ks ((j, w) ∷ m) ≡ walk ks m
  unfolding walk lookup
  walk-cons [] j w m h = refl
  walk-cons (k ∷ ks) j w m h = ground (arith, e.decides k j, h.0, walk-cons ks j w m h.1)

  walk-keys : (m : Dict K V) → Distinct (keys m) → walk (keys m) m ≡ m
  unfolding walk lookup
  walk-keys [] d = refl
  walk-keys ((j, w) ∷ m) d =
      ground (arith, e.decides j j, walk-cons (keys m) j w m d.0, walk-keys m d.1)

  -- So the walk finds every entry of the map, once, in order.
  pub walk-IsOrdered : (m : Ordered K V) → IsOrdered m → walk m.order m.entries ≡ m.entries
  walk-IsOrdered m h = rw (← h.listed) (walk-keys m.entries (rw h.listed h.once))

  pub lookup-erase_self : (k : K) (m : Dict K V) → Distinct (keys m) → lookup k (erase k m) ≡ none
  unfolding lookup erase
  lookup-erase_self k [] d = refl
  lookup-erase_self k ((j, w) ∷ m) d = elim (Bool-cases (k == j)) [
    | inl hit ↦
        rw (hit, erase)
          (lookup-keys-none k m
            (subst (λ i. All (λ y. i ≢ y) (keys m)) (sym ((e.decides k j).0 hit)) d.0))
    | inr miss ↦ ground (arith, lookup-erase_self k m d.1)
  ]

  pub lookup-erase_ne : (j k : K) (m : Dict K V) → j ≢ k → lookup j (erase k m) ≡ lookup j m
  unfolding lookup erase
  lookup-erase_ne j k [] n = refl
  lookup-erase_ne j k ((i, w) ∷ m) n =
      ground (arith, e.decides k i, e.decides j i, e.decides j k, lookup-erase_ne j k m n)
