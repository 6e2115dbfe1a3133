-- ===== src/Common/Lists.antt =====
-- Lists measured by native numbers, and predicates over lists by recursion.
use Prim.Native.Nat.{ℕ, zero, suc, ◌+◌, ◌-◌, ◌≤◌, ◌<◌}
use mathlib.Core.Path.{◌≡◌, refl, sym, ap}
use mathlib.Core.Logic.{◌≢◌}
use mathlib.Core.Option.{Option, none, some}
use mathlib.Core.List.{List, [], ◌∷◌, ◌++◌}
use native.Mathlib.Omega.{arith}

module _ {ℓ} {A : Type ℓ} where
  abbrev pub length : List A → ℕ
  length [] = 0
  length (x ∷ xs) = suc (length xs)

  pub length-append : (xs ys : List A) → length (xs ++ ys) ≡ length xs + length ys
  length-append [] ys = omega arith
  length-append (x ∷ xs) ys = omega (arith, length-append xs ys)

  abbrev pub drop : ℕ → List A → List A
  drop zero xs = xs
  drop (suc n) [] = []
  drop (suc n) (x ∷ xs) = drop n xs

  abbrev pub take : ℕ → List A → List A
  take zero xs = []
  take (suc n) [] = []
  take (suc n) (x ∷ xs) = x ∷ take n xs

  abbrev pub get_elem? : List A → ℕ → Option A
  get_elem? [] i = none
  get_elem? (x ∷ xs) zero = some x
  get_elem? (x ∷ xs) (suc i) = get_elem? xs i

  pub drop-get_elem? :
      (n : ℕ) (xs : List A) {x : A} → get_elem? xs n ≡ some x → drop n xs ≡ x ∷ drop (suc n) xs
  drop-get_elem? n [] h = absurd (cc)
  drop-get_elem? zero (x ∷ xs) h = cc
  drop-get_elem? (suc n) (x ∷ xs) h = drop-get_elem? n xs h

  pub get_elem?-none : (n : ℕ) (xs : List A) → get_elem? xs n ≡ none → length xs ≤ n
  get_elem?-none n [] h = omega arith
  get_elem?-none zero (x ∷ xs) h = absurd (cc)
  get_elem?-none (suc n) (x ∷ xs) h = omega (arith, get_elem?-none n xs h)

  pub get_elem?-lt : (n : ℕ) (xs : List A) {x : A} → get_elem? xs n ≡ some x → n < length xs
  get_elem?-lt n [] h = absurd (cc)
  get_elem?-lt zero (x ∷ xs) h = omega arith
  get_elem?-lt (suc n) (x ∷ xs) h = omega (arith, get_elem?-lt n xs h)

  pub get_elem?-ge : (n : ℕ) (xs : List A) → length xs ≤ n → get_elem? xs n ≡ none
  get_elem?-ge n [] h = refl
  get_elem?-ge zero (x ∷ xs) h = absurd (omega arith)
  get_elem?-ge (suc n) (x ∷ xs) h = get_elem?-ge n xs (omega arith)

  pub drop_all : (n : ℕ) (xs : List A) → length xs ≤ n → drop n xs ≡ []
  drop_all zero [] h = refl
  drop_all zero (x ∷ xs) h = absurd (omega arith)
  drop_all (suc n) [] h = refl
  drop_all (suc n) (x ∷ xs) h = drop_all n xs (omega arith)

  pub length-drop : (n : ℕ) (xs : List A) → length (drop n xs) ≡ length xs - n
  length-drop zero xs = omega arith
  length-drop (suc n) [] = omega arith
  length-drop (suc n) (x ∷ xs) = omega (arith, length-drop n xs)

  abbrev pub All {κ} : (A → Type κ) → List A → Type κ
  All P [] = Unit
  All P (x ∷ xs) = P x × All P xs

  pub All-append {κ} : (P : A → Type κ) (xs ys : List A) → All P xs → All P ys → All P (xs ++ ys)
  All-append P [] ys h k = k
  All-append P (x ∷ xs) ys h k = (h.0, All-append P xs ys h.1 k)

  pub All-end {κ} : (P : A → Type κ) (xs ys : List A) → All P (xs ++ ys) → All P ys
  All-end P [] ys h = h
  All-end P (x ∷ xs) ys h = All-end P xs ys h.1

  pub All-drop {κ} : (P : A → Type κ) (n : ℕ) (xs : List A) → All P xs → All P (drop n xs)
  All-drop P zero xs h = h
  All-drop P (suc n) [] h = tt
  All-drop P (suc n) (x ∷ xs) h = All-drop P n xs h.1

  pub All-map {κ μ} :
      (P : A → Type κ) (Q : A → Type μ)
      → ((a : A) → P a → Q a)
      → (xs : List A) → All P xs
      → All Q xs
  All-map P Q f [] h = tt
  All-map P Q f (x ∷ xs) h = (f x h.0, All-map P Q f xs h.1)

module _ {ℓ} {A : Type ℓ} where
  -- No element twice.
  abbrev pub Distinct : List A → Type ℓ
  Distinct [] = Unit
  Distinct (x ∷ xs) = All (λ y. x ≢ y) xs × Distinct xs

  pub Distinct-append :
      (xs : List A) (a : A) → All (λ y. a ≢ y) xs → Distinct xs → Distinct (xs ++ a ∷ [])
  Distinct-append [] a n d = (tt, tt)
  Distinct-append (x ∷ xs) a n d = (
    All-append (λ y. x ≢ y) xs (a ∷ []) d.0 ((λ p. n.0 (sym p)), tt),
    Distinct-append xs a n.1 d.1,
  )

module _ {ℓ} {A : Type ℓ} where
  pub take-append-drop : (n : ℕ) (xs : List A) → take n xs ++ drop n xs ≡ xs
  take-append-drop zero xs = refl
  take-append-drop (suc n) [] = refl
  take-append-drop (suc n) (x ∷ xs) = ap (λ l. x ∷ l) (take-append-drop n xs)

  pub drop-drop : (a b c : ℕ) (xs : List A) → a + b ≡ c → drop b (drop a xs) ≡ drop c xs
  drop-drop zero b c xs e = let e' : b ≡ c = omega arith in rw e' refl
  drop-drop (suc a) b zero xs e = absurd (omega arith)
  drop-drop (suc a) zero (suc c) [] e = refl
  drop-drop (suc a) (suc b) (suc c) [] e = refl
  drop-drop (suc a) b (suc c) (x ∷ xs) e = drop-drop a b c xs (omega arith)

  -- The last `n` elements.
  abbrev pub last_n : ℕ → List A → List A
  last_n n xs = drop (length xs - n) xs

  pub drop-append_ge :
      (n k : ℕ) (xs ys : List A) → n ≡ length xs + k → drop n (xs ++ ys) ≡ drop k ys
  drop-append_ge n k [] ys e = let e' : n ≡ k = omega arith in rw e' refl
  drop-append_ge zero k (x ∷ xs) ys e = absurd (omega arith)
  drop-append_ge (suc n) k (x ∷ xs) ys e = drop-append_ge n k xs ys (omega arith)

  -- The end of a list that is long enough has the last elements of the whole.
  pub last_n-append : (n : ℕ) (xs ys : List A) → n ≤ length ys → last_n n (xs ++ ys) ≡ last_n n ys
  last_n-append n xs ys h =
      drop-append_ge (length (xs ++ ys) - n) (length ys - n) xs ys
        (omega (arith, length-append xs ys))
