-- ===== src/Common/Classes.antt =====
-- Equality tests as an instance, and the float64 operations the runtime relies on as an interface.
use Prim.Native.Nat.{ℕ, ◌+◌, ◌-◌, ◌*◌, ◌/◌, ◌^◌}
use Prim.Native.String.{String}
use mathlib.Core.Path.{◌≡◌, refl, subst}
use mathlib.Core.Logic.{◌↔◌, ◌≢◌}
use mathlib.Core.Bool.{Bool, true, false, ◌&&◌}
use mathlib.Core.List.{List, [], ◌∷◌}
use native.Mathlib.Omega.{arith}
use text.Mathlib.Text.{◌==◌ as str_eq}
use text.Mathlib.TextEquality.{eq_iff}
use agent_rd.Common.Tests.{nat_beq, nat_beq_iff, ltb, leb}

-- A test of equality, and that it tells.
pub record Equality {ℓ} (K : Type ℓ) : Type ℓ where
  pub same : K → K → Bool
  pub decides : (x y : K) → (same x y ≡ true) ↔ (x ≡ y)

module _ {ℓ} {K : Type ℓ} ⦃e : Equality K⦄ where
  infix 50 ◌==◌
  abbrev pub ◌==◌ : K → K → Bool
  x == y = e.same x y

-- Go's `==` on strings and on numbers.
instance abbrev pub string_eq : Equality String
string_eq = record { same = str_eq; decides = eq_iff }

instance abbrev pub nat_eq : Equality ℕ
nat_eq = record { same = nat_beq; decides = nat_beq_iff }

-- Pairs of positions.
abbrev pub pair_beq : ℕ × ℕ → ℕ × ℕ → Bool
pair_beq (a, b) (c, d) = nat_beq a c && nat_beq b d

pub pair_beq_iff : (p q : ℕ × ℕ) → (pair_beq p q ≡ true) ↔ (p ≡ q)
pair_beq_iff (a, b) (c, d) = ground arith

instance abbrev pub pair_eq : Equality (ℕ × ℕ)
pair_eq = record { same = pair_beq; decides = pair_beq_iff }

-- Runes and bytes.
abbrev pub list_beq : List ℕ → List ℕ → Bool
list_beq [] [] = true
list_beq [] (y ∷ ys) = false
list_beq (x ∷ xs) [] = false
list_beq (x ∷ xs) (y ∷ ys) = nat_beq x y && list_beq xs ys

list_beq→eq : (p q : List ℕ) → list_beq p q ≡ true → p ≡ q
list_beq→eq [] [] h = refl
list_beq→eq [] (y ∷ ys) h = absurd (cc)
list_beq→eq (x ∷ xs) [] h = absurd (cc)
list_beq→eq (x ∷ xs) (y ∷ ys) h = ground (arith, list_beq→eq xs ys)

list_beq_refl : (p : List ℕ) → list_beq p p ≡ true
list_beq_refl [] = refl
list_beq_refl (x ∷ xs) = ground (arith, list_beq_refl xs)

pub list_beq_iff : (p q : List ℕ) → (list_beq p q ≡ true) ↔ (p ≡ q)
list_beq_iff p q = (list_beq→eq p q, λ e. subst (λ t. list_beq p t ≡ true) e (list_beq_refl p))

instance abbrev pub list_eq : Equality (List ℕ)
list_eq = record { same = list_beq; decides = list_beq_iff }

-- float64: comparisons and arithmetic as Go performs them; `lit m k` is the literal m / 10^k. No
-- order law is assumed, since none holds of NaN.
pub record Float64 (F : Type 0) : Type 0 where
  pub flt : F → F → Bool
  pub fle : F → F → Bool
  pub feq : F → F → Bool
  pub lit : ℕ → ℕ → F
  pub fadd : F → F → F
  pub fsub : F → F → F
  pub fmul : F → F → F
  pub fdiv : F → F → F

module _ {F : Type 0} ⦃o : Float64 F⦄ where
  abbrev pub flt : F → F → Bool
  flt = o.flt

  abbrev pub fle : F → F → Bool
  fle = o.fle

  abbrev pub feq : F → F → Bool
  feq = o.feq

  abbrev pub lit : ℕ → ℕ → F
  lit = o.lit

  abbrev pub fadd : F → F → F
  fadd = o.fadd

  abbrev pub fsub : F → F → F
  fsub = o.fsub

  abbrev pub fmul : F → F → F
  fmul = o.fmul

  abbrev pub fdiv : F → F → F
  fdiv = o.fdiv

-- An instance for tests and witnesses: non-negative numbers of thousandths.
instance abbrev pub milli_float : Float64 ℕ
milli_float = record {
  flt = ltb;
  fle = leb;
  feq = nat_beq;
  lit = λ m k. m * 1000 / 10 ^ k;
  fadd = λ a b. a + b;
  fsub = λ a b. a - b;
  fmul = λ a b. a * b / 1000;
  fdiv = λ a b. a * 1000 / b;
}

pub decided {ℓ} : {K : Type ℓ} ⦃e : Equality K⦄ (j k : K) → (j == k) ≡ true → j ≡ k
decided ⦃e⦄ j k hit = (e.decides j k).0 hit

pub apart {ℓ} : {K : Type ℓ} ⦃e : Equality K⦄ (j k : K) → (j == k) ≡ false → j ≢ k
apart ⦃e⦄ j k miss p = absurd (ground (arith, (e.decides j k).1 p))
