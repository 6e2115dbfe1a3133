-- ===== src/Eligibility/Gate/Reasons.antt =====
-- About dedupeReasons of eligibility.go, which makes the reasons that the gate reports.
use agent_rd.Common.{
  String, true, ◌≡◌, refl, sym, ◌∙◌, ap, ◌≢◌, inl, inr, List, [], ◌∷◌, ◌++◌, arith, All, Distinct,
  Bool-cases, ◌==◌, string_eq, if◌then◌else◌,
}
use mathlib.Core.List.{append-nil, append_assoc}
use text.Mathlib.TextEquality.{eq_iff}
use agent_rd.Eligibility.Gate.{contains_reason, dedupe_from, dedupe_reasons}

-- What is left of a list without the reasons of a set.
without : List String → List String → List String
without seen [] = []
without seen (r ∷ rs) = if contains_reason seen r then without seen rs else r ∷ without seen rs

-- The specification: the first occurrence of each reason.
pub first_seen : List String → List String
first_seen [] = []
first_seen (r ∷ rs) = r ∷ without (r ∷ []) (first_seen rs)

without-cons :
    (r : String) (seen rs : List String)
    → without seen (without (r ∷ []) rs) ≡ without (r ∷ seen) rs
unfolding without contains_reason
without-cons r seen [] = refl
without-cons r seen (x ∷ rs) = ground (arith, without-cons r seen rs)

without-seen :
    (r : String) (seen rs : List String)
    → contains_reason seen r ≡ true
    → without (r ∷ seen) rs ≡ without seen rs
unfolding without contains_reason
without-seen r seen [] h = refl
without-seen r seen (x ∷ rs) h = ground (arith, without-seen r seen rs, eq_iff r x)

dedupe_from-eq :
    (seen unique rs : List String)
    → dedupe_from seen unique rs ≡ unique ++ without seen (first_seen rs)
unfolding dedupe_from first_seen without
dedupe_from-eq seen unique [] = sym (append-nil unique)
dedupe_from-eq seen unique (r ∷ rs) = elim (Bool-cases (contains_reason seen r)) [
  | inl old ↦ rw old (
      dedupe_from-eq seen unique rs
      ∙ ap (λ l. unique ++ l)
          (sym (without-cons r seen (first_seen rs) ∙ without-seen r seen (first_seen rs) old)))
  | inr new ↦ rw new (
      dedupe_from-eq (r ∷ seen) (unique ++ r ∷ []) rs
      ∙ append_assoc unique (r ∷ []) _
      ∙ ap (λ l. unique ++ r ∷ l) (sym (without-cons r seen (first_seen rs))))
]

without_nothing : (rs : List String) → without [] rs ≡ rs
unfolding without contains_reason
without_nothing [] = refl
without_nothing (r ∷ rs) = ap (λ l. r ∷ l) (without_nothing rs)

All-without : (P : String → Type 0) (seen rs : List String) → All P rs → All P (without seen rs)
unfolding without
All-without P seen [] h = tt
All-without P seen (r ∷ rs) h = elim (Bool-cases (contains_reason seen r)) [
  | inl old ↦ rw old (All-without P seen rs h.1)
  | inr new ↦ rw new (h.0, All-without P seen rs h.1)
]

Distinct-without : (seen rs : List String) → Distinct rs → Distinct (without seen rs)
unfolding without
Distinct-without seen [] d = tt
Distinct-without seen (r ∷ rs) d = elim (Bool-cases (contains_reason seen r)) [
  | inl old ↦ rw old (Distinct-without seen rs d.1)
  | inr new ↦ rw new (All-without (λ y. r ≢ y) seen rs d.0, Distinct-without seen rs d.1)
]

without_self : (r : String) (rs : List String) → All (λ y. r ≢ y) (without (r ∷ []) rs)
unfolding without contains_reason
without_self r [] = tt
without_self r (x ∷ rs) = elim (Bool-cases (r == x)) [
  | inl old ↦ rw old (without_self r rs)
  | inr new ↦ rw new ((λ p. ground (arith, eq_iff r x)), without_self r rs)
]

first_seen-Distinct : (rs : List String) → Distinct (first_seen rs)
unfolding first_seen
first_seen-Distinct [] = tt
first_seen-Distinct (r ∷ rs) = (
  without_self r (first_seen rs),
  Distinct-without (r ∷ []) (first_seen rs) (first_seen-Distinct rs),
)

contains-without :
    (x r : String) (rs : List String)
    → r ≢ x
    → contains_reason (without (r ∷ []) rs) x ≡ contains_reason rs x
unfolding without contains_reason
contains-without x r [] h = refl
contains-without x r (y ∷ rs) h =
    ground (arith, contains-without x r rs, eq_iff r y, eq_iff y x, eq_iff r x)

contains-first_seen :
    (x : String) (rs : List String) → contains_reason (first_seen rs) x ≡ contains_reason rs x
unfolding first_seen contains_reason
contains-first_seen x [] = refl
contains-first_seen x (r ∷ rs) = elim (Bool-cases (r == x)) [
  | inl same ↦ rw same
  | inr other ↦ rw other (
      contains-without x r (first_seen rs) (λ p. ground (arith, eq_iff r x))
      ∙ contains-first_seen x rs)
]

-- Removing repeated reasons keeps the first occurrence of each, in order: no reason is left twice,
-- and a reason is in the result exactly if it was in the list.
pub dedupe_reasons_lem :
    (rs : List String)
    → (dedupe_reasons rs ≡ first_seen rs)
      × Distinct (dedupe_reasons rs)
      × ((x : String) → contains_reason (dedupe_reasons rs) x ≡ contains_reason rs x)
unfolding dedupe_reasons
dedupe_reasons_lem rs =
    let e : dedupe_from [] [] rs ≡ first_seen rs =
      dedupe_from-eq [] [] rs ∙ without_nothing (first_seen rs) in
    rw e (refl, first_seen-Distinct rs, λ x. contains-first_seen x rs)
