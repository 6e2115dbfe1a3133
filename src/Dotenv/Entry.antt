-- ===== src/Dotenv/Entry.antt =====
-- The line `KEY=value` that UpsertEnvFile writes, as ParseEnvText reads it.
use agent_rd.Common.{
  ℕ, Bool, true, false, ◌||◌, Option, none, some, List, [], ◌∷◌, ◌++◌, ◌≡◌, ◌≢◌, refl, sym, ap, ◌∙◌,
  inl, inr, nat_beq, All, All-append, All-map, Dict, Bool-cases, arith,
}
use agent_rd.Eligibility.Gate.{lower_rune, to_lower}
use agent_rd.Agent.Thinking.{prefix_runes}
use agent_rd.Dotenv.Text.{
  is_line_boundary, is_space, is_stripped, strip_left, strip_right, py_strip, is_word, all_words,
  is_key, strip_wrapping_quotes,
}
use agent_rd.Dotenv.Parser.{
  outside, scan_rune, scan_text, interpolate, cut, starts_with, strip_comment, export_prefix,
  set_prefix, without_prefix, key_value,
}
use agent_rd.Dotenv.Upsert.{entry_line}
use agent_rd.Dotenv.Lines.{IsOneLine, Misses, Sets}

-- A value that stands in a line as it is: one line, with no blanks at its ends, no wrapping quotes, no
-- comment and no `$`.
pub record IsVerbatim (v : List ℕ) : Type 0 where
  pub one_line : IsOneLine v
  pub left : strip_left v ≡ v
  pub right : strip_right v ≡ v
  pub comment : strip_comment v ≡ v
  pub quotes : strip_wrapping_quotes v ≡ v
  pub plain : All (λ c. nat_beq c b'$' ≡ false) v

scan_text-plain :
    (resolve : List ℕ → List ℕ) (s : List ℕ)
    → All (λ c. nat_beq c b'$' ≡ false) s
    → scan_text resolve outside s ≡ s
unfolding scan_text scan_rune
scan_text-plain resolve [] h = refl
scan_text-plain resolve (c ∷ s) h =
    rw (h.0, scan_rune) (ap (λ t. c ∷ t) (scan_text-plain resolve s h.1))

interpolate-plain :
    (getenv : List ℕ → List ℕ) (parsed : Dict (List ℕ) (List ℕ)) (v : List ℕ)
    → All (λ c. nat_beq c b'$' ≡ false) v
    → interpolate getenv parsed v ≡ v
unfolding interpolate
interpolate-plain getenv parsed v h = scan_text-plain _ v h

abbrev key_in : Option (List ℕ × List ℕ) → List ℕ
key_in none = []
key_in (some (k, v)) = k

py_strip-IsVerbatim : (v : List ℕ) → IsVerbatim v → py_strip v ≡ v
unfolding py_strip
py_strip-IsVerbatim v h = ap strip_left h.right ∙ h.left

-- What a rune of a key is not.
word_rune :
    (c : ℕ)
    → is_word c ≡ true
    → (is_stripped c ≡ false)
      × (is_line_boundary c ≡ false)
      × (nat_beq c b'=' ≡ false)
      × (nat_beq c b'#' ≡ false)
unfolding is_stripped is_space is_line_boundary
word_rune c h = ground arith

lower_word : (table : ℕ → ℕ) (c : ℕ) → is_word c ≡ true → nat_beq (lower_rune table c) b' ' ≡ false
unfolding lower_rune
lower_word table c h = ground arith

all_words-All : (k : List ℕ) → all_words k ≡ true → All (λ c. is_word c ≡ true) k
all_words-All [] h = tt
all_words-All (c ∷ k) h = (ground arith, all_words-All k (ground arith))

is_key-All : (k : List ℕ) → is_key k ≡ true → All (λ c. is_word c ≡ true) k
unfolding is_key
is_key-All [] h = absurd (cc)
is_key-All (c ∷ k) h = (ground arith, all_words-All k (ground arith))

strip_right-word : (c : ℕ) (s : List ℕ) → is_word c ≡ true → strip_right (c ∷ s) ≡ c ∷ strip_right s
unfolding strip_right
strip_right-word c s h = rw ((word_rune c h).0) refl

strip_left-word : (c : ℕ) (s : List ℕ) → is_word c ≡ true → strip_left (c ∷ s) ≡ c ∷ s
unfolding strip_left
strip_left-word c s h = rw ((word_rune c h).0) refl

strip_right-words :
    (k s : List ℕ) → All (λ c. is_word c ≡ true) k → strip_right (k ++ s) ≡ k ++ strip_right s
strip_right-words [] s h = refl
strip_right-words (c ∷ k) s h =
    strip_right-word c (k ++ s) h.0 ∙ ap (λ t. c ∷ t) (strip_right-words k s h.1)

strip_right-equals : (v : List ℕ) → strip_right v ≡ v → strip_right (b'=' ∷ v) ≡ b'=' ∷ v
unfolding strip_right is_stripped is_space
strip_right-equals v e = ap (λ t. b'=' ∷ t) e

py_strip_entry :
    (k v : List ℕ) → is_key k ≡ true → strip_right v ≡ v → py_strip (k ++ b'=' ∷ v) ≡ k ++ b'=' ∷ v
unfolding py_strip is_key
py_strip_entry [] v h e = absurd (cc)
py_strip_entry (c ∷ k) v h e =
    let words = is_key-All (c ∷ k) h in
    ap strip_left (strip_right-words (c ∷ k) (b'=' ∷ v) words)
    ∙ strip_left-word c (k ++ strip_right (b'=' ∷ v)) words.0
    ∙ ap (λ t. c ∷ k ++ t) (strip_right-equals v e)

strip_right-key : (k : List ℕ) → All (λ c. is_word c ≡ true) k → strip_right k ≡ k
unfolding strip_right
strip_right-key [] h = refl
strip_right-key (c ∷ k) h = strip_right-word c k h.0 ∙ ap (λ t. c ∷ t) (strip_right-key k h.1)

py_strip_key : (k : List ℕ) → is_key k ≡ true → py_strip k ≡ k
unfolding py_strip is_key
py_strip_key [] h = absurd (cc)
py_strip_key (c ∷ k) h =
    let words = is_key-All (c ∷ k) h in
    ap strip_left (strip_right-key (c ∷ k) words) ∙ strip_left-word c k words.0

cut_entry : (k v : List ℕ) → All (λ c. is_word c ≡ true) k → cut (k ++ b'=' ∷ v) ≡ some (k, v)
unfolding cut
cut_entry [] v h = refl
cut_entry (c ∷ k) v h = rw ((word_rune c h.0).2, cut_entry k v h.1) refl

-- A prefix that has a blank, and no `=`, is not in front of an entry.
abbrev has_rune : ℕ → List ℕ → Bool
has_rune d [] = false
has_rune d (c ∷ s) = nat_beq c d || has_rune d s

prefix_entry :
    (table : ℕ → ℕ) (p k v : List ℕ)
    → has_rune b' ' p ≡ true
    → has_rune b'=' p ≡ false
    → All (λ c. is_word c ≡ true) k
    → prefix_runes p (to_lower table (k ++ b'=' ∷ v)) ≡ false
unfolding to_lower
prefix_entry table [] k v blank equals h = absurd (cc)
prefix_entry table (d ∷ p) [] v blank equals h = ground arith
prefix_entry table (d ∷ p) (c ∷ k) v blank equals h =
    elim (Bool-cases (nat_beq d (lower_rune table c))) [
      | inl hit ↦
          let no_blank : nat_beq d b' ' ≡ false = ground (arith, lower_word table c h.0) in
          rw hit (prefix_entry table p k v (ground arith) (ground arith) h.1)
      | inr miss ↦ rw miss refl
    ]

without_prefix_entry :
    (table : ℕ → ℕ) (k v : List ℕ)
    → is_key k ≡ true
    → without_prefix table (k ++ b'=' ∷ v) ≡ k ++ b'=' ∷ v
unfolding without_prefix
without_prefix_entry table k v h =
    let words = is_key-All k h in
    rw
      (
        prefix_entry table export_prefix k v refl refl words,
        prefix_entry table set_prefix k v refl refl words,
      )
      refl

no_comment :
    (k v : List ℕ) → is_key k ≡ true → starts_with (λ c. nat_beq c b'#') (k ++ b'=' ∷ v) ≡ false
unfolding is_key
no_comment [] v h = absurd (cc)
no_comment (c ∷ k) v h = (word_rune c (is_key-All (c ∷ k) h).0).3

module _ (table : ℕ → ℕ) where
  key_value_entry :
      (k v : List ℕ)
      → is_key k ≡ true
      → IsVerbatim v
      → key_value table (entry_line (k, v)) ≡ some (k, v)
  unfolding key_value entry_line
  key_value_entry k v h value =
      rw (py_strip_entry k v h value.right, no_comment k v h, without_prefix_entry table k v h)
        (rw (cut_entry k v (is_key-All k h))
          (rw (py_strip_key k h, h) (ap (λ t. some (k, t)) (py_strip-IsVerbatim v value))))

  pub entry_line-IsOneLine :
      (k v : List ℕ) → is_key k ≡ true → IsVerbatim v → IsOneLine (entry_line (k, v))
  unfolding entry_line is_line_boundary
  entry_line-IsOneLine k v h value =
      All-append (λ c. is_line_boundary c ≡ false) k (b'=' ∷ v)
        (All-map (λ c. is_word c ≡ true) (λ c. is_line_boundary c ≡ false)
          (λ c w. (word_rune c w).1) k (is_key-All k h))
        (refl, value.one_line)

  -- The parser reads the line as the key with the value.
  pub entry_line-Sets :
      (getenv : List ℕ → List ℕ) (k v : List ℕ)
      → is_key k ≡ true
      → IsVerbatim v
      → Sets table getenv k v (entry_line (k, v))
  entry_line-Sets getenv k v h value = (
    v,
    key_value_entry k v h value,
    (λ parsed.
        ap (λ t. interpolate getenv parsed (strip_wrapping_quotes t)) value.comment
        ∙ ap (interpolate getenv parsed) value.quotes
        ∙ interpolate-plain getenv parsed v value.plain),
  )

  pub entry_line-Misses :
      (k j v : List ℕ) → is_key j ≡ true → IsVerbatim v → j ≢ k → Misses table k (entry_line (j, v))
  entry_line-Misses k j v h value ne w e = ne (ap key_in (sym (key_value_entry j v h value) ∙ e))
