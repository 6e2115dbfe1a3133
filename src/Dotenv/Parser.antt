-- ===== src/Dotenv/Parser.antt =====
-- ParseEnvText, interpolate, LoadEnvFile and LoadEnv.
use agent_rd.Common.{
  ℕ, Bool, true, false, ◌&&◌, Option, none, some, List, [], ◌∷◌, ◌++◌, nat_beq, nat_eq, list_eq,
  if◌then◌else◌, Dict, lookup, insert, drop,
}
use agent_rd.Eligibility.Gate.{to_lower}
use agent_rd.Agent.Thinking.{prefix_runes}
use agent_rd.Dotenv.Text.{
  py_strip, split_lines, is_key, is_letter, is_word, is_quote, strip_wrapping_quotes,
}

-- Where the scan for `${NAME}` stands: outside, behind a `$`, or in a name.
pub data Scan : Type 0 where
  outside dollar : Scan
  in_name : List ℕ → Scan

abbrev pub seen : Scan → List ℕ
seen outside = []
seen dollar = b'$' ∷ []
seen (in_name name) = b'$' ∷ b'{' ∷ name

abbrev pub extends : List ℕ → ℕ → Bool
extends [] c = is_letter c
extends (d ∷ s) c = is_word c

abbrev pub is_named : List ℕ → Bool
is_named [] = false
is_named (c ∷ s) = true

-- One rune of the scan: the next state, with what it gives out.
unfoldable pub scan_rune : (List ℕ → List ℕ) → Scan → ℕ → Scan × List ℕ
scan_rune resolve outside c = if nat_beq c b'$' then (dollar, []) else (outside, c ∷ [])
scan_rune resolve dollar c =
    if nat_beq c b'{'
    then (in_name [], [])
    else if nat_beq c b'$'
    then (dollar, b'$' ∷ [])
    else (outside, b'$' ∷ c ∷ [])
scan_rune resolve (in_name name) c =
    if nat_beq c b'}' && is_named name
    then (outside, resolve name)
    else if extends name c
    then (in_name (name ++ c ∷ []), [])
    else if nat_beq c b'$'
    then (dollar, seen (in_name name))
    else (outside, seen (in_name name) ++ c ∷ [])

unfoldable pub scan_text : (List ℕ → List ℕ) → Scan → List ℕ → List ℕ
scan_text resolve at [] = seen at
scan_text resolve at (c ∷ s) =
    let (next, out) = scan_rune resolve at c in out ++ scan_text resolve next s

-- interpolate: the keys that were parsed, and then the process environment.
unfoldable pub interpolate : (List ℕ → List ℕ) → Dict (List ℕ) (List ℕ) → List ℕ → List ℕ
interpolate getenv parsed value = scan_text resolve outside value
  where
    resolve : List ℕ → List ℕ
    resolve name = elim (lookup name parsed) [ none ↦ getenv name | some v ↦ v ]

-- strings.Cut at the first `=`
unfoldable pub cut : List ℕ → Option (List ℕ × List ℕ)
cut [] = none
cut (c ∷ s) = if nat_beq c b'=' then some ([], s) else longer (cut s)
  where
    longer : Option (List ℕ × List ℕ) → Option (List ℕ × List ℕ)
    longer none = none
    longer (some (k, v)) = some (c ∷ k, v)

-- value[:strings.Index(value, text)], where the text of two runes occurs
unfoldable pub before_pair : ℕ → ℕ → List ℕ → Option (List ℕ)
before_pair a b [] = none
before_pair a b (c ∷ []) = none
before_pair a b (c ∷ d ∷ s) =
    if nat_beq c a && nat_beq d b then some [] else longer (before_pair a b (d ∷ s))
  where
    longer : Option (List ℕ) → Option (List ℕ)
    longer none = none
    longer (some before) = some (c ∷ before)

abbrev pub starts_with : (ℕ → Bool) → List ℕ → Bool
starts_with test [] = false
starts_with test (c ∷ s) = test c

-- The trailing comment, of values that are not quoted.
unfoldable pub strip_comment : List ℕ → List ℕ
strip_comment value =
    if starts_with is_quote value then value else elim (before_pair b' ' b'#' value) [
      | some before ↦ py_strip before
      | none ↦ elim (before_pair b'\t' b'#' value) [ some before ↦ py_strip before | none ↦ value ]
    ]

abbrev pub export_prefix : List ℕ
export_prefix = b'e' ∷ b'x' ∷ b'p' ∷ b'o' ∷ b'r' ∷ b't' ∷ b' ' ∷ []

abbrev pub set_prefix : List ℕ
set_prefix = b's' ∷ b'e' ∷ b't' ∷ b' ' ∷ []

module _ (table : ℕ → ℕ) where
  unfoldable pub without_prefix : List ℕ → List ℕ
  without_prefix line =
      let lower = to_lower table line in
      if prefix_runes export_prefix lower
      then py_strip (drop 7 line)
      else if prefix_runes set_prefix lower
      then py_strip (drop 4 line)
      else line

  -- The key and the raw value of a line that has them.
  unfoldable pub key_value : List ℕ → Option (List ℕ × List ℕ)
  key_value raw =
      let line = py_strip raw in
      if starts_with (λ c. nat_beq c b'#') line then none else elim (cut (without_prefix line)) [
        | none ↦ none
        | some (k, v) ↦ if is_key (py_strip k) then some (py_strip k, py_strip v) else none
      ]

  module _ (getenv : List ℕ → List ℕ) where
    -- One line of ParseEnvText.
    unfoldable pub parse_line : Dict (List ℕ) (List ℕ) → List ℕ → Dict (List ℕ) (List ℕ)
    parse_line parsed raw = elim (key_value raw) [
      | none ↦ parsed
      | some (k, v) ↦
          insert k (interpolate getenv parsed (strip_wrapping_quotes (strip_comment v))) parsed
    ]

    unfoldable pub parse_lines : Dict (List ℕ) (List ℕ) → List (List ℕ) → Dict (List ℕ) (List ℕ)
    parse_lines parsed [] = parsed
    parse_lines parsed (l ∷ ls) = parse_lines (parse_line parsed l) ls

    -- ParseEnvText
    unfoldable pub parse_env_text : List ℕ → Dict (List ℕ) (List ℕ)
    parse_env_text text = parse_lines [] (split_lines text)
