-- ===== src/Eligibility/Glob.antt =====
-- globMatch, classEnd and classContains of eligibility.go, over the runes of the texts.
pub mod Tokens
pub mod Correct
use agent_rd.Common.{
  ℕ, zero, suc, ◌+◌, ◌≤◌, ◌<◌, Bool, true, false, not, ◌&&◌, ◌||◌, Option, none, some, List, [],
  ◌∷◌, ◌==◌, nat_eq, pair_eq, ltb, leb, if◌then◌else◌, length, get_elem?, take, drop, ◌-◌, Dict,
  lookup, insert,
}

-- `index < len(runes) && runes[index] == c`
abbrev pub at : List ℕ → ℕ → ℕ → Bool
at runes index c = elim (get_elem? runes index) [ none ↦ false | some d ↦ d == c ]

-- The loop of classEnd: the first "]" at `index` or after it. Fuel `len - index` is enough.
unfoldable pub find_close : ℕ → List ℕ → ℕ → Option ℕ
find_close zero runes index = none
find_close (suc fuel) runes index =
    let rest = find_close fuel runes (suc index) in
    elim (get_elem? runes index) [ none ↦ none | some d ↦ if d == b']' then some index else rest ]

unfoldable pub class_end : List ℕ → ℕ → Option ℕ
class_end runes start =
    let i = suc start in
    let j = if at runes i b'!' then suc i else i in
    let k = if at runes j b']' then suc j else j in find_close (length runes) runes k

-- The loop of classContains, on what is left of the class body.
unfoldable pub class_loop : Bool → List ℕ → ℕ → Bool
class_loop found [] ch = found
class_loop found (a ∷ []) ch = if a == ch then true else found
class_loop found (a ∷ b ∷ []) ch = class_loop (if a == ch then true else found) (b ∷ []) ch
class_loop found (a ∷ b ∷ c ∷ rest) ch =
    let range = class_loop (if leb a ch && leb ch c then true else found) rest ch in
    let single = class_loop (if a == ch then true else found) (b ∷ c ∷ rest) ch in
    if b == b'-' then range else single

unfoldable pub class_contains : List ℕ → ℕ → Bool
class_contains [] ch = class_loop false [] ch
class_contains (a ∷ body) ch =
    if a == b'!' then not (class_loop false body ch) else class_loop false (a ∷ body) ch

-- The two maps `resolved` and `memo` in one: a key is resolved where it is present.
abbrev pub Memo : Type 0
Memo = Dict (ℕ × ℕ) Bool

-- The runes of the class between `start` (a "[") and `end` (its "]").
abbrev pub slice : List ℕ → ℕ → ℕ → List ℕ
slice runes from to = take (to - from) (drop from runes)

module _ (name pattern : List ℕ) where
  -- `nameIndex < len(nameRunes) && test && match(nameIndex+1, next)`
  unfoldable pub advance : (ℕ → ℕ → Memo → Bool × Memo) → (ℕ → Bool) → ℕ → ℕ → Memo → Bool × Memo
  advance match test n next memo = elim (get_elem? name n) [
    | none ↦ (false, memo)
    | some ch ↦ if test ch then match (suc n) next memo else (false, memo)
  ]

  -- The case of "*": stop here, or take one rune more.
  unfoldable pub match_star : (ℕ → ℕ → Memo → Bool × Memo) → ℕ → ℕ → Memo → Bool × Memo
  match_star match n p memo =
      let (here, memo') = match n (suc p) memo in
      if here
      then (true, memo')
      else if ltb n (length name)
      then match (suc n) p memo'
      else (false, memo')

  -- The case of "[", by what classEnd found; an unterminated "[" is a literal.
  unfoldable pub match_class : (ℕ → ℕ → Memo → Bool × Memo) → ℕ → ℕ → Option ℕ → Memo → Bool × Memo
  match_class match n p none memo = advance match (λ ch. ch == b'[') n (suc p) memo
  match_class match n p (some e) memo =
      advance match (λ ch. class_contains (slice pattern (suc p) e) ch) n (suc e) memo

  -- The `switch`, given the function for the recursive calls.
  unfoldable pub match_switch : (ℕ → ℕ → Memo → Bool × Memo) → ℕ → ℕ → Memo → Bool × Memo
  unfolding advance class_end class_contains match_star match_class
  match_switch match n p memo = elim (get_elem? pattern p) [
    | none ↦ (n == length name, memo)
    | some c ↦
        if c == b'*'
        then match_star match n p memo
        else if c == b'?'
        then advance match (λ ch. true) n (suc p) memo
        else if c == b'['
        then match_class match n p (class_end pattern p) memo
        else advance match (λ ch. ch == c) n (suc p) memo
  ]

  unfoldable pub match_at : ℕ → ℕ → ℕ → Memo → Bool × Memo
  unfolding match_switch
  match_at zero n p memo = (false, memo)
  match_at (suc fuel) n p memo = elim (lookup (n, p) memo) [
    | some known ↦ (known, memo)
    | none ↦
        let (result, memo') = match_switch (match_at fuel) n p (insert (n, p) false memo) in
        (result, insert (n, p) result memo')
  ]

-- Every call moves on in the name or the pattern, so this fuel is enough.
unfoldable pub glob_match : List ℕ → List ℕ → Bool
unfolding match_at
glob_match name pattern = (match_at name pattern (length name + length pattern + 1) 0 0 []).0
