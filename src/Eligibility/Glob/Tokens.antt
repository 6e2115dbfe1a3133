-- ===== src/Eligibility/Glob/Tokens.antt =====
-- What a glob pattern means: its tokens, and the texts that a list of tokens matches.
use agent_rd.Common.{
  ℕ, zero, suc, ◌+◌, ◌≤◌, ◌<◌, ◌≡◌, refl, ◌⊎◌, inl, inr, Bool, true, false, ◌&&◌, ◌||◌, none, some,
  List, [], ◌∷◌, ◌==◌, nat_eq, if◌then◌else◌, length, get_elem?, arith, get_elem?-ge, Option-cases,
}
use agent_rd.Eligibility.Glob.{at, find_close, class_end, class_contains, slice}

pub data Token : Type 0 where
  star any : Token
  one : ℕ → Token
  class : List ℕ → Token

-- The texts that tokens match: `*` any run, `?` one rune, a class one of its members.
pub data Matches : List Token → List ℕ → Type 0 where
  end : Matches [] []
  star_stop : {ts : List Token} {s : List ℕ} → Matches ts s → Matches (star ∷ ts) s
  star_more :
      {ts : List Token} {c : ℕ} {s : List ℕ} → Matches (star ∷ ts) s → Matches (star ∷ ts) (c ∷ s)
  any_one : {ts : List Token} {c : ℕ} {s : List ℕ} → Matches ts s → Matches (any ∷ ts) (c ∷ s)
  same : {ts : List Token} (c : ℕ) {s : List ℕ} → Matches ts s → Matches (one c ∷ ts) (c ∷ s)
  member :
      {ts : List Token} {body : List ℕ} {c : ℕ} {s : List ℕ}
      → class_contains body c ≡ true
      → Matches ts s
      → Matches (class body ∷ ts) (c ∷ s)

-- The plain matcher, with no memo and no index.
unfoldable pub matches : List Token → List ℕ → Bool
matches [] [] = true
matches [] (c ∷ s) = false
matches (star ∷ ts) [] = matches ts []
matches (star ∷ ts) (c ∷ s) = matches ts (c ∷ s) || matches (star ∷ ts) s
matches (any ∷ ts) [] = false
matches (any ∷ ts) (c ∷ s) = matches ts s
matches (one d ∷ ts) [] = false
matches (one d ∷ ts) (c ∷ s) = c == d && matches ts s
matches (class body ∷ ts) [] = false
matches (class body ∷ ts) (c ∷ s) = class_contains body c && matches ts s

or_cases : (a b : Bool) → (a || b) ≡ true → (a ≡ true) ⊎ (b ≡ true)
or_cases a b h = ground arith

pub matches_sound : (ts : List Token) (s : List ℕ) → matches ts s ≡ true → Matches ts s
unfolding matches
matches_sound [] [] h = end
matches_sound [] (c ∷ s) h = absurd (cc)
matches_sound (star ∷ ts) [] h = star_stop (matches_sound ts [] h)
matches_sound (star ∷ ts) (c ∷ s) h = elim (or_cases _ _ h) [
  | inl e ↦ star_stop (matches_sound ts (c ∷ s) e)
  | inr e ↦ star_more (matches_sound (star ∷ ts) s e)
]
matches_sound (any ∷ ts) [] h = absurd (cc)
matches_sound (any ∷ ts) (c ∷ s) h = any_one (matches_sound ts s h)
matches_sound (one d ∷ ts) [] h = absurd (cc)
matches_sound (one d ∷ ts) (c ∷ s) h =
    let (e, rest) : (c ≡ d) × (matches ts s ≡ true) = ground arith in
    rw e (same d (matches_sound ts s rest))
matches_sound (class body ∷ ts) [] h = absurd (cc)
matches_sound (class body ∷ ts) (c ∷ s) h =
    let (e, rest) : (class_contains body c ≡ true) × (matches ts s ≡ true) = ground arith in
    member e (matches_sound ts s rest)

pub matches_complete : {ts : List Token} {s : List ℕ} → Matches ts s → matches ts s ≡ true
unfolding matches
matches_complete end = refl
matches_complete (star_stop {s = []} m) = matches_complete m
matches_complete (star_stop {s = c ∷ s} m) = rw (matches_complete m)
matches_complete (star_more m) = ground (arith, matches_complete m)
matches_complete (any_one m) = matches_complete m
matches_complete (same c m) = ground (arith, matches_complete m)
matches_complete (member e m) = rw e (matches_complete m)

-- The pattern's tokens from an index on. Fuel above the number of runes left is enough.
pub tokens_from : ℕ → List ℕ → ℕ → List Token
tokens_from zero pattern p = []
tokens_from (suc fuel) pattern p = elim (get_elem? pattern p) [
  | none ↦ []
  | some c ↦
      if c == b'*'
      then star ∷ tokens_from fuel pattern (suc p)
      else if c == b'?'
      then any ∷ tokens_from fuel pattern (suc p)
      else if c == b'['
      then elim (class_end pattern p) [
        | none ↦ one b'[' ∷ tokens_from fuel pattern (suc p)
        | some e ↦ class (slice pattern (suc p) e) ∷ tokens_from fuel pattern (suc e)
      ]
      else one c ∷ tokens_from fuel pattern (suc p)
]

unfoldable pub tokens : List ℕ → List Token
unfolding tokens_from
tokens pattern = tokens_from (suc (length pattern)) pattern 0

find_close-bounds :
    (f : ℕ) (runes : List ℕ) (i e : ℕ)
    → find_close f runes i ≡ some e
    → (i ≤ e) × (e < length runes)
unfolding find_close
find_close-bounds zero runes i e h = absurd (cc)
find_close-bounds (suc f) runes i e h =
    ground (arith, find_close-bounds f runes (suc i) e, get_elem?-ge i runes)

pub class_end-bounds :
    (runes : List ℕ) (p e : ℕ) → class_end runes p ≡ some e → (p < e) × (e < length runes)
unfolding class_end
class_end-bounds runes p e h =
    let j = if at runes (suc p) b'!' then suc (suc p) else suc p in
    let k = if at runes j b']' then suc j else j in
    let bounds = find_close-bounds (length runes) runes k e h in ground (arith)

tokens_enough :
    (f g : ℕ) (pattern : List ℕ) (p : ℕ)
    → length pattern < f + p
    → length pattern < g + p
    → tokens_from f pattern p ≡ tokens_from g pattern p
unfolding tokens_from
tokens_enough zero zero pattern p h k = refl
tokens_enough zero (suc g) pattern p h k = ground (arith, get_elem?-ge p pattern)
tokens_enough (suc f) zero pattern p h k = ground (arith, get_elem?-ge p pattern)
tokens_enough (suc f) (suc g) pattern p h k = elim (Option-cases (class_end pattern p)) [
  | inl u ↦ ground (arith, tokens_enough f g pattern (suc p) (omega arith) (omega arith))
  | inr (q, u) ↦
      let b = class_end-bounds pattern p q u in
      ground (
        arith,
        tokens_enough f g pattern (suc p) (omega arith) (omega arith),
        tokens_enough f g pattern (suc q) (omega arith) (omega arith),
      )
]

-- The token at an index, and the index of the next one.
unfoldable pub token_at : List ℕ → ℕ → ℕ → Token × ℕ
token_at pattern p c =
    if c == b'*'
    then (star, suc p)
    else if c == b'?'
    then (any, suc p)
    else if c == b'['
    then elim (class_end pattern p) [
      | none ↦ (one b'[', suc p)
      | some e ↦ (class (slice pattern (suc p) e), suc e)
    ]
    else (one c, suc p)

abbrev pub tokens_at : List ℕ → ℕ → List Token
tokens_at pattern p = tokens_from (suc (length pattern)) pattern p

pub tokens_at-none :
    (pattern : List ℕ) (p : ℕ) → get_elem? pattern p ≡ none → tokens_at pattern p ≡ []
unfolding tokens_from
tokens_at-none pattern p e = ground arith

pub tokens_at-some :
    (pattern : List ℕ) (p c : ℕ)
    → get_elem? pattern p ≡ some c
    → tokens_at pattern p ≡ (token_at pattern p c).0 ∷ tokens_at pattern (token_at pattern p c).1
unfolding tokens_from token_at
tokens_at-some pattern p c e = elim (Option-cases (class_end pattern p)) [
  | inl u ↦ ground (
    arith,
    tokens_enough (length pattern) (suc (length pattern)) pattern (suc p) (omega arith)
        (omega arith),
  )
  | inr (q, u) ↦
      let b = class_end-bounds pattern p q u in
      ground (
        arith,
        tokens_enough (length pattern) (suc (length pattern)) pattern (suc p) (omega arith)
            (omega arith),
        tokens_enough (length pattern) (suc (length pattern)) pattern (suc q) (omega arith)
            (omega arith),
      )
]
