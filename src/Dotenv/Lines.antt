-- ===== src/Dotenv/Lines.antt =====
-- Lines of text: splitting what was joined, and the lines that ParseEnvText reads.
use mathlib.Core.List.{append-nil, append_assoc}
use agent_rd.Common.{
  ℕ, Bool, true, false, ◌&&◌, some, List, [], ◌∷◌, ◌++◌, ◌≡◌, ◌≢◌, refl, ap, ◌∙◌, ◌⊎◌, inl, inr,
  nat_beq, nat_eq, list_eq, All, All-append, Dict, lookup, lookup-insert_self, lookup-insert_ne,
  Bool-cases, Option-cases,
}
use agent_rd.Dotenv.Text.{
  is_line_boundary, split_loop, split_lines, join_lines, strip_wrapping_quotes,
}
use agent_rd.Dotenv.Parser.{key_value, interpolate, strip_comment, parse_line, parse_lines}

-- A line without a line boundary in it.
abbrev pub IsOneLine : List ℕ → Type 0
IsOneLine = All (λ c. is_line_boundary c ≡ false)

newline_boundary : is_line_boundary b'\n' ≡ true
unfolding is_line_boundary
newline_boundary = refl

split_loop-append :
    (l line s : List ℕ)
    → IsOneLine l
    → split_loop false line (l ++ b'\n' ∷ s) ≡ (line ++ l) ∷ split_loop false [] s
unfolding split_loop
split_loop-append [] line s h = rw (append-nil, newline_boundary) refl
split_loop-append (c ∷ l) line s h =
    rw (h.0, split_loop)
      (split_loop-append l (line ++ c ∷ []) s h.1
        ∙ ap (λ x. x ∷ split_loop false [] s) (append_assoc line (c ∷ []) l))

-- Joining lines and splitting the text gives them back.
pub split_lines-join_lines :
    (ls : List (List ℕ)) → All IsOneLine ls → split_lines (join_lines ls) ≡ ls
unfolding split_lines join_lines split_loop
split_lines-join_lines [] h = refl
split_lines-join_lines (l ∷ ls) h =
    split_loop-append l [] (join_lines ls) h.0
    ∙ ap (λ x. l ∷ x) (unfold split_lines in split_lines-join_lines ls h.1)

split_loop-IsOneLine :
    (b : Bool) (line s : List ℕ) → IsOneLine line → All IsOneLine (split_loop b line s)
unfolding split_loop
split_loop-IsOneLine b [] [] h = tt
split_loop-IsOneLine b (c ∷ line) [] h = (h, tt)
split_loop-IsOneLine b line (c ∷ s) h = elim (Bool-cases (b && nat_beq c b'\n')) [
  | inl skip ↦ rw (skip, split_loop) (split_loop-IsOneLine false line s h)
  | inr use_it ↦ elim (Bool-cases (is_line_boundary c)) [
    | inl ends ↦ rw (use_it, ends, split_loop) (h, split_loop-IsOneLine _ [] s tt)
    | inr goes ↦
        rw (use_it, goes, split_loop)
          (split_loop-IsOneLine false (line ++ c ∷ []) s
            (All-append (λ d. is_line_boundary d ≡ false) line (c ∷ []) h (goes, tt)))
  ]
]

pub split_lines-IsOneLine : (text : List ℕ) → All IsOneLine (split_lines text)
unfolding split_lines
split_lines-IsOneLine text = split_loop-IsOneLine false [] text tt

module _ (table : ℕ → ℕ) where
  -- A line that sets another key, or none.
  abbrev pub Misses : List ℕ → List ℕ → Type 0
  Misses k l = (v : List ℕ) → key_value table l ≢ some (k, v)

  module _ (getenv : List ℕ → List ℕ) where
    -- A line that sets the key to this value, whatever was set before.
    abbrev pub Sets : List ℕ → List ℕ → List ℕ → Type 0
    Sets k v l =
        (raw : List ℕ) × (key_value table l ≡ some (k, raw))
        × ((parsed : Dict (List ℕ) (List ℕ))
            → interpolate getenv parsed (strip_wrapping_quotes (strip_comment raw)) ≡ v)

    abbrev pub Agrees : List ℕ → List ℕ → List ℕ → Type 0
    Agrees k v l = Misses k l ⊎ Sets k v l

    parse_line-Sets :
        (k v l : List ℕ) (parsed : Dict (List ℕ) (List ℕ))
        → Sets k v l
        → lookup k (parse_line table getenv parsed l) ≡ some v
    unfolding parse_line
    parse_line-Sets k v l parsed (raw, e, same) =
        rw (e, parse_line) (rw (same parsed) (lookup-insert_self k v parsed))

    parse_line-Misses :
        (k l : List ℕ) (parsed : Dict (List ℕ) (List ℕ))
        → Misses k l
        → lookup k (parse_line table getenv parsed l) ≡ lookup k parsed
    unfolding parse_line
    parse_line-Misses k l parsed h = elim (Option-cases (key_value table l)) [
      | inl nothing ↦ rw (nothing, parse_line) refl
      | inr ((j, v), e) ↦ rw (e, parse_line) (lookup-insert_ne k j _ parsed (λ p. h v (rw p e)))
    ]

    -- Lines that agree on the key keep its value.
    parse_lines-kept :
        (k v : List ℕ) (ls : List (List ℕ)) (parsed : Dict (List ℕ) (List ℕ))
        → All (Agrees k v) ls
        → lookup k parsed ≡ some v
        → lookup k (parse_lines table getenv parsed ls) ≡ some v
    unfolding parse_lines
    parse_lines-kept k v [] parsed h e = e
    parse_lines-kept k v (l ∷ ls) parsed (inl misses, h) e =
        parse_lines-kept k v ls _ h (parse_line-Misses k l parsed misses ∙ e)
    parse_lines-kept k v (l ∷ ls) parsed (inr sets, h) e =
        parse_lines-kept k v ls _ h (parse_line-Sets k v l parsed sets)

    -- Some line sets the key, and all behind it agree.
    pub data Final (k v : List ℕ) : List (List ℕ) → Type 0 where
      here :
          (l : List ℕ) (ls : List (List ℕ)) → Sets k v l → All (Agrees k v) ls → Final k v (l ∷ ls)
      there : (l : List ℕ) (ls : List (List ℕ)) → Final k v ls → Final k v (l ∷ ls)

    pub parse_lines-Final :
        (k v : List ℕ) (ls : List (List ℕ)) (parsed : Dict (List ℕ) (List ℕ))
        → Final k v ls
        → lookup k (parse_lines table getenv parsed ls) ≡ some v
    unfolding parse_lines
    parse_lines-Final k v [] parsed f = elim f [ ]
    parse_lines-Final k v (l ∷ ls) parsed (here _ _ sets h) =
        parse_lines-kept k v ls _ h (parse_line-Sets k v l parsed sets)
    parse_lines-Final k v (l ∷ ls) parsed (there _ _ f) = parse_lines-Final k v ls _ f

    pub Final-append :
        (k v : List ℕ) (ls ms : List (List ℕ))
        → Final k v ls
        → All (Agrees k v) ms
        → Final k v (ls ++ ms)
    Final-append k v [] ms f g = elim f [ ]
    Final-append k v (l ∷ ls) ms (here _ _ sets h) g =
        here l (ls ++ ms) sets (All-append (Agrees k v) ls ms h g)
    Final-append k v (l ∷ ls) ms (there _ _ f) g = there l (ls ++ ms) (Final-append k v ls ms f g)

    pub append-Final : (k v : List ℕ) (ls ms : List (List ℕ)) → Final k v ms → Final k v (ls ++ ms)
    append-Final k v [] ms f = f
    append-Final k v (l ∷ ls) ms f = there l (ls ++ ms) (append-Final k v ls ms f)
