-- ===== src/Eligibility/Glob/Correct.antt =====
-- About globMatch of eligibility.go and the meaning of its patterns.
use agent_rd.Common.{
  ℕ, zero, suc, ◌+◌, ◌≤◌, ◌<◌, ◌≡◌, refl, sym, ◌∙◌, ap, ◌↔◌, ◌⊎◌, inl, inr, Bool, true, false, ◌&&◌,
  ◌||◌, none, some, List, [], ◌∷◌, ◌==◌, nat_eq, pair_eq, nat_beq_iff, if◌then◌else◌, length,
  get_elem?, drop, arith, Bool-cases, Option-cases, get_elem?-lt, get_elem?-none, drop-get_elem?,
  drop_all, lookup, insert, lookup-insert_cases, ltb,
}
use agent_rd.Eligibility.Glob.{
  class_end, class_contains, slice, Memo, advance, match_star, match_class, match_switch, match_at,
  glob_match,
}
use agent_rd.Eligibility.Glob.Tokens.{
  Token, any, one, class, Matches, matches, matches_sound, matches_complete, tokens, tokens_at,
  token_at, tokens_at-none, tokens_at-some, class_end-bounds,
}

module _ (name pattern : List ℕ) where
  -- What the call at two indices has to answer.
  ref : ℕ → ℕ → Bool
  ref n p = matches (tokens_at pattern p) (drop n name)

  -- Every entry is right, or is that of a call in progress (`Q`).
  abbrev IsRight : (ℕ × ℕ → Type 0) → Memo → Type 0
  IsRight Q memo = (k : ℕ × ℕ) (b : Bool) → lookup k memo ≡ some b → Q k ⊎ (b ≡ ref k.0 k.1)

  abbrev Good : (ℕ × ℕ → Type 0) → Bool → Bool × Memo → Type 0
  Good Q target r = (r.0 ≡ target) × IsRight Q r.1

  -- The answer of a step that consumes one rune.
  abbrev ref_advance : (ℕ → Bool) → ℕ → ℕ → Bool
  ref_advance test n next = elim (get_elem? name n) [
    | none ↦ false
    | some ch ↦ test ch && ref (suc n) next
  ]

  advance-Good :
      (Q : ℕ × ℕ → Type 0) (match : ℕ → ℕ → Memo → Bool × Memo) (test : ℕ → Bool) (n next : ℕ)
      (memo : Memo)
      → IsRight Q memo
      → (n < length name → Good Q (ref (suc n) next) (match (suc n) next memo))
      → Good Q (ref_advance test n next) (advance name pattern match test n next memo)
  unfolding advance
  advance-Good Q match test n next memo ok step = elim (Option-cases (get_elem? name n)) [
    | inl e ↦ rw (e, advance, ref_advance) (refl, ok)
    | inr (c, e) ↦
        rw (e, advance, ref_advance)
          (elim (Bool-cases (test c)) [
            | inl t ↦ rw t (step (get_elem?-lt n name e))
            | inr f ↦ rw f (refl, ok)
          ])
  ]

  drop-cases :
      (n : ℕ)
      → ((get_elem? name n ≡ none) × (drop n name ≡ []) × (length name ≤ n))
        ⊎ ((c : ℕ) × (get_elem? name n ≡ some c)
            × (drop n name ≡ c ∷ drop (suc n) name)
            × (n < length name))
  drop-cases n = elim (Option-cases (get_elem? name n)) [
    | inl e ↦ inl (e, drop_all n name (get_elem?-none n name e), get_elem?-none n name e)
    | inr (c, e) ↦ inr (c, e, drop-get_elem? n name e, get_elem?-lt n name e)
  ]

  ref-none : (n p : ℕ) → get_elem? pattern p ≡ none → n ≤ length name → (n == length name) ≡ ref n p
  unfolding ref matches
  ref-none n p e h = rw (tokens_at-none pattern p e) (elim (drop-cases n) [
    | inl (_, d, l) ↦ rw d (ground arith)
    | inr (c, _, d, l) ↦ rw d (ground arith)
  ])

  ref-star :
      (n p : ℕ)
      → get_elem? pattern p ≡ some b'*'
      → (ref n (suc p) || (ltb n (length name) && ref (suc n) p)) ≡ ref n p
  unfolding ref matches token_at
  ref-star n p e = rw (tokens_at-some pattern p b'*' e) (elim (drop-cases n) [
    | inl (_, d, l) ↦ rw d (ground arith)
    | inr (c, _, d, l) ↦ rw d (ground arith)
  ])

  -- A token that takes one rune.
  ref-token :
      (test : ℕ → Bool) (n p next c : ℕ) (t : Token)
      → get_elem? pattern p ≡ some c
      → token_at pattern p c ≡ (t, next)
      → ((ts : List Token) (s : List ℕ) (ch : ℕ)
          → matches (t ∷ ts) (ch ∷ s) ≡ (test ch && matches ts s))
      → ((ts : List Token) → matches (t ∷ ts) [] ≡ false)
      → ref_advance test n next ≡ ref n p
  unfolding ref
  ref-token test n p next c t e u takes stops =
      rw (tokens_at-some pattern p c e, u)
        (elim (drop-cases n) [
          | inl (g, d, l) ↦ rw (g, d, ref_advance) (sym (stops _))
          | inr (ch, g, d, l) ↦ rw (g, d, ref_advance) (sym (takes _ _ ch))
        ])

  -- What the recursive calls of a call at `n` and `p` give.
  abbrev Answers : (ℕ × ℕ → Type 0) → (ℕ → ℕ → Memo → Bool × Memo) → ℕ → ℕ → Type 0
  Answers Q match n p =
      (n' p' : ℕ) (memo : Memo)
      → n + p < n' + p'
      → n' ≤ length name
      → p' ≤ length pattern
      → IsRight Q memo
      → Good Q (ref n' p') (match n' p' memo)

  module _ (Q : ℕ × ℕ → Type 0) (match : ℕ → ℕ → Memo → Bool × Memo) (n p : ℕ)
      (hn : n ≤ length name) (ih : Answers Q match n p) where
    star-Good :
        (memo : Memo)
        → IsRight Q memo
        → get_elem? pattern p ≡ some b'*'
        → Good Q (ref n p) (match_star name pattern match n p memo)
    unfolding match_star
    star-Good memo ok e = rw (← ref-star n p e) (elim (Bool-cases (match n (suc p) memo).0) [
      | inl t ↦ rw (t, match_star) (ground (arith, first.0), first.1)
      | inr f ↦
          rw (f, match_star)
            (elim (Bool-cases (ltb n (length name))) [
              | inl l ↦
                  rw l
                    (ground (arith, first.0, (second (ground arith)).0), (second (ground arith)).1)
              | inr l ↦ rw l (ground (arith, first.0), first.1)
            ])
    ])
      where
        first : Good Q (ref n (suc p)) (match n (suc p) memo)
        first = ih n (suc p) memo (omega arith) hn (get_elem?-lt p pattern e) ok

        second : n < length name → Good Q (ref (suc n) p) (match (suc n) p (match n (suc p) memo).1)
        second h = ih (suc n) p _ (omega arith) h (omega (arith, get_elem?-lt p pattern e)) first.1

    token-Good :
        (memo : Memo) (test : ℕ → Bool) (next c : ℕ) (t : Token)
        → IsRight Q memo
        → get_elem? pattern p ≡ some c
        → token_at pattern p c ≡ (t, next)
        → ((ts : List Token) (s : List ℕ) (ch : ℕ)
            → matches (t ∷ ts) (ch ∷ s) ≡ (test ch && matches ts s))
        → ((ts : List Token) → matches (t ∷ ts) [] ≡ false)
        → p < next
        → next ≤ length pattern
        → Good Q (ref n p) (advance name pattern match test n next memo)
    token-Good memo test next c t ok e u takes stops lo hi =
        rw (← ref-token test n p next c t e u takes stops) (
          advance-Good Q match test n next memo ok
            (λ h. ih (suc n) next memo (omega arith) h hi ok))

    class-Good :
        (memo : Memo)
        → IsRight Q memo
        → get_elem? pattern p ≡ some b'['
        → Good Q (ref n p) (match_class name pattern match n p (class_end pattern p) memo)
    unfolding match_class token_at matches
    class-Good memo ok e = elim (Option-cases (class_end pattern p)) [
      | inl u ↦ rw u (
          token-Good memo (λ ch. ch == b'[') (suc p) b'[' (one b'[') ok e (ground arith)
            (λ ts s ch. refl) (λ ts. refl) (omega arith) (get_elem?-lt p pattern e))
      | inr (q, u) ↦
          let b = class_end-bounds pattern p q u in
          rw u (
            token-Good memo (λ ch. class_contains (slice pattern (suc p) q) ch) (suc q) b'['
              (class (slice pattern (suc p) q)) ok e (ground arith) (λ ts s ch. refl) (λ ts. refl)
              (omega arith) (omega arith))
    ]

    rune-Good :
        (memo : Memo) (c : ℕ)
        → IsRight Q memo
        → get_elem? pattern p ≡ some c
        → Good Q (ref n p) (
            if c == b'*'
            then match_star name pattern match n p memo
            else if c == b'?'
            then advance name pattern match (λ ch. true) n (suc p) memo
            else if c == b'['
            then match_class name pattern match n p (class_end pattern p) memo
            else advance name pattern match (λ ch. ch == c) n (suc p) memo)
    unfolding token_at matches
    rune-Good memo c ok e = elim (Bool-cases (c == b'*')) [
      | inl t ↦ rw t (star-Good memo ok (e ∙ ap some ((nat_beq_iff c b'*').0 t)))
      | inr f ↦ rw f (elim (Bool-cases (c == b'?')) [
        | inl t ↦ rw t (
            token-Good memo (λ ch. true) (suc p) c any ok e (rw (token_at, f, t)) (λ ts s ch. refl)
              (λ ts. refl) (omega arith) (get_elem?-lt p pattern e))
        | inr g ↦ rw g (elim (Bool-cases (c == b'[')) [
          | inl t ↦ rw t (class-Good memo ok (e ∙ ap some ((nat_beq_iff c b'[').0 t)))
          | inr h ↦ rw h (
              token-Good memo (λ ch. ch == c) (suc p) c (one c) ok e (rw (token_at, f, g, h))
                (λ ts s ch. refl) (λ ts. refl) (omega arith) (get_elem?-lt p pattern e))
        ])
      ])
    ]

    switch-Good :
        (memo : Memo) → IsRight Q memo → Good Q (ref n p) (match_switch name pattern match n p memo)
    unfolding match_switch
    switch-Good memo ok = elim (Option-cases (get_elem? pattern p)) [
      | inl e ↦ rw (e, match_switch) (ref-none n p e hn, ok)
      | inr (c, e) ↦ rw (e, match_switch) (rune-Good memo c ok e)
    ]

  -- The calls in progress below a call at a key.
  abbrev Within : (ℕ × ℕ → Type 0) → ℕ × ℕ → ℕ × ℕ → Type 0
  Within Q key k = Q k ⊎ (k ≡ key)

  opened :
      (Q : ℕ × ℕ → Type 0) (key : ℕ × ℕ) (memo : Memo)
      → IsRight Q memo
      → IsRight (Within Q key) (insert key false memo)
  opened Q key memo ok k b e = elim (lookup-insert_cases k key false b memo e) [
    | inl (same, _) ↦ inl (inr same)
    | inr (_, l) ↦ elim (ok k b l) [ inl q ↦ inl (inl q) | inr r ↦ inr r ]
  ]

  closed :
      (Q : ℕ × ℕ → Type 0) (n p : ℕ) (r : Bool × Memo)
      → Good (Within Q (n, p)) (ref n p) r
      → IsRight Q (insert (n, p) r.0 r.1)
  closed Q n p r good k b e = elim (lookup-insert_cases k (n, p) r.0 b r.1 e) [
    | inl (same, v) ↦ inr (rw (same, ← v) good.0)
    | inr (other, l) ↦ elim (good.1 k b l) [
      | inl (inl q) ↦ inl q
      | inl (inr same) ↦ absurd (other same)
      | inr r' ↦ inr r'
    ]
  ]

  -- One call, with enough fuel for the steps that are left, in a memo that is right but for calls in
  -- progress, all of which stand at smaller positions.
  match_at-Good :
      (f : ℕ) (Q : ℕ × ℕ → Type 0) (n p : ℕ) (memo : Memo)
      → length name + length pattern < f + n + p
      → n ≤ length name
      → p ≤ length pattern
      → ((k : ℕ × ℕ) → Q k → k.0 + k.1 < n + p)
      → IsRight Q memo
      → Good Q (ref n p) (match_at name pattern f n p memo)
  unfolding match_at
  match_at-Good zero Q n p memo hf hn hp below ok = absurd (omega arith)
  match_at-Good (suc f) Q n p memo hf hn hp below ok = elim (Option-cases (lookup (n, p) memo)) [
    | inr (b, e) ↦
        rw (e, match_at)
          (elim (ok (n, p) b e) [ inl q ↦ absurd (omega (arith, below (n, p) q)) | inr r ↦ r ], ok)
    | inl e ↦
        let good =
          switch-Good (Within Q (n, p)) (match_at name pattern f) n p hn
            (λ n' p' memo' lt hn' hp' ok'.
              match_at-Good f (Within Q (n, p)) n' p' memo' (omega arith) hn' hp'
                (λ k w. elim w [ inl q ↦ omega (arith, below k q) | inr same ↦ rw same lt ]) ok')
            (insert (n, p) false memo) (opened Q (n, p) memo ok) in
        rw (e, match_at) (good.0, closed Q n p _ good)
  ]

-- The memoised, index-based matcher decides what the pattern means: a name passes exactly if the
-- pattern's tokens match it, with `*` any run of runes, `?` one rune, a bracketed class one of its
-- members, and an unterminated "[" itself. So the fuel is enough for every name and pattern, and the
-- memo never gives a wrong answer.
pub glob_match_iff :
    (name pattern : List ℕ) → (glob_match name pattern ≡ true) ↔ Matches (tokens pattern) name
unfolding glob_match tokens ref lookup
glob_match_iff name pattern =
    let good =
      match_at-Good name pattern (length name + length pattern + 1) (λ k. ⊥) 0 0 [] (omega arith)
        (omega arith) (omega arith) (λ k q. absurd q) (λ k b e. absurd (cc)) in
    ((λ h. matches_sound _ name (sym good.0 ∙ h)), (λ m. good.0 ∙ matches_complete m))
