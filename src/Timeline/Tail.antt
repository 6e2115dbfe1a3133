-- ===== src/Timeline/Tail.antt =====
-- About the backwards reader, tailNonEmptyLines of store.go.
use agent_rd.Common.{
  ℕ, zero, suc, ◌-◌, ◌≤◌, ◌<◌, min, ◌≡◌, refl, sym, ◌∙◌, ap, subst, ◌⊎◌, inl, inr, true, false,
  List, [], ◌∷◌, ◌++◌, arith, Bool-cases, ◌&&◌, ◌==◌, nat_eq, ltb, leb, length, length-append, take,
  drop, take-append-drop, length-drop, drop-drop, last_n, last_n-append, All, All-end, drop_all,
}
use mathlib.Core.List.{append-nil}
use agent_rd.Timeline.Lines.{
  newline, split, newlines, is_blank, non_empty, drop_partial, tail_loop, tail_non_empty_lines,
  unlines,
}

length-split : (s : List ℕ) → length (split s) ≡ suc (newlines s)
unfolding split newlines
length-split [] = refl
length-split (c ∷ s) = ground (arith, length-split s)

module _ (chunk : ℕ) (file : List ℕ) (limit : ℕ) (pos : 0 < chunk) where
  -- The data is always the file from the position on; the loop ends at the start of the file, or with
  -- more newlines than lines wanted.
  abbrev Ends : ℕ × List ℕ → Type 0
  Ends (p, d) = (d ≡ drop p file) × ((p ≡ 0) ⊎ ((0 < p) × (limit < newlines d)))

  longer-eq :
      (position size : ℕ) (text : List ℕ)
      → size ≤ position
      → text ≡ drop position file
      → take size (drop (position - size) file) ++ text ≡ drop (position - size) file
  longer-eq position size text h e =
      ap (λ t. take size (drop (position - size) file) ++ t)
        (e ∙ sym (drop-drop (position - size) size position file (omega arith)))
      ∙ take-append-drop size (drop (position - size) file)

  tail_loop-Ends :
      (fuel position count : ℕ) (text : List ℕ)
      → position ≤ fuel
      → text ≡ drop position file
      → count ≡ newlines text
      → Ends (tail_loop chunk file limit fuel position text count)
  unfolding tail_loop
  tail_loop-Ends zero position count text h e c = (e, inl (omega arith))
  tail_loop-Ends (suc fuel) position count text h e c =
      elim (Bool-cases (ltb 0 position && leb count limit)) [
        | inl go ↦ rw go (
            tail_loop-Ends fuel (position - min chunk position) _ _ (ground (arith))
              (longer-eq position (min chunk position) text (omega arith) e) refl)
        | inr stop ↦ rw stop (e, ground (arith))
      ]

-- Splitting a longer text changes nothing after the first piece.
split-append :
    (a b : List ℕ)
    → (first : List ℕ) × (pre : List (List ℕ)) × (split (a ++ b)
        ≡ (first ∷ pre) ++ drop 1 (split b))
unfolding split
split-append [] b = start (split b) (split-some b)
  where
    start :
        (ps : List (List ℕ))
        → 0 < length ps
        → (first : List ℕ) × (pre : List (List ℕ)) × (ps ≡ (first ∷ pre) ++ drop 1 ps)
    start [] h = absurd (omega arith)
    start (p ∷ ps) h = (p, [], refl)

    split-some : (s : List ℕ) → 0 < length (split s)
    split-some s = omega (arith, length-split s)
split-append (c ∷ a) b =
    let (first, pre, e) = split-append a b in
    elim (Bool-cases (c == newline)) [
      | inl t ↦ ([], first ∷ pre, rw (t, e) refl)
      | inr u ↦ (c ∷ first, pre, rw (u, e) refl)
    ]

-- A line that holds no newline.
abbrev pub IsLine : List ℕ → Type 0
IsLine l = newlines l ≡ 0

split-line : (l s : List ℕ) → IsLine l → split (l ++ newline ∷ s) ≡ l ∷ split s
unfolding split newlines
split-line [] s h = refl
split-line (c ∷ l) s h = ground (arith, split-line l s)

pub split-unlines : (ls : List (List ℕ)) → All IsLine ls → split (unlines ls) ≡ ls ++ [] ∷ []
unfolding unlines split
split-unlines [] h = refl
split-unlines (l ∷ ls) h = split-line l (unlines ls) h.0 ∙ ap (λ t. l ∷ t) (split-unlines ls h.1)

module _ (trim : List ℕ → List ℕ) where
  non_empty-append :
      (xs ys : List (List ℕ)) → non_empty trim (xs ++ ys) ≡ non_empty trim xs ++ non_empty trim ys
  unfolding non_empty
  non_empty-append [] ys = refl
  non_empty-append (x ∷ xs) ys = ground (arith, non_empty-append xs ys)

  non_empty-All :
      (ls : List (List ℕ)) → All (λ l. is_blank trim l ≡ false) ls → non_empty trim ls ≡ ls
  unfolding non_empty
  non_empty-All [] h = refl
  non_empty-All (l ∷ ls) h = rw (h.0, non_empty-All ls h.1)

-- A split point of a list with one more element at its end.
split_point :
    (pre rest ls : List (List ℕ)) (z : List ℕ)
    → ls ++ z ∷ [] ≡ pre ++ rest
    → 0 < length rest
    → (end : List (List ℕ)) × (ls ≡ pre ++ end) × (rest ≡ end ++ z ∷ [])
split_point [] rest ls z e h = (ls, refl, sym e)
split_point (p ∷ pre) rest [] z e h = absurd (omega (arith, ap length e, length-append pre rest))
split_point (p ∷ pre) rest (l ∷ ls) z e h =
    let (end, e₁, e₂) = split_point pre rest ls z (cc) h in (end, (cc), e₂)

module _ (trim : List ℕ → List ℕ) (blank : trim [] ≡ []) where
  non_empty-snoc :
      (ls : List (List ℕ))
      → All (λ l. is_blank trim l ≡ false) ls
      → non_empty trim (ls ++ [] ∷ []) ≡ ls
  unfolding non_empty
  non_empty-snoc ls h =
      non_empty-append trim ls ([] ∷ []) ∙ rw (non_empty-All trim ls h, no_last) (append-nil ls)
    where
      no_last : non_empty trim ([] ∷ []) ≡ []
      no_last = ground arith

  -- The lines found in the data that the loop ends with.
  tail_of_data :
      (ls : List (List ℕ)) (limit position : ℕ) (text : List ℕ)
      → All IsLine ls
      → All (λ l. is_blank trim l ≡ false) ls
      → text ≡ drop position (unlines ls)
      → (position ≡ 0) ⊎ ((0 < position) × (limit < newlines text))
      → last_n limit (non_empty trim (drop_partial position (split text))) ≡ last_n limit ls
  tail_of_data ls limit position text lines full e (inl start) =
      let all : text ≡ unlines ls = e ∙ ap (λ k. drop k (unlines ls)) start in
      rw (start, all, split-unlines ls lines, non_empty-snoc ls full)
  tail_of_data ls limit position text lines full e (inr (p, many)) =
      let (first, pre, joined) = split-append (take position (unlines ls)) text in
      let whole : ls ++ [] ∷ [] ≡ (first ∷ pre) ++ drop 1 (split text) =
        sym (split-unlines ls lines)
        ∙ ap split (
            sym (
              ap (λ t. take position (unlines ls) ++ t) e ∙ take-append-drop position (unlines ls)))
        ∙ joined in
      let (end, e₁, e₂) =
        split_point (first ∷ pre) (drop 1 (split text)) ls [] whole
          (omega (arith, length-split text, length-drop 1 (split text))) in
      let full' =
        All-end (λ l. is_blank trim l ≡ false) (first ∷ pre) end
          (subst (All (λ l. is_blank trim l ≡ false)) e₁ full) in
      let inside : ltb 0 position ≡ true = ground arith in
      let long : limit ≤ length end = omega (
        arith,
        ap length e₂,
        length-append end ([] ∷ []),
        length-split text,
        length-drop 1 (split text),
      ) in
      rw inside (
        ap (λ t. last_n limit (non_empty trim t)) e₂
        ∙ ap (last_n limit) (non_empty-snoc end full')
        ∙ sym (last_n-append limit (first ∷ pre) end long)
        ∙ ap (last_n limit) (sym e₁))

-- Reading backwards in chunks of any size finds the last lines of a file that was written line by
-- line, no line blank: exactly the last `limit` of them, whole and in order, also where a chunk
-- begins in the middle of a line.
pub tail_non_empty_lines_lem :
    (trim : List ℕ → List ℕ) (chunk limit : ℕ) (ls : List (List ℕ))
    → trim [] ≡ []
    → 0 < chunk
    → All IsLine ls
    → All (λ l. is_blank trim l ≡ false) ls
    → tail_non_empty_lines trim chunk (unlines ls) limit ≡ last_n limit ls
unfolding tail_non_empty_lines newlines
tail_non_empty_lines_lem trim chunk zero ls blank c lines full =
    sym (drop_all (length ls - 0) ls (omega arith))
tail_non_empty_lines_lem trim chunk (suc n) ls blank c lines full =
    let file = unlines ls in
    let (e, how) =
      tail_loop-Ends chunk file (suc n) c (length file) (length file) 0 [] (omega arith)
        (sym (drop_all (length file) file (omega arith))) refl in
    tail_of_data trim blank ls (suc n) _ _ lines full e how
