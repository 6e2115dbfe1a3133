-- ===== src/Timeline/Lines.antt =====
-- Bytes and lines, as store.go reads them: bytes.Split, bytes.Count, and the backwards reader.
use agent_rd.Common.{
  ℕ, zero, suc, ◌-◌, min, Bool, true, false, ◌&&◌, List, [], ◌∷◌, ◌++◌, ◌==◌, nat_eq, ltb, leb,
  if◌then◌else◌, length, take, drop, last_n,
}

abbrev pub newline : ℕ
newline = 10

-- bytes.Split(data, "\n"): one piece more than there are newlines.
abbrev pub cons_head : ℕ → List (List ℕ) → List (List ℕ)
cons_head c [] = (c ∷ []) ∷ []
cons_head c (p ∷ ps) = (c ∷ p) ∷ ps

unfoldable pub split : List ℕ → List (List ℕ)
split [] = [] ∷ []
split (c ∷ s) = if c == newline then [] ∷ split s else cons_head c (split s)

-- bytes.Count(data, "\n")
unfoldable pub newlines : List ℕ → ℕ
newlines [] = 0
newlines (c ∷ s) = if c == newline then suc (newlines s) else newlines s

-- The lines that are not blank. `trim` is bytes.TrimSpace.
abbrev pub is_blank : (List ℕ → List ℕ) → List ℕ → Bool
is_blank trim line = elim (trim line) [ [] ↦ true | c ∷ s ↦ false ]

unfoldable pub non_empty : (List ℕ → List ℕ) → List (List ℕ) → List (List ℕ)
non_empty trim [] = []
non_empty trim (l ∷ ls) = if is_blank trim l then non_empty trim ls else l ∷ non_empty trim ls

-- `lines[1:]` where the read began in the middle of the file.
abbrev pub drop_partial : ℕ → List (List ℕ) → List (List ℕ)
drop_partial position lines = if ltb 0 position then drop 1 lines else lines

module _ (chunk : ℕ) (file : List ℕ) (limit : ℕ) where
  -- The loop of tailNonEmptyLines: what is left unread, and the data read from there to the end.
  -- Each round reads at least one byte, so fuel `position` is enough.
  unfoldable pub tail_loop : ℕ → ℕ → List ℕ → ℕ → ℕ × List ℕ
  tail_loop zero position text count = (position, text)
  tail_loop (suc fuel) position text count =
      let size = min chunk position in
      let start = position - size in
      let longer = take size (drop start file) ++ text in
      let rest = tail_loop fuel start longer (newlines longer) in
      if ltb 0 position && leb count limit then rest else (position, text)

-- tailNonEmptyLines on a file's bytes.
unfoldable pub tail_non_empty_lines : (List ℕ → List ℕ) → ℕ → List ℕ → ℕ → List (List ℕ)
unfolding tail_loop
tail_non_empty_lines trim chunk file zero = []
tail_non_empty_lines trim chunk file (suc n) =
    let limit = suc n in
    let (position, text) = tail_loop chunk file limit (length file) (length file) [] 0 in
    last_n limit (non_empty trim (drop_partial position (split text)))

-- The bytes of a file that was written line by line.
unfoldable pub unlines : List (List ℕ) → List ℕ
unlines [] = []
unlines (l ∷ ls) = l ++ newline ∷ unlines ls
