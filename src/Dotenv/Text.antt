-- ===== src/Dotenv/Text.antt =====
-- The helpers of dotenv.go on text: splitLines, pyStrip, stripWrappingQuotes and the pattern of a key.
use agent_rd.Common.{
  ℕ, Bool, true, false, ◌&&◌, ◌||◌, List, [], ◌∷◌, ◌++◌, nat_beq, leb, if◌then◌else◌,
}

-- isLineBoundary
unfoldable pub is_line_boundary : ℕ → Bool
is_line_boundary c =
    (leb 10 c && leb c 13)
    || ((leb 28 c && leb c 30) || (nat_beq c 133 || (nat_beq c 8232 || nat_beq c 8233)))

-- unicode.IsSpace
unfoldable pub is_space : ℕ → Bool
is_space c =
    (leb 9 c && leb c 13)
    || (nat_beq c 32
        || (nat_beq c 133
            || (nat_beq c 160
                || (nat_beq c 5760
                    || ((leb 8192 c && leb c 8202)
                        || (nat_beq c 8232
                            || (nat_beq c 8233
                                || (nat_beq c 8239 || (nat_beq c 8287 || nat_beq c 12288)))))))))

-- What pyStrip trims.
unfoldable pub is_stripped : ℕ → Bool
is_stripped c = is_space c || (leb 28 c && leb c 31)

unfoldable pub strip_left : List ℕ → List ℕ
strip_left [] = []
strip_left (c ∷ s) = let rest = strip_left s in if is_stripped c then rest else c ∷ s

-- A rune goes where it is to be stripped and nothing is left behind it.
abbrev pub is_empty : List ℕ → Bool
is_empty [] = true
is_empty (c ∷ s) = false

unfoldable pub strip_right : List ℕ → List ℕ
strip_right [] = []
strip_right (c ∷ s) =
    let rest = strip_right s in if is_stripped c && is_empty rest then [] else c ∷ rest

-- pyStrip
unfoldable pub py_strip : List ℕ → List ℕ
py_strip s = strip_left (strip_right s)

abbrev pub last_line : List ℕ → List (List ℕ)
last_line [] = []
last_line (c ∷ s) = (c ∷ s) ∷ []

-- The loop of splitLines, with the line so far. The flag says that a \r just ended a line, so that a
-- \n belongs to it.
unfoldable pub split_loop : Bool → List ℕ → List ℕ → List (List ℕ)
split_loop after_cr line [] = last_line line
split_loop after_cr line (c ∷ s) =
    let skipped = split_loop false line s in
    let ended = split_loop (nat_beq c b'\r') [] s in
    let longer = split_loop false (line ++ c ∷ []) s in
    if after_cr && nat_beq c b'\n'
    then skipped
    else if is_line_boundary c
    then line ∷ ended
    else longer

-- splitLines
unfoldable pub split_lines : List ℕ → List (List ℕ)
split_lines text = split_loop false [] text

-- strings.Join(lines, "\n") + "\n", on at least one line
unfoldable pub join_lines : List (List ℕ) → List ℕ
join_lines [] = []
join_lines (l ∷ ls) = l ++ b'\n' ∷ join_lines ls

abbrev pub is_letter : ℕ → Bool
is_letter c = (leb b'A' c && leb c b'Z') || ((leb b'a' c && leb c b'z') || nat_beq c b'_')

abbrev pub is_word : ℕ → Bool
is_word c = is_letter c || (leb b'0' c && leb c b'9')

abbrev pub all_words : List ℕ → Bool
all_words [] = true
all_words (c ∷ s) = is_word c && all_words s

-- keyPattern
unfoldable pub is_key : List ℕ → Bool
is_key [] = false
is_key (c ∷ s) = is_letter c && all_words s

abbrev pub is_quote : ℕ → Bool
is_quote c = nat_beq c b'\'' || nat_beq c b'"'

-- The text between a first rune and an equal last one, if there are such.
unfoldable pub unquoted : ℕ → List ℕ → List ℕ → List ℕ
unquoted q whole [] = whole
unquoted q whole (c ∷ s) = inner (c ∷ s) []
  where
    inner : List ℕ → List ℕ → List ℕ
    inner [] before = whole
    inner (d ∷ []) before = if nat_beq d q then before else whole
    inner (d ∷ e ∷ t) before = inner (e ∷ t) (before ++ d ∷ [])

-- stripWrappingQuotes
unfoldable pub strip_wrapping_quotes : List ℕ → List ℕ
strip_wrapping_quotes [] = []
strip_wrapping_quotes (q ∷ s) = if is_quote q then unquoted q (q ∷ s) s else q ∷ s
