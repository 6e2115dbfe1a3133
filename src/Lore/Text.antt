-- ===== src/Lore/Text.antt =====
-- Text and lists of lore.go: pyStrip, orEmptyText, pySlice and trimSummary.
use Prim.Native.Char.{code}
use agent_rd.Common.{
  ℕ, zero, suc, ◌-◌, String, true, ◌&&◌, List, ◌==◌, string_eq, if◌then◌else◌, length, take,
  Float64, feq, lit,
}
use agent_rd.Domain.Value.{
  ℤ, pos, negsuc, Value, Fields, bool, num, int, str, get, string_from, NumberText,
}
use agent_rd.World.{set_field}
use agent_rd.Dotenv.Text.{is_stripped}

unfoldable pub trim_left : String → String
trim_left String.[] = ""
trim_left (String.◌∷◌ c s) =
    let rest = trim_left s in if is_stripped (code c) then rest else String.◌∷◌ c s

unfoldable pub trim_right : String → String
trim_right String.[] = ""
trim_right (String.◌∷◌ c s) =
    let rest = trim_right s in if is_stripped (code c) && rest == "" then "" else String.◌∷◌ c rest

-- pyStrip
unfoldable pub py_trim : String → String
py_trim s = trim_left (trim_right s)

unfoldable pub first_runes : ℕ → String → String
first_runes zero s = ""
first_runes (suc n) String.[] = ""
first_runes (suc n) (String.◌∷◌ c s) = String.◌∷◌ c (first_runes n s)

abbrev pub rune_count : String → ℕ
rune_count String.[] = 0
rune_count (String.◌∷◌ c s) = suc (rune_count s)

-- The length that pySlice clips to: a negative limit counts from the end.
abbrev pub clip_to : ℤ → ℕ → ℕ
clip_to (pos n) size = n
clip_to (negsuc n) size = size - suc n

-- pySlice
unfoldable pub py_slice {ℓ} : {A : Type ℓ} → List A → ℤ → List A
py_slice xs limit = take (clip_to limit (length xs)) xs

-- pySliceRunes
unfoldable pub py_slice_runes : String → ℤ → String
py_slice_runes s limit = first_runes (clip_to limit (rune_count s)) s

module _ {F : Type 0} ⦃o : Float64 F⦄ (numbers : NumberText F) where
  -- orEmptyText
  unfoldable pub or_empty_text : Value F → String
  or_empty_text (bool true) = "true"
  or_empty_text (num x) = if feq x (lit 0 0) then "" else string_from numbers (num x)
  or_empty_text (int (pos zero)) = ""
  or_empty_text (int n) = string_from numbers (int n)
  or_empty_text (str s) = s
  or_empty_text _ = ""

  -- trimSummary
  unfoldable pub trim_summary : Fields F → ℤ → Fields F
  trim_summary page max_chars =
      set_field "summary"
        (str (py_trim (py_slice_runes (or_empty_text (get "summary" page)) max_chars))) page
