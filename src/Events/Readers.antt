-- ===== src/Events/Readers.antt =====
-- The readers of normalizer.go: truthy, stringList, summaryFrom, importanceFrom and the pattern of an
-- event name.
use Prim.Native.Char.{Char, char, code}
use Prim.Native.Nat.{Ordering, compare}
use agent_rd.Common.{
  ℕ, zero, ◌-◌, String, Bool, true, false, not, ◌&&◌, ◌||◌, Option, none, some, List, [], ◌∷◌, ◌≡◌,
  refl, ◌==◌, string_eq, ltb, leb, nat_beq, if◌then◌else◌, Float64, feq, lit,
}
use agent_rd.Domain.Value.{
  pos, Value, Fields, NumberText, null, nil, bool, num, int, str, strings, floats, arr, obj, done,
  field, string_from, float_from, strings_of_items,
}
use agent_rd.Eligibility.Gate.{codes}

pub data MessageError : Type 0 where
  missing_npc_id missing_event_name data_not_object : MessageError
  game_time_not_object location_not_object invalid_importance seq_too_small : MessageError
  invalid_event_name : String → MessageError
  not_a_list : String → MessageError

pub data Parsed (A : Type 0) : Type 0 where
  ok : A → Parsed A
  err : MessageError → Parsed A

-- The character of a code below the surrogates.
abbrev low_char : (n : ℕ) (o : Ordering) → compare n 55296 ≡ o → Char → Char
low_char n Ordering.lt p c = char n (rw p tt)
low_char n Ordering.eq p c = c
low_char n Ordering.gt p c = c

-- unicode.ToUpper: exact on ASCII, and by a table of Unicode above it.
abbrev pub upper_char : (Char → Char) → Char → Char
upper_char table c =
    if ltb (code c) 128
    then (if leb b'a' (code c) && leb (code c) b'z'
        then low_char (code c - 32) (compare (code c - 32) 55296) refl c
        else c)
    else table c

-- strings.ToUpper
abbrev pub to_upper : (Char → Char) → String → String
to_upper table String.[] = String.[]
to_upper table (String.◌∷◌ c s) = String.◌∷◌ (upper_char table c) (to_upper table s)

abbrev pub is_upper : ℕ → Bool
is_upper c = leb b'A' c && leb c b'Z'

abbrev pub is_name_rune : ℕ → Bool
is_name_rune c = is_upper c || ((leb b'0' c && leb c b'9') || nat_beq c b'_')

-- `[A-Z0-9_]*\n?$`
abbrev pub name_tail : List ℕ → Bool
name_tail [] = true
name_tail (c ∷ []) = is_name_rune c || nat_beq c b'\n'
name_tail (c ∷ d ∷ s) = is_name_rune c && name_tail (d ∷ s)

-- eventNamePattern, `^[A-Z][A-Z0-9_]*\n?$`
abbrev pub is_event_name : List ℕ → Bool
is_event_name [] = false
is_event_name (c ∷ s) = is_upper c && name_tail s

-- `<=` of Go's strings: the order of the bytes of UTF-8 is the order of the runes.
abbrev pub runes_le : List ℕ → List ℕ → Bool
runes_le [] t = true
runes_le (c ∷ s) [] = false
runes_le (c ∷ s) (d ∷ t) = ltb c d || (nat_beq c d && runes_le s t)

-- sort.Strings
unfoldable pub insert_string : String → List String → List String
insert_string k [] = k ∷ []
insert_string k (j ∷ js) =
    if runes_le (codes k) (codes j) then k ∷ j ∷ js else j ∷ insert_string k js

unfoldable pub sort_strings : List String → List String
unfolding insert_string
sort_strings [] = []
sort_strings (k ∷ ks) = insert_string k (sort_strings ks)

module _ {F : Type 0} where
  abbrev pub field_names : Fields F → List String
  field_names done = []
  field_names (field k v m) = k ∷ field_names m

module _ {F : Type 0} ⦃o : Float64 F⦄ where
  -- truthy; a []float64 is in none of its cases.
  unfoldable pub truthy : Value F → Bool
  truthy null = false
  truthy (bool b) = b
  truthy (str s) = not (s == "")
  truthy (num x) = not (feq x (lit 0 0))
  truthy (int (pos zero)) = false
  truthy (int _) = true
  truthy (arr nil) = false
  truthy (arr _) = true
  truthy (strings []) = false
  truthy (strings _) = true
  truthy (obj done) = false
  truthy (obj _) = true
  truthy (floats xs) = true

module _ {F : Type 0} ⦃o : Float64 F⦄ (numbers : NumberText F) where
  -- stringList, on a value that truthy holds of.
  unfoldable pub listed : Value F → String → Parsed (List String)
  unfolding strings_of_items sort_strings
  listed (str s) name = ok (s ∷ [])
  listed (strings ss) name = ok ss
  listed (arr xs) name = ok (strings_of_items numbers xs)
  listed (obj m) name = ok (sort_strings (field_names m))
  listed _ name = err (not_a_list name)

  -- stringList
  unfoldable pub string_list : Value F → String → Parsed (List String)
  unfolding listed truthy
  string_list v name = if truthy v then listed v name else ok []

  -- summaryFrom
  unfoldable pub summary_from : Value F → Option String
  unfolding string_from
  summary_from null = none
  summary_from v = some (string_from numbers v)

module _ {F : Type 0} ⦃o : Float64 F⦄ (numbers : NumberText F) (trim_space : String → String) where
  abbrev number_in : Option F → Parsed (Option F)
  number_in none = err invalid_importance
  number_in (some x) = ok (some x)

  -- importanceFrom
  unfoldable pub importance_from : Value F → Parsed (Option F)
  unfolding float_from
  importance_from null = ok none
  importance_from (bool true) = ok (some (lit 1 0))
  importance_from (bool false) = ok (some (lit 0 0))
  importance_from (str s) = number_in (numbers.parse (trim_space s))
  importance_from (arr xs) = err invalid_importance
  importance_from (obj m) = err invalid_importance
  importance_from v = ok (some (float_from numbers v))
