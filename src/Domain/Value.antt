-- ===== src/Domain/Value.antt =====
-- The values that the bridge's JSON decodes to (`any`), and the lenient readers of
-- runtime-go/internal/domain/coerce.go and ids.go.
use agent_rd.Common.{
  ℕ, zero, String, Bool, true, false, not, Option, none, some, List, [], ◌∷◌, if◌then◌else◌, ◌==◌,
  ◌||◌, string_eq, Float64, feq, lit,
}

-- A Go `int`; `negsuc n` is -(n + 1).
pub data ℤ : Type 0 where
  pos : ℕ → ℤ
  negsuc : ℕ → ℤ

-- `map[string]any`, `[]any`, the scalars, and the typed slices that the runtime puts into payloads.
-- What encoding/json decodes has no `int`, `strings` or `floats`.
mutual
  pub data Value (F : Type 0) : Type 0 where
    null : Value F
    bool : Bool → Value F
    num : F → Value F
    int : ℤ → Value F
    str : String → Value F
    strings : List String → Value F
    floats : List F → Value F
    arr : Items F → Value F
    obj : Fields F → Value F

  pub data Items (F : Type 0) : Type 0 where
    nil : Items F
    cons : Value F → Items F → Items F

  pub data Fields (F : Type 0) : Type 0 where
    done : Fields F
    field : String → Value F → Fields F → Fields F

module _ {F : Type 0} where
  -- `m[key]`; a missing key reads as nil.
  unfoldable pub get : String → Fields F → Value F
  get k done = null
  get k (field j v m) = if k == j then v else get k m

  unfoldable pub has : String → Fields F → Bool
  has k done = false
  has k (field j v m) = k == j || has k m

  -- MapFrom
  unfoldable pub map_from : Value F → Fields F
  map_from (obj m) = m
  map_from _ = done

  -- CleanNone and CleanMap: nil entries of maps are dropped at every depth. A nil item of a list
  -- stays.
  unfoldable mutual
    pub clean_none : Value F → Value F
    clean_none null = null
    clean_none (bool b) = bool b
    clean_none (num x) = num x
    clean_none (int n) = int n
    clean_none (str s) = str s
    clean_none (strings ss) = strings ss
    clean_none (floats xs) = floats xs
    clean_none (arr xs) = arr (clean_items xs)
    clean_none (obj m) = obj (clean_map m)

    pub clean_items : Items F → Items F
    clean_items nil = nil
    clean_items (cons v xs) = cons (clean_none v) (clean_items xs)

    pub clean_map : Fields F → Fields F
    clean_map done = done
    clean_map (field k null m) = clean_map m
    clean_map (field k (bool b) m) = field k (bool b) (clean_map m)
    clean_map (field k (num x) m) = field k (num x) (clean_map m)
    clean_map (field k (int n) m) = field k (int n) (clean_map m)
    clean_map (field k (str s) m) = field k (str s) (clean_map m)
    clean_map (field k (strings ss) m) = field k (strings ss) (clean_map m)
    clean_map (field k (floats xs) m) = field k (floats xs) (clean_map m)
    clean_map (field k (arr xs) m) = field k (arr (clean_items xs)) (clean_map m)
    clean_map (field k (obj n) m) = field k (obj (clean_map n)) (clean_map m)

-- strconv and the conversions between float64 and int, which the readers call.
pub record NumberText (F : Type 0) : Type 0 where
  pub format : F → String
  pub format_int : ℤ → String
  pub parse : String → Option F
  pub to_int : F → ℤ
  pub of_int : ℤ → F

module _ {F : Type 0} ⦃o : Float64 F⦄ where
  -- BoolPtrFrom: `none` where the bridge did not say.
  unfoldable pub bool_ptr_from : Value F → Option Bool
  bool_ptr_from (bool b) = some b
  bool_ptr_from (str s) =
      if s == "true" || (s == "True" || (s == "1" || s == "yes"))
      then some true
      else if s == "false" || (s == "False" || (s == "0" || s == "no"))
      then some false
      else none
  bool_ptr_from (num x) = some (not (feq x (lit 0 0)))
  bool_ptr_from (int (pos zero)) = some false
  bool_ptr_from (int _) = some true
  bool_ptr_from _ = none

  -- BoolFrom
  unfoldable pub bool_from : Value F → Bool
  unfolding bool_ptr_from
  bool_from v = elim (bool_ptr_from v) [ some b ↦ b | none ↦ false ]

module _ {F : Type 0} ⦃o : Float64 F⦄ (numbers : NumberText F) where
  -- IntFrom
  unfoldable pub int_from : Value F → ℤ
  int_from (int n) = n
  int_from (num x) = numbers.to_int x
  int_from (bool true) = pos 1
  int_from (str s) = elim (numbers.parse s) [ some x ↦ numbers.to_int x | none ↦ pos 0 ]
  int_from _ = pos 0

  -- StringFrom
  unfoldable pub string_from : Value F → String
  string_from (str s) = s
  string_from (bool true) = "true"
  string_from (bool false) = "false"
  string_from (num x) = numbers.format x
  string_from (int n) = numbers.format_int n
  string_from _ = ""

  -- FloatFrom
  unfoldable pub float_from : Value F → F
  float_from (num x) = x
  float_from (int n) = numbers.of_int n
  float_from (str s) = elim (numbers.parse s) [ some x ↦ x | none ↦ lit 0 0 ]
  float_from _ = lit 0 0

  -- FloatPtrFrom
  unfoldable pub float_ptr_from : Value F → Option F
  unfolding float_from
  float_ptr_from null = none
  float_ptr_from v = some (float_from v)

  unfoldable pub strings_of_items : Items F → List String
  unfolding string_from
  strings_of_items nil = []
  strings_of_items (cons v xs) = string_from v ∷ strings_of_items xs

  -- StringsFrom
  unfoldable pub strings_from : Value F → List String
  unfolding strings_of_items
  strings_from (arr xs) = strings_of_items xs
  strings_from (strings ss) = ss
  strings_from _ = []

  unfoldable pub floats_of_items : Items F → List F
  unfolding float_from
  floats_of_items nil = []
  floats_of_items (cons v xs) = float_from v ∷ floats_of_items xs
