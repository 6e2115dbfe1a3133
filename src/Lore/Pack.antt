-- ===== src/Lore/Pack.antt =====
-- The packs of lore.go: load, Get, Character and Lookup. What the files decode to is the record Packs.
use agent_rd.Common.{
  ℕ, String, Bool, Option, none, some, List, [], ◌∷◌, ◌++◌, map, ◌==◌, string_eq, nat_eq, list_eq,
  if◌then◌else◌, ltb, nat_beq, Dict, lookup, insert, Float64,
}
use Prim.Native.String.{◌++◌ as str_append}
use agent_rd.Domain.Value.{
  ℤ, Value, Fields, str, obj, done, field, get, has, string_from, NumberText,
}
use agent_rd.World.{set_field}
use agent_rd.Eligibility.Gate.{codes, to_lower}
use agent_rd.Events.Readers.{runes_le}
use agent_rd.Agent.Thinking.{contains_runes}
use agent_rd.Lore.Text.{py_trim, py_slice, trim_summary}

-- A pack file: its `meta` and its entries in the order of the file. An unreadable file is an empty one.
pub record PackFile (F : Type 0) : Type 0 where
  pub meta : Value F
  pub entries : List (String × Value F)

-- The entries of one kind, with the slice of their keys.
pub record Entries (F : Type 0) : Type 0 where
  pub by_key : Dict String (Fields F)
  pub order : List String

pub record LoreStore (F : Type 0) : Type 0 where
  pub meta : Fields F
  pub pages : Entries F
  pub characters : Entries F

module _ {F : Type 0} where
  -- decodeObject
  abbrev pub decode_object : Value F → Option (Fields F)
  decode_object (obj m) = some m
  decode_object _ = none

  abbrev pub or_set : String → Value F → Fields F → Fields F
  or_set k v m = if has k m then m else set_field k v m

  -- defaultSource
  abbrev pub default_source : Fields F → Value F
  default_source meta = if has "source" meta then get "source" meta else str "Red Dead Wiki"

  -- The loop of loadWorldPack and loadCharacterPack over the entries of a file.
  unfoldable pub load_entries :
      (String → Fields F → Fields F) → List (String × Value F) → Entries F → Entries F
  load_entries complete [] loaded = loaded
  load_entries complete ((key, value) ∷ entries) loaded = elim (decode_object value) [
    | none ↦ load_entries complete entries loaded
    | some entry ↦ load_entries complete entries (record {
      by_key = insert key (complete key entry) loaded.by_key;
      order = loaded.order ++ key ∷ [];
    })
  ]

  abbrev pub complete_page : Fields F → String → Fields F → Fields F
  complete_page meta key page =
      or_set "source" (default_source meta) (or_set "title" (str key) page)

  abbrev pub complete_character : Fields F → String → Fields F → Fields F
  complete_character meta key character =
      or_set "kind" (str "character") (complete_page meta key character)

  abbrev pub meta_of : Value F → Fields F
  meta_of (obj m) = m
  meta_of _ = done

  -- The fields of the second map over those of the first.
  abbrev pub merge_over : Fields F → Fields F → Fields F
  merge_over base done = base
  merge_over base (field k v m) = set_field k v (merge_over base m)

  abbrev pub no_entries : Entries F
  no_entries = record { by_key = []; order = [] }

  -- load, without the lookup tables
  unfoldable pub load : PackFile F → PackFile F → LoreStore F
  load world characters =
      let meta = merge_over (meta_of characters.meta) (meta_of world.meta) in
      record {
        meta = meta;
        pages = load_entries (complete_page (meta_of world.meta)) world.entries no_entries;
        characters = load_entries (complete_character meta) characters.entries no_entries;
      }

abbrev pub or_else : Option String → Option String → Option String
or_else none later = later
or_else (some t) later = some t

module _ (table : ℕ → ℕ) where
  abbrev pub lower : String → List ℕ
  lower s = to_lower table (codes s)

  -- pageLookup and characterLookup: the last title that has this text in lower case.
  unfoldable pub title_lookup : List ℕ → List String → Option String
  title_lookup needle [] = none
  title_lookup needle (t ∷ titles) = elim (title_lookup needle titles) [
    | some later ↦ some later
    | none ↦ if needle == lower t then some t else none
  ]

  -- The first title that contains it.
  unfoldable pub title_containing : List ℕ → List String → Option String
  title_containing needle [] = none
  title_containing needle (t ∷ titles) =
      if contains_runes needle (lower t) then some t else title_containing needle titles

module _ {F : Type 0} (table : ℕ → ℕ) where
  unfoldable pub entry_of : LoreStore F → String → Option (Fields F)
  entry_of s key = elim (lookup key s.characters.by_key) [
    | some entry ↦ some entry
    | none ↦ lookup key s.pages.by_key
  ]

  -- Get
  unfoldable pub lore_get : LoreStore F → String → Option (Fields F)
  lore_get s topic =
      let needle = lower table (py_trim topic) in
      let exact =
        or_else (title_lookup table needle s.pages.order)
          (title_lookup table needle s.characters.order) in
      let within =
        or_else (title_containing table needle s.pages.order)
          (title_containing table needle s.characters.order) in
      if topic == ""
      then none
      else elim (or_else exact within) [ none ↦ none | some key ↦ entry_of s key ]

  -- Character
  unfoldable pub lore_character : LoreStore F → String → Option (Fields F)
  lore_character s name =
      let needle = lower table (py_trim name) in
      let key =
        or_else (title_lookup table needle s.characters.order)
          (title_containing table needle s.characters.order) in
      if name == ""
      then none
      else elim key [ none ↦ none | some key ↦ lookup key s.characters.by_key ]

pub record Scored (F : Type 0) : Type 0 where
  pub rank : ℕ
  pub title : String
  pub entry : Fields F

module _ {F : Type 0} ⦃o : Float64 F⦄ (numbers : NumberText F) (table : ℕ → ℕ) where
  abbrev pub fields_at : String → Dict String (Fields F) → Fields F
  fields_at title entries = elim (lookup title entries) [ none ↦ done | some m ↦ m ]

  -- The closure `collect` of Lookup.
  unfoldable pub collect : List ℕ → Dict String (Fields F) → List String → List (Scored F)
  collect needle entries [] = []
  collect needle entries (title ∷ titles) =
      let entry = fields_at title entries in
      let text = string_from numbers (get "summary" entry) in
      let rest = collect needle entries titles in
      if contains_runes needle (lower table title)
      then record { rank = 0; title = title; entry = entry } ∷ rest
      else if contains_runes needle (lower table (str_append title (str_append " " text)))
      then record { rank = 1; title = title; entry = entry } ∷ rest
      else rest

  abbrev pub goes_before : Scored F → Scored F → Bool
  goes_before a b =
      if nat_beq a.rank b.rank then runes_le (codes a.title) (codes b.title) else ltb a.rank b.rank

  -- sort.SliceStable
  unfoldable pub insert_match : Scored F → List (Scored F) → List (Scored F)
  insert_match a [] = a ∷ []
  insert_match a (b ∷ bs) = if goes_before a b then a ∷ b ∷ bs else b ∷ insert_match a bs

  unfoldable pub sort_matches : List (Scored F) → List (Scored F)
  sort_matches [] = []
  sort_matches (a ∷ rest) = insert_match a (sort_matches rest)

  -- Lookup
  unfoldable pub lore_lookup : LoreStore F → String → ℤ → ℤ → List (Fields F)
  lore_lookup s query limit max_chars =
      let needle = lower table (py_trim query) in
      let matches =
        collect needle s.characters.by_key s.characters.order
        ++ collect needle s.pages.by_key s.pages.order in
      if needle == []
      then []
      else map (λ m. trim_summary numbers m.entry max_chars) (py_slice (sort_matches matches) limit)
