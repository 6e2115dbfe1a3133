-- ===== src/Eligibility/Gate.antt =====
-- Blacklist, Gate and CanActivate of eligibility.go.
pub mod Reasons
pub mod FailClosed
use Prim.Native.String.{◌++◌ as str_append}
use Prim.Native.Char.{code}
use agent_rd.Common.{
  ℕ, ◌+◌, ◌<◌, String, Bool, true, false, not, ◌&&◌, ◌||◌, Option, none, some, List, [], ◌∷◌, ◌++◌,
  map, ◌==◌, string_eq, ltb, leb, if◌then◌else◌,
}
use agent_rd.Domain.Value.{Value, Fields, bool, done, get}
use agent_rd.Domain.Ped.{PedSnapshot}
use agent_rd.Eligibility.Glob.{glob_match}

-- The runes of a text.
abbrev pub codes : String → List ℕ
codes String.[] = []
codes (String.◌∷◌ c s) = code c ∷ codes s

-- unicode.ToLower: exact on ASCII, and by a table of Unicode above it.
unfoldable pub lower_rune : (ℕ → ℕ) → ℕ → ℕ
lower_rune table c = if ltb c 128 then (if leb b'A' c && leb c b'Z' then c + 32 else c) else table c

-- The flattened lists of NewBlacklist, lower-cased.
pub record Blacklist : Type 0 where
  pub models : List (List ℕ)
  pub names : List (List ℕ)

-- One category of the configuration: its "models" and "names".
pub record Category : Type 0 where
  pub category_models : List (List ℕ)
  pub category_names : List (List ℕ)

module _ (table : ℕ → ℕ) where
  unfoldable pub to_lower : List ℕ → List ℕ
  unfolding lower_rune
  to_lower = map (lower_rune table)

  -- NewBlacklist, on the categories in the order of their sorted keys.
  unfoldable pub new_blacklist : List Category → Blacklist
  new_blacklist [] = record { models = []; names = [] }
  new_blacklist (c ∷ cs) =
      let rest = new_blacklist cs in
      record {
        models = map to_lower c.category_models ++ rest.models;
        names = map to_lower c.category_names ++ rest.names;
      }

  unfoldable pub matches_any : List (List ℕ) → List ℕ → Bool
  matches_any [] text = false
  matches_any (pattern ∷ patterns) text = glob_match text pattern || matches_any patterns text

  -- MatchesModel and MatchesName; a nil blacklist (`none`) matches nothing.
  unfoldable pub matches_model : Option Blacklist → List ℕ → Bool
  unfolding matches_any
  matches_model none model = false
  matches_model (some b) model = matches_any b.models (to_lower model)

  unfoldable pub matches_name : Option Blacklist → List ℕ → Bool
  unfolding matches_any
  matches_name none name = false
  matches_name (some b) name = matches_any b.names (to_lower name)

-- `ptr != nil && *ptr`
abbrev pub is_true : Option Bool → Bool
is_true (some true) = true
is_true _ = false

abbrev pub is_none : Option Bool → Bool
is_none none = true
is_none _ = false

abbrev pub is_false : Option Bool → Bool
is_false (some false) = true
is_false _ = false

-- The reasons that the gate gives.
abbrev pub unknown_reason : String
unknown_reason = "one or more eligibility fields are unknown"

abbrev pub blacklist_reason : String
blacklist_reason = "matches story/blacklist configuration"

unfoldable pub require_true : Option Bool → String → List String → List String
require_true value label reasons =
    if is_true value then reasons else reasons ++ str_append label " is not confirmed true" ∷ []

unfoldable pub require_false : Option Bool → String → List String → List String
require_false value label reasons =
    if is_false value then reasons else reasons ++ str_append label " is not confirmed false" ∷ []

unfoldable pub contains_reason : List String → String → Bool
contains_reason [] want = false
contains_reason (r ∷ rs) want = r == want || contains_reason rs want

-- dedupeReasons: `seen` is the set of the reasons met, `unique` the list so far.
unfoldable pub dedupe_from : List String → List String → List String → List String
unfolding contains_reason
dedupe_from seen unique [] = unique
dedupe_from seen unique (r ∷ rs) =
    let next = dedupe_from (r ∷ seen) (unique ++ r ∷ []) rs in
    let skip = dedupe_from seen unique rs in if contains_reason seen r then skip else next

unfoldable pub dedupe_reasons : List String → List String
unfolding dedupe_from
dedupe_reasons reasons = dedupe_from [] [] reasons

module _ {F : Type 0} where
  unfoldable pub any_safety_field_unknown : PedSnapshot F → Bool
  any_safety_field_unknown ped =
      is_none ped.is_ped
      || (is_none ped.is_human
          || (is_none ped.is_alive
              || (is_none ped.is_player
                  || (is_none ped.is_story_character
                      || (is_none ped.is_mission_owned
                          || (is_none ped.in_scripted_state
                              || (is_none ped.in_cutscene || is_none ped.blacklisted)))))))

  -- `value, ok := ped.Metadata[flag].(bool); ok && value`
  abbrev pub flag_set : Value F → Bool
  flag_set (bool b) = b
  flag_set _ = false

  unfoldable pub add_flag : Fields F → String → List String → List String
  unfolding get
  add_flag m flag reasons =
      if flag_set (get flag m)
      then reasons ++ str_append "metadata." (str_append flag " is true") ∷ []
      else reasons

  unfoldable pub add_flags : Fields F → List String → List String → List String
  unfolding add_flag
  add_flags m [] reasons = reasons
  add_flags m (flag ∷ flags) reasons = add_flags m flags (add_flag m flag reasons)

  -- The reasons of the required fields, in the order of the source.
  unfoldable pub field_reasons : PedSnapshot F → List String
  unfolding require_true require_false
  field_reasons ped =
      let start = if ped.entity_id == "" then "entity_id is empty" ∷ [] else [] in
      require_false ped.blacklisted "blacklisted" (
        require_false ped.in_cutscene "in_cutscene" (
          require_false ped.in_scripted_state "in_scripted_state" (
            require_false ped.is_mission_owned "is_mission_owned" (
              require_false ped.is_story_character "is_story_character" (
                require_false ped.is_player "is_player" (
                  require_true ped.is_alive "is_alive" (
                    require_true ped.is_human "is_human"
                      (require_true ped.is_ped "is_ped" start))))))))

  unfoldable pub add_unknown : Bool → PedSnapshot F → List String → List String
  unfolding any_safety_field_unknown contains_reason
  add_unknown block ped reasons =
      if block && (any_safety_field_unknown ped && not (contains_reason reasons unknown_reason))
      then reasons ++ unknown_reason ∷ []
      else reasons

abbrev pub metadata_flags : List String
metadata_flags =
    "mission_entity" ∷ "is_mission_entity" ∷ "scripted" ∷ "is_scripted" ∷ "cutscene" ∷ "is_cutscene"
    ∷ "critical" ∷ "is_critical" ∷ []

-- Result: `Reason` is empty, and `Detail["reasons"]` too, where the ped is eligible.
pub record Result : Type 0 where
  pub eligible : Bool
  pub reason : String
  pub reasons : List String

unfoldable pub result_of : List String → Result
result_of [] = record { eligible = true; reason = ""; reasons = [] }
result_of (r ∷ rs) = record { eligible = false; reason = r; reasons = r ∷ rs }

pub record Gate : Type 0 where
  pub blacklist : Option Blacklist
  pub block_if_uncertain : Bool

module _ {F : Type 0} (table : ℕ → ℕ) where
  unfoldable pub is_blacklisted : Option Blacklist → PedSnapshot F → Bool
  unfolding matches_model matches_name
  is_blacklisted b ped =
      is_true ped.blacklisted
      || (is_true ped.is_story_character
          || (matches_model table b (codes ped.model) || matches_name table b (codes ped.name)))

  unfoldable pub add_blacklisted : Option Blacklist → PedSnapshot F → List String → List String
  unfolding is_blacklisted
  add_blacklisted b ped reasons =
      if is_blacklisted b ped then reasons ++ blacklist_reason ∷ [] else reasons

  -- Every reason, with repetitions. The flags of empty metadata are all unset.
  unfoldable pub all_reasons : Gate → PedSnapshot F → List String
  unfolding field_reasons add_unknown add_flags add_blacklisted
  all_reasons g ped = add_blacklisted g.blacklist ped (
      add_flags ped.metadata metadata_flags
        (add_unknown g.block_if_uncertain ped (field_reasons ped)))

  unfoldable pub can_activate : Gate → PedSnapshot F → Result
  unfolding all_reasons dedupe_reasons result_of
  can_activate g ped = result_of (dedupe_reasons (all_reasons g ped))
