-- ===== src/Lore/Quest.antt =====
-- runtime-go/internal/lore/quests.go: the quests that a dialogue NPC speaks of.
pub mod Overrides
pub mod Context
use Prim.Native.String.{◌++◌ as str_append}
use agent_rd.Common.{
  ℕ, zero, suc, String, Bool, true, false, not, ◌&&◌, ◌||◌, Option, none, some, List, [], ◌∷◌, ◌++◌,
  map, ◌==◌, string_eq, nat_eq, list_eq, nat_beq, if◌then◌else◌, Dict, lookup, insert, Float64,
}
use agent_rd.Domain.Value.{
  pos, Value, Fields, Items, null, str, strings, arr, obj, nil, cons, done, field, get, has,
  string_from, NumberText,
}
use agent_rd.World.{set_field}
use agent_rd.Eligibility.Gate.{codes}
use agent_rd.Agent.Thinking.{has_prefix}
use agent_rd.Lore.Text.{or_empty_text, py_slice_runes}
use agent_rd.Lore.Pack.{decode_object, or_set}

-- An entry of the quest directory, with what its file decodes to; an unreadable file is null.
pub record QuestFile (F : Type 0) : Type 0 where
  pub name : String
  pub is_dir : Bool
  pub content : Value F

pub record Quests (F : Type 0) : Type 0 where
  pub quests : Dict String (Fields F)
  pub order : List String

abbrev pub has_suffix : String → String → Bool
has_suffix suffix String.[] = suffix == ""
has_suffix suffix (String.◌∷◌ c s) = String.◌∷◌ c s == suffix || has_suffix suffix s

-- strings.TrimSuffix
unfoldable pub trim_suffix : String → String → String
trim_suffix suffix String.[] = ""
trim_suffix suffix (String.◌∷◌ c s) =
    let rest = trim_suffix suffix s in if String.◌∷◌ c s == suffix then "" else String.◌∷◌ c rest

-- Whether a rune is in the text, what is behind the last one, and what is before it.
abbrev pub holds : (ℕ → Bool) → List ℕ → Bool
holds test [] = false
holds test (c ∷ s) = test c || holds test s

unfoldable pub behind_last : (ℕ → Bool) → List ℕ → List ℕ
behind_last test [] = []
behind_last test (c ∷ s) =
    let rest = behind_last test s in if holds test s then rest else if test c then s else c ∷ s

unfoldable pub before_last : (ℕ → Bool) → List ℕ → List ℕ
before_last test [] = []
before_last test (c ∷ s) =
    let rest = before_last test s in if holds test s then c ∷ rest else if test c then [] else c ∷ s

unfoldable pub without_trailing : (ℕ → Bool) → List ℕ → List ℕ
without_trailing test [] = []
without_trailing test (c ∷ s) =
    let rest = without_trailing test s in if test c && rest == [] then [] else c ∷ rest

-- fileStem: filepath.Base without filepath.Ext. `.` is what Base makes of no path, and has no stem.
unfoldable pub file_stem : (ℕ → Bool) → List ℕ → List ℕ
file_stem is_separator path =
    let trimmed = without_trailing is_separator path in
    let stem = before_last (λ c. nat_beq c b'.') (behind_last is_separator trimmed) in
    if path == []
    then []
    else if trimmed == []
    then b'/' ∷ []
    else if holds (λ c. nat_beq c b'.') (behind_last is_separator trimmed)
    then stem
    else behind_last is_separator trimmed

abbrev pub override_keys : List String
override_keys = "current_objective" ∷ "next_objective" ∷ "location" ∷ "quest_state" ∷ []

module _ {F : Type 0} where
  -- listFrom
  abbrev pub items_of : List String → Items F
  items_of [] = nil
  items_of (s ∷ ss) = cons (str s) (items_of ss)

  unfoldable pub list_from : Value F → Items F
  list_from (arr xs) = xs
  list_from (strings ss) = items_of ss
  list_from _ = nil

  -- pySlice(items, 8)
  abbrev pub first_items : ℕ → Items F → Items F
  first_items zero xs = nil
  first_items (suc n) nil = nil
  first_items (suc n) (cons v xs) = cons v (first_items n xs)

  -- presentStateValue
  unfoldable pub present_state_value : Value F → Bool
  present_state_value null = false
  present_state_value (str s) = not (s == "")
  present_state_value (arr nil) = false
  present_state_value (strings []) = false
  present_state_value _ = true

  -- The last loop of ContextFor.
  unfoldable pub override_with : Fields F → List String → Fields F → Fields F
  override_with state [] context = context
  override_with state (k ∷ ks) context = override_with state ks (
      if has k state && present_state_value (get k state)
      then set_field k (get k state) context
      else context)

module _ {F : Type 0} ⦃o : Float64 F⦄ (numbers : NumberText F) where
  -- The loop of load over the directory, in the order of the names.
  unfoldable pub load_quests : (String → String) → List (QuestFile F) → Quests F → Quests F
  load_quests path_of [] loaded = loaded
  load_quests path_of (f ∷ files) loaded =
      let skipped = load_quests path_of files loaded in
      if f.is_dir || (not (has_suffix ".json" f.name) || has_prefix f.name ".")
      then skipped
      else elim (decode_object f.content) [
        | none ↦ skipped
        | some quest ↦
            let given = string_from numbers (get "quest_id" quest) in
            let quest_id = if given == "" then trim_suffix ".json" f.name else given in
            let complete =
              or_set "source" (str (path_of f.name)) (set_field "quest_id" (str quest_id) quest) in
            load_quests path_of files (record {
              quests = insert quest_id complete loaded.quests;
              order = elim (lookup quest_id loaded.quests) [
                | some _ ↦ loaded.order
                | none ↦ loaded.order ++ quest_id ∷ []
              ];
            })
      ]

  module _ (fold : ℕ → ℕ) (is_separator : ℕ → Bool) where
    -- The scan of Get: an identifier that is equal under case folding, or the stem of its file.
    unfoldable pub quest_like : Dict String (Fields F) → List String → String → Option (Fields F)
    quest_like quests [] quest_id = none
    quest_like quests (key ∷ keys) quest_id =
        let rest = quest_like quests keys quest_id in
        elim (lookup key quests) [
          | none ↦ rest
          | some candidate ↦
              let source = codes (string_from numbers (get "source" candidate)) in
              if map fold (codes key) == map fold (codes quest_id)
                || file_stem is_separator source == codes quest_id
              then some candidate
              else rest
        ]

    -- QuestStore.Get
    unfoldable pub get_quest : Quests F → String → Option (Fields F)
    get_quest q quest_id = if quest_id == "" then none else elim (lookup quest_id q.quests) [
      | some quest ↦ some quest
      | none ↦ quest_like q.quests q.order quest_id
    ]

    -- The quest of ContextFor where none is found.
    abbrev pub neutral_quest : String → Fields F
    neutral_quest quest_id = field "quest_id" (str quest_id) (
        field "title" (str (if quest_id == "" then "unknown quest" else quest_id)) (
          field "description" (str "") (
            field "npc_role" (str "") (
              field "dialogue_guidelines"
                (arr (
                  cons (str "Speak briefly and in character.")
                    (cons (str "Do not invent quest steps that were not provided.") nil)))
                (field "forbidden_spoilers" (arr nil) done)))))

    -- What ContextFor takes from the quest.
    unfoldable pub quest_map : Fields F → Fields F
    quest_map quest = field "quest_id" (get "quest_id" quest) (
        field "title" (get "title" quest) (
          field "description"
            (str (py_slice_runes (or_empty_text numbers (get "description" quest)) (pos 2500)))
            (field "npc_role" (get "npc_role" quest) (
              field "current_objective" (get "current_objective" quest) (
                field "next_objective" (get "next_objective" quest) (
                  field "location" (get "location" quest) (
                    field "dialogue_guidelines" (arr (list_from (get "dialogue_guidelines" quest)))
                      (field "known_facts" (arr (list_from (get "known_facts" quest))) (
                        field "forbidden_spoilers"
                          (arr (list_from (get "forbidden_spoilers" quest)))
                          (field "sample_lines"
                            (arr (first_items 8 (list_from (get "sample_lines" quest))))
                            done))))))))))

    abbrev pub quest_or_neutral : Quests F → String → Fields F
    quest_or_neutral q quest_id = elim (get_quest q quest_id) [
      | none ↦ neutral_quest quest_id
      | some quest ↦ quest
    ]

    -- QuestStore.ContextFor
    unfoldable pub quest_context : Quests F → String → Fields F → Fields F
    quest_context q quest_id state =
        override_with state override_keys (quest_map (quest_or_neutral q quest_id))
