-- ===== src/Lore/Quest/Context.antt =====
-- What QuestStore.ContextFor gives.
use agent_rd.Common.{
  [], ◌∷◌, ◌++◌, inl, inr, if◌then◌else◌, All, Dict, lookup, map, nat_eq, list_eq, ◌⊎◌, ◌≤◌, ◌≢◌,
  none, some, ℕ, String, Bool, List, [], ◌∷◌, ◌≡◌, ◌==◌, string_eq, inl, inr, Float64,
}
use agent_rd.Domain.Value.{string_from, Fields, null, str, arr, nil, cons, get, NumberText}
use mathlib.Core.List.{Memᴰ}
use agent_rd.Eligibility.Gate.{codes}
use agent_rd.Lore.Text.{rune_count, or_empty_text}
use agent_rd.Lore.Quest.{
  first_items, file_stem, list_from, Quests, override_keys, override_with, quest_map,
}
use agent_rd.Lore.Quest.Overrides.{Overrides}

-- A text is the start of another: of at most so many characters, and all of it if it has fewer.
pub record IsCut (most : ℕ) (text whole : String) : Type 0 where
  pub rest : List ℕ
  pub starts : codes whole ≡ codes text ++ rest
  pub bounded : rune_count text ≤ most
  pub filled : (rest ≡ []) ⊎ (rune_count text ≡ most)

module _ {F : Type 0} ⦃o : Float64 F⦄ (numbers : NumberText F) (fold : ℕ → ℕ)
    (is_separator : ℕ → Bool) where
  -- A quest that Get takes for the identifier where no quest has exactly it.
  abbrev pub IsAlike : Dict String (Fields F) → String → String → Fields F → Type 0
  IsAlike quests quest_id key quest =
      (lookup key quests ≡ some quest)
      × ((map fold (codes key) ≡ map fold (codes quest_id))
          ⊎ (file_stem is_separator (codes (string_from numbers (get "source" quest)))
              ≡ codes quest_id))

  -- The quest that an identifier stands for.
  pub data IsQuestOf (q : Quests F) (quest_id : String) : Fields F → Type 0 where
    exact :
        (quest : Fields F)
        → quest_id ≢ ""
        → lookup quest_id q.quests ≡ some quest
        → IsQuestOf q quest_id quest
    alike :
        (key : String) (quest : Fields F)
        → lookup quest_id q.quests ≡ none
        → Memᴰ key q.order
        → IsAlike q.quests quest_id key quest
        → IsQuestOf q quest_id quest
    neutral :
        (quest : Fields F)
        → (quest_id ≡ "")
          ⊎ ((lookup quest_id q.quests ≡ none)
              × All (λ key. ¬ ((other : Fields F) × IsAlike q.quests quest_id key other)) q.order)
        → get "quest_id" quest ≡ str quest_id
        → get "title" quest ≡ str (if quest_id == "" then "unknown quest" else quest_id)
        → get "dialogue_guidelines" quest
          ≡ arr (
              cons
                (str "Speak briefly and in character.")
                (cons (str "Do not invent quest steps that were not provided.") nil))
        → IsQuestOf q quest_id quest

  -- The context of a quest.
  pub record IsContextOf (quest state context : Fields F) : Type 0 where
    pub quest_id : get "quest_id" context ≡ get "quest_id" quest
    pub title : get "title" context ≡ get "title" quest
    pub npc_role : get "npc_role" context ≡ get "npc_role" quest
    pub current_objective :
        Overrides state (get "current_objective" quest) "current_objective" context
    pub next_objective : Overrides state (get "next_objective" quest) "next_objective" context
    pub location : Overrides state (get "location" quest) "location" context
    pub quest_state : Overrides state null "quest_state" context
    pub description :
        (text : String) × (get "description" context ≡ str text)
        × IsCut 2500 text (or_empty_text numbers (get "description" quest))
    pub dialogue_guidelines :
        get "dialogue_guidelines" context ≡ arr (list_from (get "dialogue_guidelines" quest))
    pub known_facts : get "known_facts" context ≡ arr (list_from (get "known_facts" quest))
    pub forbidden_spoilers :
        get "forbidden_spoilers" context ≡ arr (list_from (get "forbidden_spoilers" quest))
    pub sample_lines :
        get "sample_lines" context ≡ arr (first_items 8 (list_from (get "sample_lines" quest)))

  abbrev context_of : Fields F → Fields F → Fields F
  context_of quest state =
      override_with state override_keys (quest_map numbers fold is_separator quest)
