-- ===== src/Agent/Guardrails.antt =====
-- applyBehaviorGuardrails of runtime-go/internal/agent/decision.go, with AgentDecision of
-- runtime-go/internal/domain/agent.go and coerceFloat of runtime-go/internal/agent/helpers.go.
pub mod Reaction
use agent_rd.Common.{
  ℕ, zero, suc, String, Bool, true, false, not, ◌&&◌, ◌||◌, Option, none, some, List, [], ◌∷◌, ◌++◌,
  ◌==◌, string_eq, if◌then◌else◌, length, leb, Float64, flt, fle, lit,
}
use agent_rd.Domain.Value.{
  Value, Fields, Items, nil, cons, bool, num, int, str, floats, arr, done, field, get, map_from,
  string_from, NumberText,
}
use agent_rd.Agent.Thinking.{is_listed}

pub record AgentSpeech : Type 0 where
  pub text : String
  pub target : String
  pub emotion : String

pub record AgentAction (F : Type 0) : Type 0 where
  pub tool : String
  pub arguments : Fields F

pub record AgentDecision (F : Type 0) : Type 0 where
  pub goal : Option String
  pub mood : Option String
  pub speech : Option AgentSpeech
  pub actions : List (AgentAction F)
  pub internal : Fields F

module _ {F : Type 0} where
  -- A tool is in the set of the actions' tools.
  unfoldable pub has_tool : String → List (AgentAction F) → Bool
  has_tool name [] = false
  has_tool name (a ∷ actions) = a.tool == name || has_tool name actions

  unfoldable pub has_any_tool : List (AgentAction F) → List String → Bool
  unfolding has_tool
  has_any_tool actions [] = false
  has_any_tool actions (n ∷ names) = has_tool n actions || has_any_tool actions names

  unfoldable pub filter_actions : List String → List (AgentAction F) → List (AgentAction F)
  unfolding is_listed
  filter_actions blocked [] = []
  filter_actions blocked (a ∷ actions) =
      let rest = filter_actions blocked actions in
      if is_listed a.tool blocked then rest else a ∷ rest

  unfoldable pub set_mood_default : String → AgentDecision F → AgentDecision F
  set_mood_default mood d = elim d.mood [
    | none ↦ record d { mood = some mood }
    | some m ↦ if m == "" then record d { mood = some mood } else d
  ]

  unfoldable pub set_goal_default : String → AgentDecision F → AgentDecision F
  set_goal_default goal d = elim d.goal [
    | none ↦ record d { goal = some goal }
    | some g ↦ if g == "" then record d { goal = some goal } else d
  ]

  abbrev pub item_count : Items F → ℕ
  item_count nil = 0
  item_count (cons v xs) = suc (item_count xs)

  unfoldable pub is_position_value : Value F → Bool
  is_position_value (arr xs) = leb 3 (item_count xs)
  is_position_value (floats xs) = leb 3 (length xs)
  is_position_value _ = false

  abbrev pub at_player : String → AgentAction F
  at_player tool = record { tool = tool; arguments = field "entity" (str "player") done }

abbrev pub away_tools : List String
away_tools = "go_to" ∷ "follow" ∷ "wander" ∷ "investigate" ∷ []

abbrev pub is_attack : String → Bool
is_attack name =
    name == "PLAYER_THREATENED_NPC" || (name == "PLAYER_ATTACKED_NPC" || name == "NPC_DAMAGED")

module _ {F : Type 0} ⦃o : Float64 F⦄ where
  unfoldable pub flee : List (AgentAction F) → List (AgentAction F)
  unfolding has_tool filter_actions
  flee actions =
      let kept = filter_actions away_tools actions in
      if has_tool "flee_from" kept then kept else at_player "flee_from" ∷ kept

  unfoldable pub investigate : Value F → List (AgentAction F) → List (AgentAction F)
  unfolding has_tool filter_actions
  investigate position actions =
      if has_tool "investigate" actions
      then actions
      else filter_actions ("wander" ∷ "go_to" ∷ "follow" ∷ "flee_from" ∷ []) actions
        ++ record { tool = "investigate"; arguments = field "position" position done } ∷ []

  -- The case of a threat.
  unfoldable pub guard_attack : F → AgentDecision F → AgentDecision F
  unfolding flee set_mood_default set_goal_default
  guard_attack courage d =
      if flt courage (lit 48 2)
      then record (set_goal_default "get away from the player" (set_mood_default "afraid" d)) {
        actions = flee d.actions;
      }
      else if not (has_tool "face" d.actions) && not (has_tool "look_at" d.actions)
      then record d { actions = d.actions ++ at_player "face" ∷ [] }
      else d

  -- The case of a gunshot.
  unfoldable pub guard_gunshot : F → Value F → AgentDecision F → AgentDecision F
  unfolding investigate has_any_tool set_mood_default set_goal_default is_position_value
  guard_gunshot courage position d =
      if fle (lit 55 2) courage && is_position_value position
      then record (set_goal_default "investigate the gunshot" (set_mood_default "alert" d)) {
        actions = investigate position d.actions;
      }
      else if flt courage (lit 40 2)
          && not (has_any_tool d.actions ("wander" ∷ "go_to" ∷ "flee_from" ∷ []))
      then record (set_mood_default "afraid" d) {
        actions =
            d.actions
            ++ record { tool = "wander"; arguments = field "radius" (num (lit 12 0)) done } ∷ [];
      }
      else d

  unfoldable pub guard : String → F → Value F → AgentDecision F → AgentDecision F
  unfolding guard_attack guard_gunshot
  guard name courage position d =
      if is_attack name
      then guard_attack courage d
      else if name == "GUNSHOT_HEARD"
      then guard_gunshot courage position d
      else d

module _ {F : Type 0} ⦃o : Float64 F⦄ (numbers : NumberText F) (trim_space : String → String) where
  -- coerceFloat
  unfoldable pub coerce_float : Value F → Option F
  coerce_float (num x) = some x
  coerce_float (int n) = some (numbers.of_int n)
  coerce_float (bool true) = some (lit 1 0)
  coerce_float (bool false) = some (lit 0 0)
  coerce_float (str s) = if trim_space s == "" then none else numbers.parse (trim_space s)
  coerce_float _ = none

  -- A missing courage is the nil that coerceFloat refuses.
  unfoldable pub courage_of : Fields F → F
  unfolding coerce_float map_from get
  courage_of profile = elim (coerce_float (get "courage" (map_from (get "personality" profile)))) [
    | none ↦ lit 5 1
    | some x ↦ x
  ]

  -- applyBehaviorGuardrails, with the NPC's profile and the context's flags.
  unfoldable pub apply_behavior_guardrails : Fields F → Fields F → AgentDecision F → AgentDecision F
  unfolding guard courage_of string_from map_from get
  apply_behavior_guardrails profile flags d =
      let trigger = map_from (get "trigger_event" flags) in
      guard (string_from numbers (get "event_name" trigger)) (courage_of profile)
        (get "position" (map_from (get "data" trigger))) d
