-- ===== src/Backend/Rule.antt =====
-- The rule backend of runtime-go/internal/backend/rule.go, with the stream of its generator as a
-- function: `rolls n` is what rng.Intn(1000) gives at the n-th draw.
pub mod Kept
pub mod Reacts
use agent_rd.Common.{
  ℕ, zero, suc, String, Bool, true, false, not, ◌&&◌, ◌||◌, Option, none, some, List, [], ◌∷◌, ◌==◌,
  string_eq, if◌then◌else◌, Float64, flt, fle, feq, lit, fdiv,
}
use agent_rd.Domain.Value.{
  pos, Value, Fields, null, bool, str, num, int, strings, floats, arr, obj, nil, done, field, get,
  has, map_from, string_from, float_from, NumberText,
}
use agent_rd.Timeline.Store.{done as returned}
use agent_rd.Backend.Reply.{rule_reply_to}
use agent_rd.Agent.Guardrails.{AgentSpeech, AgentAction, AgentDecision, at_player, is_attack}
use agent_rd.Agent.Reasoning.{AgentContext, Backend}

-- What Decide returns; the errors are those of a cancelled caller and of a nil context.
pub data Decided (F : Type 0) : Type 0 where
  cancelled nil_context : Decided F
  decided : AgentDecision F → Decided F

abbrev pub says : String → String → String → Option AgentSpeech
says text target emotion = some (record { text = text; target = target; emotion = emotion })

module _ {F : Type 0} where
  -- ruleEventName
  unfoldable pub rule_event_name : Fields F → String
  rule_event_name event = elim (get "event_name" event) [ str name ↦ name | _ ↦ "" ]

  -- ruleFindRecent, of which only the presence is used: an event of the list has such a name.
  unfoldable pub rule_find_recent : (String → Bool) → List (Fields F) → Bool
  rule_find_recent match [] = false
  rule_find_recent match (e ∷ es) = rule_find_recent match es || match (rule_event_name e)

  abbrev pub is_empty_map : Fields F → Bool
  is_empty_map done = true
  is_empty_map (field k v m) = false

  -- recent[len(recent)-1], or the empty map
  abbrev pub last_event : List (Fields F) → Fields F
  last_event [] = done
  last_event (e ∷ []) = e
  last_event (e ∷ f ∷ es) = last_event (f ∷ es)

  -- The trigger, where there is one, or the newest event.
  unfoldable pub latest_event : AgentContext F → Fields F
  latest_event c =
      let trigger = map_from (get "trigger_event" c.flags) in
      if is_empty_map trigger then last_event c.recent_events else trigger

  -- ruleDecision
  abbrev pub rule_decision :
      Option String → String → Option AgentSpeech → List (AgentAction F) → AgentDecision F
  rule_decision goal mood speech actions = record {
    goal = goal;
    mood = some mood;
    speech = speech;
    actions = actions;
    internal = done;
  }

-- ruleIsFriendlyEvent
abbrev pub is_friendly : String → Bool
is_friendly name = name == "PLAYER_HELPED_NPC"

module _ {F : Type 0} ⦃o : Float64 F⦄ where
  -- clampProbability
  unfoldable pub clamp_probability : F → F
  clamp_probability x =
      if not (feq x x)
      then lit 1 0
      else if flt x (lit 0 0)
      then lit 0 0
      else if flt (lit 1 0) x
      then lit 1 0
      else x

  abbrev pub wander : ℕ → AgentAction F
  wander radius = record { tool = "wander"; arguments = field "radius" (num (lit radius 0)) done }

  -- Decide, where an event is a threat.
  unfoldable pub on_threat : F → F → AgentDecision F
  on_threat courage aggression =
      if flt courage (lit 48 2)
      then rule_decision (some "get away from the player") "afraid"
          (says "Stay back!" "player" "afraid") (at_player "flee_from" ∷ [])
      else rule_decision (some "stand ground")
          (if fle (lit 40 2) aggression then "angry" else "wary")
          (says "You had better move along." "player" "annoyed") (at_player "look_at" ∷ [])

  -- ruleTruthy, which has no case for []string: an empty one is truthy.
  unfoldable pub rule_truthy : Value F → Bool
  rule_truthy null = false
  rule_truthy (bool b) = b
  rule_truthy (num x) = not (feq x (lit 0 0))
  rule_truthy (int (pos zero)) = false
  rule_truthy (int _) = true
  rule_truthy (str s) = not (s == "")
  rule_truthy (strings ss) = true
  rule_truthy (floats []) = false
  rule_truthy (floats _) = true
  rule_truthy (arr nil) = false
  rule_truthy (arr _) = true
  rule_truthy (obj done) = false
  rule_truthy (obj _) = true

  -- Decide, of a gunshot at a position.
  unfoldable pub on_gunshot : F → Value F → Option String → String → AgentDecision F
  on_gunshot courage position goal mood =
      if fle (lit 55 2) courage && rule_truthy position
      then rule_decision (some "investigate the gunshot") "alert"
          (says "What the hell was that?" "" "alert")
          (record { tool = "investigate"; arguments = field "position" position done } ∷ [])
      else if flt courage (lit 40 2)
      then rule_decision (some "leave the area") "afraid" none (wander 12 ∷ [])
      else rule_decision goal mood none []

  -- The actions after a failure: a walk around where the tool was go_to.
  unfoldable pub fallback_for : Value F → List (AgentAction F)
  fallback_for (str tool) = if tool == "go_to" then wander 8 ∷ [] else []
  fallback_for _ = []

  -- The case of ACTION_FAILED.
  unfoldable pub on_failure : Fields F → Option String → AgentDecision F
  on_failure event goal =
      rule_decision goal "frustrated" none (fallback_for (get "tool" (map_from (get "data" event))))

module _ {F : Type 0} ⦃o : Float64 F⦄ (numbers : NumberText F) (table : ℕ → ℕ) where
  -- ruleText
  unfoldable pub rule_text : Value F → String
  rule_text null = "None"
  rule_text (bool true) = "True"
  rule_text (bool false) = "False"
  rule_text v = string_from numbers v

  -- ruleDataText
  unfoldable pub rule_data_text : Fields F → String
  rule_data_text m = if has "text" m then rule_text (get "text" m) else ""

  -- ruleTrait
  unfoldable pub rule_trait : Fields F → String → F → F
  rule_trait personality k fallback =
      if has k personality then float_from numbers (get k personality) else fallback

  module _ (silence : F) (rolls : ℕ → ℕ) where
    -- shouldSpeak, with the number of draws before and after.
    unfoldable pub should_speak : Bool → ℕ → Bool × ℕ
    should_speak true n = (fle silence (lit 90 2), n)
    should_speak false n =
        if fle silence (lit 0 0)
        then (true, n)
        else (fle silence (fdiv (lit (rolls n) 0) (lit 1000 0)), suc n)

    -- The case of PLAYER_SPOKE.
    unfoldable pub on_speech : F → Fields F → Option String → String → ℕ → AgentDecision F × ℕ
    on_speech sociability event goal mood n =
        let (speaks, n') = should_speak true n in
        let emotion = if fle (lit 70 2) sociability then "friendly" else "neutral" in
        if speaks
        then elim (rule_reply_to table (rule_data_text (map_from (get "data" event)))) [
          | none ↦ (rule_decision goal mood none [], n')
          | some reply ↦
              (rule_decision goal mood (says reply "player" emotion) (at_player "look_at" ∷ []), n')
        ]
        else (rule_decision goal mood none [], n')

    -- The case of PLAYER_APPROACHED and PLAYER_LOOKED_AT_NPC. Only a sociable NPC draws.
    unfoldable pub on_approach : F → Option String → String → ℕ → AgentDecision F × ℕ
    on_approach sociability goal mood n =
        let (speaks, n') = should_speak false n in
        let text = if fle (lit 75 2) sociability then "Evening." else "Howdy." in
        if fle (lit 62 2) sociability
        then (if speaks
            then (
              rule_decision goal mood (says text "player" "neutral") (at_player "look_at" ∷ []),
              n',
            )
            else (rule_decision goal mood none [], n'))
        else (rule_decision goal mood none [], n)

    -- The `switch` on the newest event.
    unfoldable pub on_event : Fields F → F → F → Option String → String → ℕ → AgentDecision F × ℕ
    on_event event sociability courage goal mood n =
        let name = rule_event_name event in
        if name == "GUNSHOT_HEARD"
        then (on_gunshot courage (get "position" (map_from (get "data" event))) goal mood, n)
        else if name == "PLAYER_SPOKE"
        then on_speech sociability event goal mood n
        else if name == "PLAYER_APPROACHED" || name == "PLAYER_LOOKED_AT_NPC"
        then on_approach sociability goal mood n
        else if name == "ACTION_FAILED"
        then (on_failure event goal, n)
        else (rule_decision goal mood none [], n)

    -- Decide of a context, without the errors.
    unfoldable pub rule_ladder : AgentContext F → ℕ → AgentDecision F × ℕ
    rule_ladder c n =
        let personality = map_from (get "personality" c.profile) in
        let courage = rule_trait personality "courage" (lit 5 1) in
        let mood = if c.current_mood == "" then "neutral" else c.current_mood in
        if rule_find_recent is_attack c.recent_events
        then (on_threat courage (rule_trait personality "aggression" (lit 3 1)), n)
        else if rule_find_recent is_friendly c.recent_events
        then (
          rule_decision c.current_goal "warm"
              (says "Good to see a friendly face." "player" "friendly") (at_player "look_at" ∷ []),
          n,
        )
        else on_event (latest_event c) (rule_trait personality "sociability" (lit 5 1)) courage
            c.current_goal mood n

    -- Decide, with the number of draws before and after.
    unfoldable pub rule_decide : Bool → Option (AgentContext F) → ℕ → Decided F × ℕ
    rule_decide true context n = (cancelled, n)
    rule_decide false none n = (nil_context, n)
    rule_decide false (some c) n = let (d, n') = rule_ladder c n in (decided d, n')

  -- NewRuleBackend, as the runtime sees it; `drawn` is the number of draws before each decision.
  abbrev pub rule_backend : F → (ℕ → ℕ) → (ℕ → ℕ) → Backend F
  rule_backend silence rolls drawn = record {
    supports_wait_gestures = false;
    decide = λ t c. returned (some (rule_ladder (clamp_probability silence) rolls c (drawn t)).0);
  }
