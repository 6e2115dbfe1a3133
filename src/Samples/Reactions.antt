-- ===== src/Samples/Reactions.antt =====
-- A frightened NPC, and the guardrails' answer to an attack that the backend ignored.
use agent_rd.Common.{
  ℕ, String, true, ◌||◌, none, [], ◌∷◌, ◌≡◌, refl, ◌==◌, string_eq, if◌then◌else◌, milli_float,
}
use agent_rd.Domain.Value.{Fields, num, str, obj, done, field, get, map_from, string_from}
use agent_rd.Agent.Guardrails.{
  AgentDecision, is_attack, courage_of, apply_behavior_guardrails, has_tool,
}
use agent_rd.Agent.Guardrails.Reaction.{reacts, apply_behavior_guardrails_lem}
use agent_rd.Samples.{milli_numbers}

abbrev no_trim : String → String
no_trim s = s

abbrev pub coward : Fields ℕ
coward = field "personality" (obj (field "courage" (num 200) done)) done

abbrev pub attacked : Fields ℕ
attacked = field "trigger_event" (obj (field "event_name" (str "PLAYER_ATTACKED_NPC") done)) done

abbrev pub stroll : AgentDecision ℕ
stroll = record {
  goal = none;
  mood = none;
  speech = none;
  actions = record { tool = "wander"; arguments = done } ∷ [];
  internal = done;
}

abbrev after : AgentDecision ℕ
after = apply_behavior_guardrails milli_numbers no_trim coward attacked stroll

coward_flees : has_tool "flee_from" after.actions ≡ true
unfolding apply_behavior_guardrails
coward_flees = refl

abbrev trigger : Fields ℕ
trigger = map_from (get "trigger_event" attacked)

abbrev name : String
name = string_from milli_numbers (get "event_name" trigger)

apply_behavior_guardrails_lem_example :
    (reacts name
        (courage_of milli_numbers no_trim coward)
        (get "position" (map_from (get "data" trigger)))
        after.actions
      ≡ true)
    × (after.speech ≡ stroll.speech)
    × ((if is_attack name || name == "GUNSHOT_HEARD" then stroll else after) ≡ stroll)
apply_behavior_guardrails_lem_example =
    apply_behavior_guardrails_lem milli_numbers no_trim coward attacked stroll
