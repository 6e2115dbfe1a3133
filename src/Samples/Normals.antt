-- ===== src/Samples/Normals.antt =====
-- An action of the backend that lacks its argument.
use agent_rd.Common.{ℕ, String, true, some, ◌≡◌, refl, milli_float, string_eq}
use agent_rd.Domain.Value.{done, null, num, field}
use agent_rd.Agent.Guardrails.{AgentAction, AgentDecision}
use agent_rd.Agent.Normalize.{kept, dropped, normalize_action}
use agent_rd.Agent.Normalize.Ready.{is_ready, normalize_action_lem}
use agent_rd.Samples.Json.{one_event_env}
use agent_rd.Samples.Files.{empty_store}
use agent_rd.Samples.Reactions.{stroll}

abbrev pub same_text : String → String
same_text s = s

-- A go_to with no destination, by an NPC that has a goal: it becomes a walk around.
abbrev nowhere : AgentAction ℕ
nowhere = record { tool = "go_to"; arguments = field "destination" null done }

abbrev aimed : AgentDecision ℕ
aimed = record stroll { goal = some "find the sheriff" }

abbrev walk : AgentAction ℕ
walk = record { tool = "wander"; arguments = field "radius" (num 8000) done }

nowhere_walks :
    normalize_action one_event_env same_text "ped_1" nowhere aimed empty_store ≡ kept walk
unfolding normalize_action
nowhere_walks = refl

nowhere_drops :
    normalize_action one_event_env same_text "ped_1" nowhere stroll empty_store
    ≡ dropped "go_to_missing_destination"
unfolding normalize_action
nowhere_drops = refl

normalize_action_lem_example : is_ready one_event_env same_text walk ≡ true
normalize_action_lem_example =
    normalize_action_lem one_event_env same_text "ped_1" nowhere walk aimed empty_store
      nowhere_walks
