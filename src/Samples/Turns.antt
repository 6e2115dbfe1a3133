-- ===== src/Samples/Turns.antt =====
-- A runtime in which one NPC waits to be promoted, and registries with one tool.
use agent_rd.Common.{
  ℕ, ◌≤◌, String, true, false, none, some, [], ◌∷◌, ◌≡◌, refl, length, lookup, insert, string_eq,
  milli_float, if◌then◌else◌, ◌==◌,
}
use agent_rd.Common.Ordered.{empty_ordered}
use agent_rd.Domain.Value.{done}
use agent_rd.Ownership.Types.{aware, ai_active}
use agent_rd.Ownership.Record.{update_from_scan_record, Record}
use agent_rd.Timeline.Store.{done as returned}
use agent_rd.Agent.Dispatcher.{ToolResult, started}
use agent_rd.Agent.Deferred.{pop_deferred, set_deferred}
use agent_rd.Agent.Guardrails.{apply_behavior_guardrails}
use agent_rd.Agent.Runtime.{
  and_then, own, record_transition, clock, AgentState, Runtime, agent_state, state_in,
}
use agent_rd.Agent.Decision.{
  call_tool, registry_call, apply_speech_policy, carry_out, change_goal, speak, run_actions,
  note_speech, has_spoken, change_mood, stabilize_decision, stabilize_actions, replied, panicked,
  Tools, execute_decision,
}
use agent_rd.Agent.Decision.Overlay.{execute_decision-SaysAlike}
use agent_rd.Agent.Reasoning.{
  owner_state, may_reason, reasoning_count, turn, emit_wait_gesture, think, call_backend, guarded,
  build_context, Backend, Parts, schedule_reasoning,
}
use agent_rd.Agent.Reasoning.Turn.{
  IsUntouched, schedule_reasoning-IsUntouched, schedule_reasoning-reasoning,
}
use agent_rd.Agent.Scheduler.{
  promote_rounds, active_in, make_meaningful, can_promote_agent, activate, record_any,
  reason_if_able, promote_next_deferred,
}
use agent_rd.Agent.Scheduler.Promotion.{IsEnded, promote_next_deferred-IsEnded}
use agent_rd.Ownership.Manager.{owned_npcs, state_of, effect, can_reason}
use agent_rd.Agent.Thinking.{is_listed}
use agent_rd.Agent.Normalize.{normalize_action}
use agent_rd.Samples.Reactions.{stroll}
use agent_rd.Samples.Talks.{writing_env, draw, one_talks}

abbrev same_text : String → String
same_text s = s

abbrev spoken : String → ToolResult ℕ
spoken name = record {
  request_id = "act_1";
  tool = name;
  status = started;
  reason = "";
  detail = done;
}

-- Every handler starts its action.
abbrev willing : Tools ℕ
willing = record {
  names = "say" ∷ "wander" ∷ "think" ∷ [];
  call = λ name args c. (replied (spoken name), c);
}

-- Every handler but say panics.
abbrev panicky : Tools ℕ
panicky = record {
  names = "say" ∷ "wander" ∷ "think" ∷ [];
  call =
      λ name args c. (if name == "say" then replied (spoken name) else panicked "no such body", c);
}

abbrev strolling : Backend ℕ
strolling = record { supports_wait_gestures = true; decide = λ now context. returned (some stroll) }

abbrev parts : Parts ℕ
parts = record {
  settings = record {
    max_reasoning_agents = 1;
    max_conversation_agents = 1;
    idle_thinking_seconds = 8000;
    candidate_distance_m = 20000;
    aware_distance_m = 10000;
    conversation_range_m = 5000;
    speech = record { cooldown_seconds = 6000; global_cooldown_seconds = 2000 };
    thinking = record {
      default_mode = "low";
      wait_gestures = true;
      disabled_for_events = [];
      disabled_for_reasons = [];
    };
  };
  backend = some strolling;
  tools = willing;
  profile_of = λ npc. done;
  lore_context = λ profile world. [];
}

abbrev watcher : Record ℕ
watcher = record { npc_id = "ped_1"; state = aware; previous_state = none; history = [] }

abbrev one_waits : Runtime ℕ
one_waits = record one_talks {
  manager = record { records = ("ped_1", watcher) ∷ []; order = "ped_1" ∷ [] };
  deferred = set_deferred "ped_1" "meaningful_event:GUNSHOT_HEARD" empty_ordered;
}

-- The NPC that waits becomes active.
one_waits_promoted :
    state_in (promote_next_deferred writing_env draw same_text parts one_waits).1.manager "ped_1"
    ≡ ai_active
unfolding promote_next_deferred state_in lookup promote_rounds set_deferred active_in owned_npcs
    pop_deferred insert owner_state state_of and_then make_meaningful can_promote_agent activate
    record_any own effect update_from_scan_record record_transition reason_if_able may_reason
    can_reason schedule_reasoning reasoning_count turn emit_wait_gesture clock think call_tool
    is_listed registry_call call_backend execute_decision apply_speech_policy normalize_action
    carry_out change_goal speak run_actions note_speech has_spoken change_mood guarded build_context
    apply_behavior_guardrails stabilize_decision stabilize_actions
one_waits_promoted = refl

promote_next_deferred-IsEnded_example :
    IsEnded writing_env draw same_text parts
      (promote_next_deferred writing_env draw same_text parts one_waits)
    × (length (promote_next_deferred writing_env draw same_text parts one_waits).1.deferred.order
        ≤ length one_waits.deferred.order)
promote_next_deferred-IsEnded_example =
    promote_next_deferred-IsEnded writing_env draw same_text parts one_waits

schedule_reasoning-IsUntouched_example :
    IsUntouched writing_env draw same_text parts one_waits
      (schedule_reasoning writing_env draw same_text parts "ped_1" "push_to_talk" none one_waits).1
schedule_reasoning-IsUntouched_example =
    schedule_reasoning-IsUntouched writing_env draw same_text parts "ped_1" "push_to_talk" none
      one_waits

not_reasoning : (agent_state writing_env draw "ped_1" one_waits).0.reasoning ≡ false
unfolding agent_state lookup
not_reasoning = refl

schedule_reasoning-reasoning_example :
    (agent_state writing_env draw "ped_1"
      (schedule_reasoning writing_env draw same_text parts "ped_1" "push_to_talk" none
        one_waits).1).0.reasoning
    ≡ false
schedule_reasoning-reasoning_example =
    schedule_reasoning-reasoning writing_env draw same_text parts "ped_1" "push_to_talk" none
      one_waits not_reasoning

-- An NPC of the dialogue overlay.
abbrev quest_giver : AgentState ℕ
quest_giver = record {
  npc_id = "ped_1";
  current_goal = none;
  mood = "neutral";
  conversation_active = false;
  last_spoken_at = 0;
  last_decision_at = 0;
  reasoning = false;
  dialogue_only = true;
  quest_context = done;
}

abbrev overlaid : Runtime ℕ
overlaid = record one_waits {
  agents = record { entries = ("ped_1", quest_giver) ∷ []; order = "ped_1" ∷ [] };
}

overlaid_only : (agent_state writing_env draw "ped_1" overlaid).0.dialogue_only ≡ true
unfolding agent_state lookup
overlaid_only = refl

execute_decision-SaysAlike_example :
    execute_decision writing_env draw same_text willing "ped_1" stroll overlaid
    ≡ execute_decision writing_env draw same_text panicky "ped_1" stroll overlaid
execute_decision-SaysAlike_example =
    execute_decision-SaysAlike writing_env draw same_text willing panicky
      (record { names = refl; say = λ args c. refl }) "ped_1" stroll overlaid overlaid_only
