-- ===== src/Agent/Decision.antt =====
-- How a decision is carried out: callTool, stabilizeDecision, applySpeechPolicy and executeDecision of
-- runtime-go/internal/agent/decision.go. The registry of tools is an interface here.
pub mod Overlay
use Prim.Native.String.{◌++◌ as str_append}
use agent_rd.Common.{
  ℕ, suc, String, Bool, true, false, not, ◌&&◌, ◌||◌, Option, none, some, List, [], ◌∷◌, ◌++◌, ◌==◌,
  string_eq, if◌then◌else◌, Float64, flt, lit, fsub,
}
use agent_rd.Domain.Value.{Value, Fields, null, str, obj, done, field}
use agent_rd.Domain.Event.{Event, EventOptions, Fresh}
use agent_rd.World.{WorldStore, set_field}
use agent_rd.Ownership.Manager.{can_speak}
use agent_rd.Timeline.Store.{Env, Store, Outcome, done as returned, failed}
use agent_rd.Agent.Dispatcher.{
  Dispatcher, ToolResult, ActionStatus, started, completed, failed as not_done,
}
use agent_rd.Agent.Thinking.{is_listed}
use agent_rd.Agent.Guardrails.{AgentSpeech, AgentAction, AgentDecision}
use agent_rd.Agent.Normalize.{Normalized, kept, dropped, without_nil, normalize_action}
use agent_rd.Agent.Runtime.{
  AgentState, Runtime, agent_state, with_agent, options, append_fact, clock, and_then,
}

-- What a handler of the registry comes to: a result, or a panic that callTool recovers.
pub data Called (F : Type 0) : Type 0 where
  replied : ToolResult F → Called F
  panicked : String → Called F

-- tools.Context, as toolContext of runtime-go/internal/agent/scheduler.go fills it: all of the runtime
-- that a handler reaches. Its profile and its lore are fixed, and its draws are those of identifiers
-- and the clock.
pub record ToolContext (F : Type 0) : Type 0 where
  pub npc_id : String
  pub world : WorldStore F
  pub timeline : Store
  pub dispatcher : Dispatcher F
  pub drawn : ℕ

-- Registry: the names, and the call of a handler.
pub record Tools (F : Type 0) : Type 0 where
  pub names : List String
  pub call : String → Fields F → ToolContext F → Called F × ToolContext F

-- The part of SpeechConfig that the runtime reads.
pub record SpeechSettings (F : Type 0) : Type 0 where
  pub cooldown_seconds : F
  pub global_cooldown_seconds : F

-- The reasons that bypass the cooldown.
unfoldable pub is_urgent : String → Bool
is_urgent reason = is_listed reason (
    "push_to_talk" ∷ "player_spoke" ∷ "meaningful_event:PLAYER_THREATENED_NPC"
    ∷ "meaningful_event:PLAYER_ATTACKED_NPC" ∷ "meaningful_event:NPC_DAMAGED"
    ∷ "meaningful_event:GUNSHOT_HEARD" ∷ [])

abbrev pub text_or_empty : Option String → String
text_or_empty none = ""
text_or_empty (some s) = s

abbrev pub is_goal : Option String → String → Bool
is_goal none goal = false
is_goal (some old) goal = old == goal

abbrev pub has_speech : Option AgentSpeech → Bool
has_speech none = false
has_speech (some s) = true

module _ {F : Type 0} where
  -- toolContext
  abbrev pub tool_context : String → Runtime F → ToolContext F
  tool_context npc rt = record {
    npc_id = npc;
    world = rt.world;
    timeline = rt.store;
    dispatcher = rt.dispatcher;
    drawn = rt.drawn;
  }

  -- The runtime after a handler, which changed what it reaches.
  abbrev pub reached : Called F × ToolContext F → Runtime F → Called F × Runtime F
  reached x rt = (
    x.0,
    record rt {
      world = x.1.world;
      store = x.1.timeline;
      dispatcher = x.1.dispatcher;
      drawn = x.1.drawn;
    },
  )

  abbrev pub optional_text : String → String → Fields F → Fields F
  optional_text k text m = if text == "" then m else set_field k (str text) m

  -- The arguments of the say call for a decision's speech.
  unfoldable pub say_arguments : AgentSpeech → Fields F
  say_arguments s =
      optional_text "emotion" s.emotion
        (optional_text "target" s.target (field "text" (str s.text) done))

  -- A say call that started.
  unfoldable pub has_spoken : List (ToolResult F) → Bool
  has_spoken [] = false
  has_spoken (r ∷ rs) =
      (r.tool == "say" && elim r.status [ started ↦ true | completed ↦ false | not_done ↦ false ])
      || has_spoken rs

  abbrev pub text_value : Option String → Value F
  text_value none = null
  text_value (some s) = str s

module _ {F : Type 0} ⦃o : Float64 F⦄ (env : Env F) (draw : ℕ → Fresh F)
    (trim_space : String → String) (tools : Tools F) where
  -- A failed result, with its fact where there is an NPC. NewActionRequest has drawn the identifier.
  unfoldable pub fail_tool :
      String → String → String → String → Runtime F → Outcome (ToolResult F) × Runtime F
  fail_tool reason message name npc rt =
      let result : ToolResult F = record {
        request_id = (draw rt.drawn).new_id;
        tool = name;
        status = not_done;
        reason = message;
        detail = done;
      } in
      let rt' = record rt { drawn = suc rt.drawn } in
      if npc == ""
      then (returned result, rt')
      else and_then env draw
          (append_fact env draw npc "ACTION_FAILED"
            (options env draw (lit 5 1) ("action" ∷ []) (
              field "tool" (str name)
                (field "reason" (str reason) (field "message" (str message) done))))
            rt')
          (λ e rt''. (returned result, rt''))

  -- registryCall
  unfoldable pub registry_call :
      String → String → Fields F → Runtime F → Outcome (ToolResult F) × Runtime F
  registry_call name npc args rt =
      let (called, rt') = reached (tools.call name args (tool_context npc rt)) rt in
      elim called [
        | replied r ↦ (returned r, rt')
        | panicked message ↦ fail_tool "panic" message name npc rt'
      ]

  -- callTool
  unfoldable pub call_tool :
      String → String → Fields F → Runtime F → Outcome (ToolResult F) × Runtime F
  call_tool name npc args rt =
      if is_listed name tools.names
      then registry_call name npc (without_nil args) rt
      else fail_tool "KeyError" (str_append "unknown agent tool: " name) name npc rt

  abbrev pub invalid_action : AgentAction F → String → EventOptions F
  invalid_action a reason = options env draw (lit 3 1) ("action" ∷ "validation" ∷ []) (
      field "tool" (str a.tool)
        (field "reason" (str reason) (field "arguments" (obj a.arguments) done)))

  -- The loop of stabilizeDecision; `d` is the decision before it.
  unfoldable pub stabilize_actions :
      String
      → AgentDecision F
      → List (AgentAction F)
      → Runtime F
      → Outcome (List (AgentAction F)) × Runtime F
  stabilize_actions npc d [] rt = (returned [], rt)
  stabilize_actions npc d (a ∷ actions) rt =
      elim (normalize_action env trim_space npc a d rt.store) [
        | kept fixed ↦
            and_then env draw (stabilize_actions npc d actions rt)
              (λ rest rt'. (returned (fixed ∷ rest), rt'))
        | dropped reason ↦
            let skipped = stabilize_actions npc d actions rt in
            let logged =
              and_then env draw
                (append_fact env draw npc "ACTION_FAILED" (invalid_action a reason) rt)
                (λ e rt'. stabilize_actions npc d actions rt') in
            if reason == "" then skipped else logged
      ]

  -- stabilizeDecision
  unfoldable pub stabilize_decision :
      String → AgentDecision F → Runtime F → Outcome (AgentDecision F) × Runtime F
  stabilize_decision npc d rt =
      and_then env draw (stabilize_actions npc d d.actions rt)
        (λ actions rt'. (returned (record d { actions = actions }), rt'))

  abbrev pub blocked_action : AgentAction F → EventOptions F
  blocked_action a = options env draw (lit 3 1) ("action" ∷ "quest_dialogue" ∷ []) (
      field "tool" (str a.tool) (
        field "reason" (str "dialogue_only_mode")
          (field "message" (str "Rockstar owns quest NPC actions") done)))

  -- The loop of executeDecision for an NPC of the dialogue overlay.
  unfoldable pub only_speech :
      String → List (AgentAction F) → Runtime F → Outcome (List (AgentAction F)) × Runtime F
  only_speech npc [] rt = (returned [], rt)
  only_speech npc (a ∷ actions) rt =
      let allowed =
        and_then env draw (only_speech npc actions rt) (λ rest rt'. (returned (a ∷ rest), rt')) in
      let blocked =
        and_then env draw (append_fact env draw npc "ACTION_FAILED" (blocked_action a) rt)
          (λ e rt'. only_speech npc actions rt') in
      if a.tool == "say" then allowed else blocked

  -- The decision's goal, where it is new.
  unfoldable pub change_goal : String → String → Runtime F → Outcome (Unit {0}) × Runtime F
  change_goal npc goal rt =
      let (a, rt') = agent_state env draw npc rt in
      if goal == "" || is_goal a.current_goal goal
      then (returned tt, rt')
      else and_then env draw
          (append_fact env draw npc
            (elim a.current_goal [ none ↦ "GOAL_CREATED" | some old ↦ "GOAL_CHANGED" ])
            (options env draw (lit 4 1) ("goal" ∷ [])
              (field "previous_goal" (text_value a.current_goal) (field "goal" (str goal) done)))
            rt')
          (λ e rt''. (
            returned tt,
            with_agent env draw (λ b. record b { current_goal = some goal }) npc rt'',
          ))

  unfoldable pub change_mood : String → String → Runtime F → Runtime F
  change_mood npc mood rt =
      if mood == "" then rt else with_agent env draw (λ a. record a { mood = mood }) npc rt

  -- The decision's speech, where the NPC may speak.
  unfoldable pub speak :
      String → Option AgentSpeech → Runtime F → Outcome (List (ToolResult F)) × Runtime F
  speak npc none rt = (returned [], rt)
  speak npc (some s) rt =
      let (m, allowed) = can_speak npc rt.manager in
      let rt' = record rt { manager = m } in
      if allowed
      then and_then env draw (call_tool "say" npc (say_arguments s) rt') (λ r rt''.
        let (now, drawn) = clock env draw rt'' in
        (returned (r ∷ []), with_agent env draw (λ a. record a { last_spoken_at = now }) npc drawn))
      else (returned [], rt')

  -- The loop over the actions.
  unfoldable pub run_actions :
      String → Bool → List (AgentAction F) → Runtime F → Outcome (List (ToolResult F)) × Runtime F
  run_actions npc spoke [] rt = (returned [], rt)
  run_actions npc spoke (a ∷ actions) rt =
      let skipped = run_actions npc spoke actions rt in
      let called = and_then env draw (call_tool a.tool npc a.arguments rt) (λ r rt'.
        and_then env draw (run_actions npc spoke actions rt')
          (λ rest rt''. (returned (r ∷ rest), rt''))) in
      if a.tool == "say" && spoke then skipped else called

  unfoldable pub note_speech : List (ToolResult F) → Runtime F → Runtime F
  note_speech results rt =
      if has_spoken results
      then (let (now, rt') = clock env draw rt in record rt' { last_global_speech_at = now })
      else rt

  -- executeDecision after the actions were checked.
  unfoldable pub carry_out :
      String → AgentDecision F → Runtime F → Outcome (List (ToolResult F)) × Runtime F
  carry_out npc d rt = and_then env draw (change_goal npc (text_or_empty d.goal) rt) (λ u rt1.
      and_then env draw (speak npc d.speech (change_mood npc (text_or_empty d.mood) rt1))
        (λ said rt2.
          and_then env draw (run_actions npc (has_speech d.speech) d.actions rt2)
            (λ acted rt3. (returned (said ++ acted), note_speech (said ++ acted) rt3))))

  -- executeDecision: the decision as it was carried out, and the results.
  unfoldable pub execute_decision :
      String
      → AgentDecision F
      → Runtime F
      → Outcome (AgentDecision F × List (ToolResult F)) × Runtime F
  execute_decision npc d rt =
      let (a, rt') = agent_state env draw npc rt in
      and_then env draw
        (if a.dialogue_only
          then and_then env draw (only_speech npc d.actions rt')
              (λ actions rt1. (returned (record d { actions = actions }), rt1))
          else stabilize_decision npc d rt')
        (λ checked rt2.
          and_then env draw (carry_out npc checked rt2)
            (λ results rt3. (returned (checked, results), rt3)))

  -- applySpeechPolicy
  unfoldable pub apply_speech_policy :
      SpeechSettings F → String → AgentDecision F → String → Runtime F → AgentDecision F × Runtime F
  apply_speech_policy settings npc d reason rt =
      if not (has_speech d.speech) || is_urgent reason
      then (d, rt)
      else (let (a, rt') = agent_state env draw npc rt in
          let (now, rt'') = clock env draw rt' in
          if flt (fsub now a.last_spoken_at) settings.cooldown_seconds
            || flt (fsub now rt''.last_global_speech_at) settings.global_cooldown_seconds
          then (record d { speech = none }, rt'')
          else (d, rt''))
