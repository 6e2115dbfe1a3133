-- ===== src/Agent/Reasoning.antt =====
-- A reasoning turn: buildContextLocked, availableToolsFor, emitWaitGesture and scheduleReasoning of
-- runtime-go/internal/agent/scheduler.go, with callBackend of runtime-go/internal/agent/decision.go.
-- The backend, the profiles and the lore are interfaces here.
pub mod Frame
pub mod Turn
use agent_rd.Common.{
  ℕ, suc, ◌+◌, String, Bool, true, false, not, ◌&&◌, ◌||◌, Option, none, some, List, [], ◌∷◌, map,
  ◌==◌, string_eq, if◌then◌else◌, leb, Dict, Float64, lit,
}
use agent_rd.Domain.Value.{Value, Fields, bool, num, str, obj, done, field}
use agent_rd.Domain.Event.{Event, Fresh, to_map}
use agent_rd.World.{get_map}
use agent_rd.Ownership.Types.{State, ai_active, ai_conversation, ◌is◌, state_name}
use agent_rd.Ownership.Manager.{can_reason, state_of}
use agent_rd.Timeline.Store.{Env, Outcome, done as returned, failed, recent_events}
use agent_rd.Agent.Thinking.{ThinkingPolicy, is_listed, wait_gesture_style, thinking_mode_for}
use agent_rd.Agent.Guardrails.{AgentDecision, apply_behavior_guardrails}
use agent_rd.Agent.Runtime.{AgentState, Runtime, agent_state, with_agent, clock, and_then}
use agent_rd.Agent.Decision.{
  Tools, SpeechSettings, call_tool, execute_decision, apply_speech_policy,
}

-- The settings that the scheduler reads; 0 stands for every maximum <= 0.
pub record Settings (F : Type 0) : Type 0 where
  pub max_reasoning_agents : ℕ
  pub max_conversation_agents : ℕ
  pub idle_thinking_seconds : F
  pub candidate_distance_m : F
  pub aware_distance_m : F
  pub conversation_range_m : F
  pub speech : SpeechSettings F
  pub thinking : ThinkingPolicy

-- AgentContext, without RetrievedEvents, which stays empty.
pub record AgentContext (F : Type 0) : Type 0 where
  pub npc_id : String
  pub profile : Fields F
  pub world_state : Fields F
  pub current_goal : Option String
  pub current_mood : String
  pub recent_events : List (Fields F)
  pub wiki_context : List (Fields F)
  pub quest_context : Fields F
  pub available_tools : List String
  pub flags : Fields F

-- Backend. What it decides may differ from one time to the next, which is the first argument.
pub record Backend (F : Type 0) : Type 0 where
  pub supports_wait_gestures : Bool
  pub decide : ℕ → AgentContext F → Outcome (Option (AgentDecision F))

-- What the runtime was built with.
pub record Parts (F : Type 0) : Type 0 where
  pub settings : Settings F
  pub backend : Option (Backend F)
  pub tools : Tools F
  pub profile_of : String → Fields F
  pub lore_context : Fields F → Fields F → List (Fields F)

-- The tools that the dialogue overlay leaves.
unfoldable pub is_overlay_tool : String → Bool
is_overlay_tool name =
    is_listed name ("say" ∷ "get_world_state" ∷ "grab_timeline" ∷ "get_world_lore" ∷ [])

unfoldable pub overlay_tools : List String → List String
overlay_tools [] = []
overlay_tools (n ∷ names) =
    let rest = overlay_tools names in if is_overlay_tool n then n ∷ rest else rest

module _ {F : Type 0} where
  abbrev pub no_decision : AgentDecision F
  no_decision = record { goal = none; mood = none; speech = none; actions = []; internal = done }

  unfoldable pub reasoning_count : Dict String (AgentState F) → ℕ
  reasoning_count [] = 0
  reasoning_count ((id, a) ∷ m) =
      let rest = reasoning_count m in if a.reasoning then suc rest else rest

  abbrev pub trigger_flag : Option (Event F) → Fields F → Fields F
  trigger_flag none m = m
  trigger_flag (some e) m = field "trigger_event" (obj (to_map e)) m

  abbrev pub event_maps : Outcome (List (Event F)) → List (Fields F)
  event_maps (failed x) = []
  event_maps (returned events) = map to_map events

module _ {F : Type 0} ⦃o : Float64 F⦄ (env : Env F) (draw : ℕ → Fresh F)
    (trim_space : String → String) (parts : Parts F) where
  -- Ownership.State, which creates the record of an NPC that it has not seen.
  unfoldable pub owner_state : String → Runtime F → State × Runtime F
  owner_state npc rt =
      let (m, state) = state_of npc rt.manager in (state, record rt { manager = m })

  unfoldable pub may_reason : String → Runtime F → Bool × Runtime F
  may_reason npc rt =
      let (m, allowed) = can_reason npc rt.manager in (allowed, record rt { manager = m })

  -- availableToolsFor
  unfoldable pub available_tools_for : Bool → List String
  available_tools_for dialogue_only =
      if dialogue_only then overlay_tools parts.tools.names else parts.tools.names

  -- buildContextLocked
  unfoldable pub build_context :
      String → String → Option (Event F) → Runtime F → AgentContext F × Runtime F
  build_context npc reason trigger rt =
      let (a, rt1) = agent_state env draw npc rt in
      let (now, rt2) = clock env draw rt1 in
      let (world_state, world) = get_map npc now rt2.world in
      let (owner, rt3) = owner_state npc (record rt2 { world = world }) in
      let profile = parts.profile_of npc in
      let flags = field "reason" (str reason) (
        field "ownership_state" (str (state_name owner)) (
          field "thinking_mode" (str (thinking_mode_for parts.settings.thinking reason trigger)) (
            trigger_flag trigger
              (if a.dialogue_only then field "dialogue_only" (bool true) done else done)))) in
      (
        record {
          npc_id = npc;
          profile = profile;
          world_state = world_state;
          current_goal = a.current_goal;
          current_mood = a.mood;
          recent_events = event_maps (recent_events env npc 20 rt1.store);
          wiki_context = parts.lore_context profile world_state;
          quest_context = if a.dialogue_only then a.quest_context else done;
          available_tools = available_tools_for a.dialogue_only;
          flags = flags;
        },
        rt3,
      )

  abbrev pub gestures_wanted : Bool
  gestures_wanted = elim parts.backend [ none ↦ false | some b ↦ b.supports_wait_gestures ]

  unfoldable pub think :
      String → String → Option (Event F) → Runtime F → Outcome (Unit {0}) × Runtime F
  think npc reason trigger rt =
      and_then env draw
        (call_tool env draw trim_space parts.tools "think" npc
          (field "style" (str (wait_gesture_style reason trigger))
            (field "duration" (num (lit 25 1)) done))
          rt)
        (λ r rt'. (returned tt, rt'))

  -- emitWaitGesture
  unfoldable pub emit_wait_gesture :
      String → String → Option (Event F) → Runtime F → Outcome (Unit {0}) × Runtime F
  emit_wait_gesture npc reason trigger rt =
      if not parts.settings.thinking.wait_gestures
      then (returned tt, rt)
      else (let (a, rt1) = agent_state env draw npc rt in
          let (owner, rt2) = owner_state npc rt1 in
          if a.dialogue_only || not gestures_wanted
          then (returned tt, rt1)
          else if owner is ai_active || owner is ai_conversation
          then think npc reason trigger rt2
          else (returned tt, rt2))

  -- callBackend
  unfoldable pub call_backend : AgentContext F → Runtime F → Outcome (AgentDecision F) × Runtime F
  call_backend context rt = elim parts.backend [
    | none ↦ (returned no_decision, rt)
    | some b ↦ elim (b.decide rt.drawn context) [
      | failed x ↦ (failed x, rt)
      | returned answer ↦ (
        returned (elim answer [ none ↦ no_decision | some d ↦ d ]),
        record rt { drawn = suc rt.drawn },
      )
    ]
  ]

  -- The guardrails, which the overlay is spared.
  unfoldable pub guarded :
      String → AgentContext F → AgentDecision F → Runtime F → AgentDecision F × Runtime F
  guarded npc context d rt =
      let (a, rt') = agent_state env draw npc rt in
      (
        if a.dialogue_only
            then d
            else apply_behavior_guardrails env.numbers trim_space (parts.profile_of npc)
                context.flags d,
        rt',
      )

  -- The turn of scheduleReasoning, from the gesture on.
  unfoldable pub turn :
      String
      → String
      → Option (Event F)
      → Runtime F
      → Outcome (Option (AgentDecision F)) × Runtime F
  turn npc reason trigger rt = and_then env draw (emit_wait_gesture npc reason trigger rt) (λ u rt1.
      let (context, rt2) = build_context npc reason trigger rt1 in
      and_then env draw (call_backend context rt2) (λ d rt3.
        let (safe, rt4) = guarded npc context d rt3 in
        let (spoken, rt5) =
          apply_speech_policy env draw trim_space parts.tools parts.settings.speech npc safe reason
            rt4 in
        and_then env draw (execute_decision env draw trim_space parts.tools npc spoken rt5)
          (λ (carried, results) rt6.
            let (now, rt7) = clock env draw rt6 in
            (
              returned (some carried),
              with_agent env draw (λ a. record a { last_decision_at = now }) npc rt7,
            ))))

  -- scheduleReasoning
  unfoldable pub schedule_reasoning :
      String
      → String
      → Option (Event F)
      → Runtime F
      → Outcome (Option (AgentDecision F)) × Runtime F
  schedule_reasoning npc reason trigger rt =
      let (a, rt1) = agent_state env draw npc rt in
      let (allowed, rt2) = may_reason npc rt1 in
      if a.reasoning
      then (returned none, rt1)
      else if not allowed
          || leb parts.settings.max_reasoning_agents (reasoning_count rt2.agents.entries)
      then (returned none, rt2)
      else (let (now, rt3) = clock env draw rt2 in
          let (result, rt4) = turn npc reason trigger (
            with_agent env draw (λ b. record b { reasoning = true; last_decision_at = now }) npc
              rt3) in
          (result, with_agent env draw (λ b. record b { reasoning = false }) npc rt4))
