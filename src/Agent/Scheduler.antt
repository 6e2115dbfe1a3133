-- ===== src/Agent/Scheduler.antt =====
-- Who gets to reason: makeMeaningful, promoteNextDeferred, reactToEvent, ReleaseAll,
-- maybeScheduleIdleThinking and Tick of runtime-go/internal/agent/scheduler.go.
pub mod Queue
pub mod Promotion
use Prim.Native.String.{◌++◌ as str_append}
use agent_rd.Common.{
  ℕ, zero, suc, String, Bool, true, false, not, ◌&&◌, ◌||◌, Option, none, some, List, [], ◌∷◌, ◌==◌,
  string_eq, if◌then◌else◌, ltb, length, lookup, Float64, flt, fle, lit, fsub,
}
use agent_rd.Domain.Value.{ℤ, pos, Value, Fields, int, str, done, field}
use agent_rd.Domain.Event.{Event, Fresh}
use agent_rd.Ownership.Types.{
  State, aware, ai_active, ai_conversation, rockstar, release, ◌is◌, Transition,
}
use agent_rd.Ownership.Record.{ScanUpdate}
use agent_rd.Ownership.Manager.{
  Manager, Op, scan, push_to_talk, conversation_ended, request_release, owned_npcs,
}
use agent_rd.Timeline.Store.{Env, Outcome, done as returned, failed}
use agent_rd.Agent.Deferred.{set_deferred, pop_deferred}
use agent_rd.Agent.Dispatcher.{pending_npc_ids}
use agent_rd.Agent.Thinking.{is_listed}
use agent_rd.Agent.Runtime.{
  AgentState, Runtime, agent_state, with_agent, options, append_fact, own, clock, and_then,
  state_in, record_transition, ensure_single_conversation,
}
use agent_rd.Agent.Reasoning.{Settings, Parts, owner_state, may_reason, schedule_reasoning}

-- The events that make an NPC that is aware active.
unfoldable pub is_meaningful : String → Bool
is_meaningful name = is_listed name (
    "PLAYER_THREATENED_NPC" ∷ "PLAYER_ATTACKED_NPC" ∷ "NPC_DAMAGED" ∷ "GUNSHOT_HEARD"
    ∷ "DEAD_BODY_DISCOVERED" ∷ "FIGHT_STARTED" ∷ [])

module _ {F : Type 0} where
  -- activeAgentCount, on the NPCs that the manager lists.
  unfoldable pub active_in : Manager F → List String → ℕ
  active_in m [] = 0
  active_in m (id ∷ ids) =
      let rest = active_in m ids in
      let owner = state_in m id in
      if owner is ai_active || owner is ai_conversation then suc rest else rest

  abbrev pub active_agent_count : Runtime F → ℕ
  active_agent_count rt = active_in rt.manager (owned_npcs rt.manager)

module _ {F : Type 0} ⦃o : Float64 F⦄ (env : Env F) (draw : ℕ → Fresh F)
    (trim_space : String → String) (parts : Parts F) where
  abbrev pub max_active_agents : ℕ
  max_active_agents = parts.settings.max_reasoning_agents

  -- canPromoteAgent
  unfoldable pub can_promote_agent : String → Runtime F → Bool × Runtime F
  can_promote_agent npc rt =
      let (owner, rt') = owner_state env draw trim_space parts npc rt in
      (
        (owner is ai_active || owner is ai_conversation)
            || ltb (active_agent_count rt') max_active_agents,
        rt',
      )

  abbrev pub ignore : {A : Type 0} → Outcome A × Runtime F → Outcome (Unit {0}) × Runtime F
  ignore x = and_then env draw x (λ a rt. (returned tt, rt))

  -- The deferral of makeMeaningful.
  unfoldable pub defer : String → String → Runtime F → Outcome (Unit {0}) × Runtime F
  defer npc reason rt = ignore (
      append_fact env draw npc "AGENT_ACTIVATION_DEFERRED"
        (options env draw (lit 3 1) ("ownership" ∷ "scheduler" ∷ []) (
          field "reason" (str "scheduler_cap") (
            field "active_agents" (int (pos (active_agent_count rt)))
              (field "max_active_agents" (int (pos max_active_agents)) done))))
        (record rt { deferred = set_deferred npc reason rt.deferred }))

  abbrev pub meaningful_scan : String → ScanUpdate F
  meaningful_scan npc = record {
    npc_id = npc;
    distance_m = lit 0 0;
    eligible = true;
    candidate_distance_m = parts.settings.candidate_distance_m;
    aware_distance_m = parts.settings.aware_distance_m;
    meaningful_trigger = true;
  }

  -- The end of makeMeaningful.
  unfoldable pub reason_if_able :
      String → String → Option (Event F) → Runtime F → Outcome (Unit {0}) × Runtime F
  reason_if_able npc reason trigger rt =
      let (allowed, rt') = may_reason env draw trim_space parts npc rt in
      if allowed
      then ignore (schedule_reasoning env draw trim_space parts npc reason trigger rt')
      else (returned tt, rt')

  module _ (promote : Runtime F → Outcome (Unit {0}) × Runtime F) where
    unfoldable pub record_any : Option (Transition F) → Runtime F → Outcome (Unit {0}) × Runtime F
    record_any none rt = (returned tt, rt)
    record_any (some t) rt = ignore (record_transition env draw promote t none [] rt)

    -- The promotion of makeMeaningful.
    unfoldable pub activate : String → Runtime F → Outcome (Unit {0}) × Runtime F
    activate npc rt =
        let (t, rt') = own env draw (scan (meaningful_scan npc)) npc rt in record_any t rt'

    -- makeMeaningful
    unfoldable pub make_meaningful :
        String → String → Option (Event F) → Runtime F → Outcome (Unit {0}) × Runtime F
    make_meaningful npc reason trigger rt =
        let (owner, rt1) = owner_state env draw trim_space parts npc rt in
        let (room, rt2) = can_promote_agent npc rt1 in
        if owner is aware
        then if room
          then and_then env draw (activate npc rt2) (λ u rt3. reason_if_able npc reason trigger rt3)
          else defer npc reason rt2
        else reason_if_able npc reason trigger rt1

  abbrev pub is_waiting : List String → Bool
  is_waiting [] = false
  is_waiting (id ∷ ids) = true

  abbrev pub may_promote : Runtime F → Bool
  may_promote rt = is_waiting rt.deferred.order && ltb (active_agent_count rt) max_active_agents

  -- The loop of promoteNextDeferred, on a fuel of rounds.
  unfoldable pub promote_rounds : ℕ → Runtime F → Outcome (Unit {0}) × Runtime F
  promote_rounds zero rt = (returned tt, rt)
  promote_rounds (suc n) rt =
      let (popped, queue) = pop_deferred rt.deferred in
      let rt1 = record rt { deferred = queue } in
      let round : Outcome (Unit {0}) × Runtime F = elim popped [
        | none ↦ (returned tt, rt1)
        | some (npc, reason) ↦
            let (owner, rt2) = owner_state env draw trim_space parts npc rt1 in
            let passed_over = promote_rounds n rt2 in
            let promoted =
              and_then env draw
                (make_meaningful (promote_rounds n) npc (str_append "deferred_promotion:" reason)
                  none rt2)
                (λ u rt3. promote_rounds n rt3) in
            if owner is aware then promoted else passed_over
      ] in
      if may_promote rt then round else (returned tt, rt)

  -- promoteNextDeferred: each round takes an NPC from the queue, so its length is fuel enough.
  unfoldable pub promote_next_deferred : Runtime F → Outcome (Unit {0}) × Runtime F
  promote_next_deferred rt = promote_rounds (length rt.deferred.order) rt

  abbrev pub record_change : Option (Transition F) → Runtime F → Outcome (Unit {0}) × Runtime F
  record_change = record_any promote_next_deferred

  unfoldable pub talk : Event F → Runtime F → Outcome (Unit {0}) × Runtime F
  talk e rt =
      let (owner, rt1) = owner_state env draw trim_space parts e.npc_id rt in
      let (t, rt2) = own env draw push_to_talk e.npc_id rt1 in
      and_then env draw
        (if owner is ai_conversation then (returned tt, rt1) else record_change t rt2)
        (λ u rt3. ignore (
          schedule_reasoning env draw trim_space parts e.npc_id "player_spoke" (some e)
            (with_agent env draw (λ a. record a { conversation_active = true }) e.npc_id rt3)))

  abbrev pub meaningful_reason : String → String
  meaningful_reason name = str_append "meaningful_event:" name

  unfoldable pub approached : Event F → Runtime F → Outcome (Unit {0}) × Runtime F
  approached e rt =
      let (a, rt1) = agent_state env draw e.npc_id rt in
      let (owner, rt2) = owner_state env draw trim_space parts e.npc_id rt1 in
      if a.dialogue_only
      then ignore
          (schedule_reasoning env draw trim_space parts e.npc_id "quest_dialogue" (some e) rt1)
      else if owner is aware
      then make_meaningful promote_next_deferred e.npc_id (meaningful_reason e.event_name) (some e)
          rt2
      else (returned tt, rt2)

  -- reactToEvent
  unfoldable pub react_to_event : Event F → Runtime F → Outcome (Unit {0}) × Runtime F
  react_to_event e rt =
      let rt1 = (agent_state env draw e.npc_id rt).1 in
      if e.event_name == "PLAYER_SPOKE"
      then and_then env draw
          (ensure_single_conversation env draw promote_next_deferred
            parts.settings.max_conversation_agents e.npc_id rt1)
          (λ u rt2. talk e rt2)
      else if is_meaningful e.event_name
      then make_meaningful promote_next_deferred e.npc_id (meaningful_reason e.event_name) (some e)
          rt1
      else if e.event_name == "PLAYER_APPROACHED" || e.event_name == "PLAYER_LOOKED_AT_NPC"
      then approached e rt1
      else if e.event_name == "ACTION_FAILED"
      then ignore
          (schedule_reasoning env draw trim_space parts e.npc_id "action_failed" (some e) rt1)
      else if e.event_name == "GOAL_COMPLETED"
      then (returned tt, with_agent env draw (λ a. record a { current_goal = none }) e.npc_id rt1)
      else if e.event_name == "CONVERSATION_ENDED" || e.event_name == "CONVERSATION_INTERRUPTED"
      then (
        returned tt,
        with_agent env draw (λ a. record a { conversation_active = false }) e.npc_id
            (own env draw conversation_ended e.npc_id rt1).1,
      )
      else (returned tt, rt1)

  -- The loop of ReleaseAll.
  unfoldable pub release_each : String → List String → Runtime F → Outcome (Unit {0}) × Runtime F
  release_each reason [] rt = (returned tt, rt)
  release_each reason (npc ∷ npcs) rt =
      let (owner, rt1) = owner_state env draw trim_space parts npc rt in
      let (t, rt2) = own env draw (request_release reason) npc rt1 in
      let skipped = release_each reason npcs rt1 in
      let released =
        and_then env draw (record_change t rt2) (λ u rt3. release_each reason npcs rt3) in
      if owner is rockstar || owner is release then skipped else released

  -- ReleaseAll
  unfoldable pub release_all : String → Runtime F → Outcome (Unit {0}) × Runtime F
  release_all reason rt = release_each reason (owned_npcs rt.manager) rt

  -- Whether an NPC that is idle since `last` may think again at `now`.
  abbrev pub is_idle : F → AgentState F → Bool
  is_idle now a = not (flt (fsub now a.last_decision_at) parts.settings.idle_thinking_seconds)

  -- The loop of maybeScheduleIdleThinking. `busy` was read before it.
  unfoldable pub think_each :
      F → (String → Bool) → List String → Runtime F → Outcome (Unit {0}) × Runtime F
  think_each now busy [] rt = (returned tt, rt)
  think_each now busy (npc ∷ npcs) rt =
      let (owner, rt1) = owner_state env draw trim_space parts npc rt in
      let unseen = think_each now busy npcs rt in
      let skipped = think_each now busy npcs rt1 in
      let thought =
        and_then env draw
          (ignore (schedule_reasoning env draw trim_space parts npc "idle_autonomous" none rt1))
          (λ u rt2. think_each now busy npcs rt2) in
      elim (lookup npc rt.agents.entries) [
        | none ↦ unseen
        | some a ↦
            if a.reasoning || (busy npc || a.dialogue_only)
            then unseen
            else if owner is ai_active
                && (is_tracked (lookup npc rt.last_ped_scan) && is_idle now a)
            then thought
            else skipped
      ]
    where
      is_tracked : {A : Type 0} → Option A → Bool
      is_tracked none = false
      is_tracked (some a) = true

  -- maybeScheduleIdleThinking
  unfoldable pub maybe_schedule_idle_thinking : Runtime F → Outcome (Unit {0}) × Runtime F
  maybe_schedule_idle_thinking rt =
      if fle parts.settings.idle_thinking_seconds (lit 0 0)
      then (returned tt, rt)
      else (let (now, rt') = clock env draw rt in
          think_each now (pending_npc_ids rt'.dispatcher) rt'.agents.order rt')

  -- Tick, which drops both errors.
  unfoldable pub tick : Runtime F → Runtime F
  tick rt = (promote_next_deferred (maybe_schedule_idle_thinking rt).1).1
