-- ===== src/Agent/Runtime.antt =====
-- The runtime's state in runtime-go/internal/agent/agent.go, and from
-- runtime-go/internal/agent/scheduler.go recordTransition and ensureSingleConversation.
pub mod Ended
pub mod Conversations
use agent_rd.Common.{
  ℕ, zero, suc, ◌+◌, ◌-◌, min, String, Bool, true, false, not, ◌&&◌, ◌||◌, Option, none, some, List,
  [], ◌∷◌, ◌++◌, ◌==◌, string_eq, if◌then◌else◌, ltb, length, take, Dict, lookup, insert, Float64,
  lit,
}
use agent_rd.Common.Ordered.{Ordered, put}
use agent_rd.Domain.Value.{Value, Fields, null, str, strings, done, field, get}
use agent_rd.Domain.Event.{Event, EventOptions, Fresh}
use agent_rd.Domain.Ped.{PedSnapshot}
use agent_rd.Ownership.Types.{
  State, rockstar, ai_active, ai_conversation, suspended, release, ◌is◌, state_name, Transition,
  event_name,
}
use agent_rd.Ownership.Manager.{Manager, Op, conversation_ended, finalize_release, call}
use agent_rd.Timeline.Store.{
  Env, Store, Outcome, done as returned, failed, append_event, recent_events,
}
use agent_rd.World.{WorldStore}
use agent_rd.Agent.Deferred.{Deferred, remove_deferred}
use agent_rd.Agent.Dispatcher.{Dispatcher}

pub record AgentState (F : Type 0) : Type 0 where
  pub npc_id : String
  pub current_goal : Option String
  pub mood : String
  pub conversation_active : Bool
  pub last_spoken_at : F
  pub last_decision_at : F
  pub reasoning : Bool
  pub dialogue_only : Bool
  pub quest_context : Fields F

-- The state in Runtime; its other fields do not change. `drawn` counts what was drawn of the clock and of
-- fresh identifiers.
pub record Runtime (F : Type 0) : Type 0 where
  pub manager : Manager F
  pub store : Store
  pub agents : Ordered String (AgentState F)
  pub deferred : Deferred
  pub dispatcher : Dispatcher F
  pub world : WorldStore F
  pub last_ped_scan : Dict String (PedSnapshot F)
  pub last_global_speech_at : F
  pub drawn : ℕ

module _ {F : Type 0} where
  abbrev pub goal_of : Value F → Option String
  goal_of (str goal) = some goal
  goal_of _ = none

  -- The backward scan of agentStateLocked: `none` where no event decides.
  unfoldable pub goal_scan : List (Event F) → Option (Option String)
  unfolding get
  goal_scan [] = none
  goal_scan (e ∷ es) =
      let rest = goal_scan es in
      elim rest [
        | some found ↦ some found
        | none ↦
            if e.event_name == "GOAL_COMPLETED"
            then some none
            else if e.event_name == "GOAL_CREATED" || e.event_name == "GOAL_CHANGED"
            then some (goal_of (get "goal" e.payload))
            else none
      ]

  unfoldable pub restored_goal : Outcome (List (Event F)) → Option String
  unfolding goal_scan
  restored_goal (failed x) = none
  restored_goal (returned events) = elim (goal_scan events) [ none ↦ none | some goal ↦ goal ]

  -- The state of an NPC that the manager lists. Reading it creates no record.
  unfoldable pub state_in : Manager F → String → State
  state_in m id = elim (lookup id m.records) [ none ↦ rockstar | some r ↦ r.state ]

  -- The names in the list that are in a conversation, but for one.
  unfoldable pub talking : String → List String → Manager F → List String
  unfolding state_in
  talking npc [] m = []
  talking npc (id ∷ ids) m =
      let rest = talking npc ids m in
      if not (id == npc) && state_in m id is ai_conversation then id ∷ rest else rest

  -- The timeline event of recordTransition; "" where there is none.
  unfoldable pub recorded_name : Transition F → String
  unfolding event_name
  recorded_name t = elim (event_name t) [
    | some name ↦ name
    | none ↦ if t.to is ai_conversation then "CONVERSATION_STARTED" else ""
  ]

  unfoldable pub transition_data : Transition F → Option (PedSnapshot F) → List String → Fields F
  unfolding state_name
  transition_data t ped reasons = field "from_state" (str (state_name t.from)) (
      field "to_state" (str (state_name t.to)) (
        field "reason" (str t.reason) (elim ped [
          | none ↦ listed reasons
          | some p ↦ field "entity" (str p.entity_id) (
              if p.model == ""
              then listed reasons
              else field "model" (str p.model) (listed reasons))
        ])))
    where
      listed : List String → Fields F
      listed [] = done
      listed (r ∷ rs) = field "eligibility_reasons" (strings (r ∷ rs)) done

  -- What recordTransition replies.
  unfoldable pub transition_reply : Transition F → Fields F
  unfolding recorded_name state_name
  transition_reply t = field "npc_id" (str t.npc_id) (
      field "from" (str (state_name t.from)) (
        field "to" (str (state_name t.to)) (
          field "reason" (str t.reason) (
            field "event_name" (if recorded_name t == "" then null else str (recorded_name t))
              done))))

module _ {F : Type 0} ⦃o : Float64 F⦄ (env : Env F) (draw : ℕ → Fresh F) where
  -- agentStateLocked
  unfoldable pub agent_state : String → Runtime F → AgentState F × Runtime F
  unfolding restored_goal put
  agent_state id rt = elim (lookup id rt.agents.entries) [
    | some a ↦ (a, rt)
    | none ↦
        let created : AgentState F = record {
          npc_id = id;
          current_goal = restored_goal (recent_events env id 50 rt.store);
          mood = "neutral";
          conversation_active = false;
          last_spoken_at = lit 0 0;
          last_decision_at = lit 0 0;
          reasoning = false;
          dialogue_only = false;
          quest_context = done;
        } in
        (created, record rt { agents = put id created rt.agents })
  ]

  -- A change through the pointer that agentStateLocked returns.
  unfoldable pub with_agent : (AgentState F → AgentState F) → String → Runtime F → Runtime F
  unfolding agent_state put
  with_agent f id rt =
      let (a, rt') = agent_state id rt in record rt' { agents = put id (f a) rt'.agents }

  abbrev pub options : F → List String → Fields F → EventOptions F
  options importance tags payload = record {
    payload = payload;
    entities = [];
    tags = tags;
    summary = none;
    importance = some importance;
    game_time = none;
    location = none;
    timestamp = none;
  }

  -- appendEvent
  unfoldable pub append_fact :
      String → String → EventOptions F → Runtime F → Outcome (Event F) × Runtime F
  unfolding append_event
  append_fact id name opts rt =
      let (r, s) = append_event env (draw rt.drawn) id name opts rt.store in
      (r, record rt { store = s; drawn = suc rt.drawn })

  -- A method of the ownership manager, which reads the clock.
  unfoldable pub own : Op F → String → Runtime F → Option (Transition F) × Runtime F
  unfolding call
  own op id rt =
      let (m, t) = call (op, id, (draw rt.drawn).now) rt.manager in
      (t, record rt { manager = m; drawn = suc rt.drawn })

  -- `r.now()`
  unfoldable pub clock : Runtime F → F × Runtime F
  clock rt = ((draw rt.drawn).now, record rt { drawn = suc rt.drawn })

  -- `return nil` after a step that may fail.
  unfoldable pub and_then :
      {A B : Type 0}
      → Outcome A × Runtime F
      → (A → Runtime F → Outcome B × Runtime F)
      → Outcome B × Runtime F
  and_then (failed x, rt) next = (failed x, rt)
  and_then (returned a, rt) next = next a rt

  module _ (promote : Runtime F → Outcome (Unit {0}) × Runtime F) where
    -- The hand-off after a release, at the end of recordTransition.
    unfoldable pub hand_off : Transition F → Runtime F → Outcome (Unit {0}) × Runtime F
    unfolding own with_agent remove_deferred
    hand_off t rt =
        let cleaned =
          if t.to is release || t.to is rockstar
          then with_agent (λ a. record a { dialogue_only = false; quest_context = done }) t.npc_id
              (record rt { deferred = remove_deferred t.npc_id rt.deferred })
          else rt in
        if t.to is release
        then promote (own finalize_release t.npc_id cleaned).1
        else (returned tt, cleaned)

    -- recordTransition. `promote` is promoteNextDeferred, which may come back to it.
    unfoldable pub record_transition :
        Transition F
        → Option (PedSnapshot F)
        → List String
        → Runtime F
        → Outcome (Fields F) × Runtime F
    unfolding append_fact hand_off recorded_name transition_data transition_reply
    record_transition t ped reasons rt =
        let importance =
          if t.to is ai_active || (t.to is release || t.to is suspended)
          then lit 8 1
          else lit 3 1 in
        let recorded : Outcome (Unit {0}) × Runtime F =
          if recorded_name t == ""
          then (returned tt, rt)
          else and_then
              (append_fact t.npc_id (recorded_name t)
                (options importance ("ownership" ∷ []) (transition_data t ped reasons)) rt)
              (λ e rt'. (returned tt, rt')) in
        and_then recorded
          (λ _ rt'. and_then (hand_off t rt') (λ _ rt''. (returned (transition_reply t), rt'')))

    abbrev pub by_scheduler : EventOptions F
    by_scheduler =
        options (lit 3 1) ("conversation" ∷ "scheduler" ∷ [])
          (field "by" (str "scheduler") (field "reason" (str "max_conversation_agents") done))

    -- One round of the loop of ensureSingleConversation.
    unfoldable pub record_ended : Option (Transition F) → Runtime F → Outcome (Unit {0}) × Runtime F
    unfolding record_transition
    record_ended none rt = (returned tt, rt)
    record_ended (some t) rt =
        and_then (record_transition t none [] rt) (λ _ rt'. (returned tt, rt'))

    unfoldable pub log_ended : String → Runtime F → Outcome (Unit {0}) × Runtime F
    unfolding append_fact with_agent
    log_ended id rt =
        and_then (append_fact id "CONVERSATION_ENDED" by_scheduler rt) (λ _ rt'.
          (returned tt, with_agent (λ a. record a { conversation_active = false }) id rt'))

    unfoldable pub stop_conversation : String → Runtime F → Outcome (Unit {0}) × Runtime F
    unfolding own record_ended log_ended
    stop_conversation id rt =
        let (t, rt') = own conversation_ended id rt in
        and_then (record_ended t rt') (λ _ rt''. log_ended id rt'')

    unfoldable pub stop_conversations : List String → Runtime F → Outcome (Unit {0}) × Runtime F
    unfolding stop_conversation
    stop_conversations [] rt = (returned tt, rt)
    stop_conversations (id ∷ ids) rt =
        and_then (stop_conversation id rt) (λ _ r. stop_conversations ids r)

    -- ensureSingleConversation; 0 stands for every maximum <= 0.
    unfoldable pub ensure_single_conversation :
        ℕ → String → Runtime F → Outcome (Unit {0}) × Runtime F
    unfolding talking stop_conversations
    ensure_single_conversation most npc rt =
        let active = talking npc rt.manager.order rt.manager in
        if ltb (length active) most
        then (returned tt, rt)
        else stop_conversations (take (min (length active + 1 - most) (length active)) active) rt
