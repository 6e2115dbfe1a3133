-- ===== src/Agent/Reasoning/Frame.antt =====
-- What a reasoning turn leaves alone.
use agent_rd.Common.{
  ℕ, String, Bool, true, false, not, ◌&&◌, ◌||◌, Option, none, some, List, [], ◌∷◌, ◌++◌, inl, inr,
  ◌==◌, string_eq, if◌then◌else◌, Bool-cases, Option-cases, lookup, Float64,
}
use agent_rd.Common.Ordered.{Ordered}
use agent_rd.Domain.Value.{Fields}
use agent_rd.Domain.Event.{EventOptions, Fresh}
use agent_rd.World.{WorldStore}
use agent_rd.Ownership.Manager.{record_of, can_speak}
use agent_rd.Timeline.Store.{Env, Store, Outcome, done as returned, failed}
use agent_rd.Agent.Dispatcher.{Dispatcher, ToolResult}
use agent_rd.Agent.Thinking.{is_listed}
use agent_rd.Agent.Guardrails.{AgentAction, AgentDecision, AgentSpeech}
use agent_rd.Agent.Normalize.{Normalized, kept, dropped, normalize_action}
use agent_rd.Agent.Runtime.{
  AgentState, Runtime, agent_state, with_agent, append_fact, clock, and_then,
}
use agent_rd.Agent.Decision.{
  Called, replied, panicked, Tools, SpeechSettings, fail_tool, tool_context, reached, registry_call,
  call_tool, stabilize_actions, stabilize_decision, invalid_action, only_speech, change_goal,
  change_mood, speak, run_actions, note_speech, carry_out, execute_decision, apply_speech_policy,
  is_goal, has_speech, has_spoken, is_urgent,
}

module _ {F : Type 0} ⦃o : Float64 F⦄ where
  -- A property of the runtime that the timeline, the NPCs' states, the world, the clock and a first
  -- sight of an NPC do not touch, and neither does the dispatcher.
  pub record Frame (P : Runtime F → Type 0) : Type 0 where
    pub store : (s : Store) (rt : Runtime F) → P rt → P (record rt { store = s })
    pub agents :
        (m : Ordered String (AgentState F)) (rt : Runtime F) → P rt → P (record rt { agents = m })
    pub world : (w : WorldStore F) (rt : Runtime F) → P rt → P (record rt { world = w })
    pub drawn : (n : ℕ) (rt : Runtime F) → P rt → P (record rt { drawn = n })
    pub spoken : (x : F) (rt : Runtime F) → P rt → P (record rt { last_global_speech_at = x })
    pub seen :
        (id : String) (rt : Runtime F)
        → P rt
        → P (record rt { manager = (record_of id rt.manager).0 })
    pub dispatcher : (d : Dispatcher F) (rt : Runtime F) → P rt → P (record rt { dispatcher = d })

  module _ (env : Env F) (draw : ℕ → Fresh F) (trim_space : String → String) (tools : Tools F)
      (P : Runtime F → Type 0) (h : Frame P) where
    pub and_then-P :
        {A B : Type 0} (x : Outcome A × Runtime F) (next : A → Runtime F → Outcome B × Runtime F)
        → P x.1
        → ((a : A) (r : Runtime F) → P r → P (next a r).1)
        → P (and_then env draw x next).1
    unfolding and_then
    and_then-P (failed y, rt) next p q = p
    and_then-P (returned a, rt) next p q = q a rt p

    pub append_fact-P :
        (id name : String) (opts : EventOptions F) (rt : Runtime F)
        → P rt
        → P (append_fact env draw id name opts rt).1
    unfolding append_fact
    append_fact-P id name opts rt p = h.drawn _ _ (h.store _ rt p)

    pub agent_state-P : (id : String) (rt : Runtime F) → P rt → P (agent_state env draw id rt).1
    unfolding agent_state
    agent_state-P id rt p = elim (Option-cases (lookup id rt.agents.entries)) [
      | inl new ↦ rw (new, agent_state) (h.agents _ rt p)
      | inr (a, known) ↦ rw (known, agent_state) p
    ]

    pub with_agent-P :
        (f : AgentState F → AgentState F) (id : String) (rt : Runtime F)
        → P rt
        → P (with_agent env draw f id rt)
    unfolding with_agent
    with_agent-P f id rt p = h.agents _ _ (agent_state-P id rt p)

    pub if-P :
        {A : Type 0} (b : Bool) (x y : A × Runtime F) → P x.1 → P y.1 → P (if b then x else y).1
    if-P true x y p q = p
    if-P false x y p q = q

    fail_tool-P :
        (reason message name npc : String) (rt : Runtime F)
        → P rt
        → P (fail_tool env draw trim_space tools reason message name npc rt).1
    unfolding fail_tool
    fail_tool-P reason message name npc rt p =
        let q = h.drawn _ rt p in
        elim (Bool-cases (npc == "")) [
          | inl t ↦ rw (t, fail_tool) q
          | inr f ↦
              rw (f, fail_tool)
                (and_then-P _ _ (append_fact-P npc "ACTION_FAILED" _ _ q) (λ e r pr. pr))
        ]

    registry_call-P :
        (name npc : String) (args : Fields F) (rt : Runtime F)
        → P rt
        → P (registry_call env draw trim_space tools name npc args rt).1
    unfolding registry_call
    registry_call-P name npc args rt p =
        let x = tools.call name args (tool_context npc rt) in
        go (reached x rt) (
          h.drawn x.1.drawn _
            (h.dispatcher x.1.dispatcher _ (h.store x.1.timeline _ (h.world x.1.world rt p))))
      where
        go :
            (x : Called F × Runtime F)
            → P x.1
            → P
                (elim x.0 as (λ c. Outcome (ToolResult F) × Runtime F) [
                  | replied r ↦ (returned r, x.1)
                  | panicked m ↦ fail_tool env draw trim_space tools "panic" m name npc x.1
                ]).1
        go (replied r, rt') q = q
        go (panicked m, rt') q = fail_tool-P "panic" m name npc rt' q

    pub call_tool-P :
        (name npc : String) (args : Fields F) (rt : Runtime F)
        → P rt
        → P (call_tool env draw trim_space tools name npc args rt).1
    unfolding call_tool
    call_tool-P name npc args rt p = elim (Bool-cases (is_listed name tools.names)) [
      | inl t ↦ rw (t, call_tool) (registry_call-P name npc _ rt p)
      | inr f ↦ rw (f, call_tool) (fail_tool-P "KeyError" _ name npc rt p)
    ]

    stabilize_actions-P :
        (npc : String) (d : AgentDecision F) (actions : List (AgentAction F)) (rt : Runtime F)
        → P rt
        → P (stabilize_actions env draw trim_space tools npc d actions rt).1
    unfolding stabilize_actions
    stabilize_actions-P npc d [] rt p = p
    stabilize_actions-P npc d (a ∷ actions) rt p =
        go (normalize_action env trim_space npc a d rt.store)
          (λ r q. stabilize_actions-P npc d actions r q)
      where
        go :
            (n : Normalized F)
            → ((r : Runtime F)
                → P r
                → P (stabilize_actions env draw trim_space tools npc d actions r).1)
            → P
                (elim n as (λ c. Outcome (List (AgentAction F)) × Runtime F) [
                  | kept fixed ↦
                      and_then env draw
                        (stabilize_actions env draw trim_space tools npc d actions rt)
                        (λ rest rt'. (returned (fixed ∷ rest), rt'))
                  | dropped reason ↦
                      if reason == ""
                      then stabilize_actions env draw trim_space tools npc d actions rt
                      else and_then env draw
                          (append_fact env draw npc "ACTION_FAILED"
                            (invalid_action env draw trim_space tools a reason)
                            rt)
                          (λ e rt'. stabilize_actions env draw trim_space tools npc d actions rt')
                ]).1
        go (kept fixed) ih = and_then-P _ _ (ih rt p) (λ rest r q. q)
        go (dropped reason) ih =
            if-P (reason == "") _ _ (ih rt p)
              (and_then-P _ _ (append_fact-P npc "ACTION_FAILED" _ rt p) (λ e r q. ih r q))

    only_speech-P :
        (npc : String) (actions : List (AgentAction F)) (rt : Runtime F)
        → P rt
        → P (only_speech env draw trim_space tools npc actions rt).1
    unfolding only_speech
    only_speech-P npc [] rt p = p
    only_speech-P npc (a ∷ actions) rt p =
        if-P (a.tool == "say") _ _ (and_then-P _ _ (only_speech-P npc actions rt p) (λ rest r q. q))
          (and_then-P _ _ (append_fact-P npc "ACTION_FAILED" _ rt p)
            (λ e r q. only_speech-P npc actions r q))

    change_goal-P :
        (npc goal : String) (rt : Runtime F)
        → P rt
        → P (change_goal env draw trim_space tools npc goal rt).1
    unfolding change_goal
    change_goal-P npc goal rt p =
        let q = agent_state-P npc rt p in
        if-P (goal == "" || is_goal (agent_state env draw npc rt).0.current_goal goal) _ _ q
          (and_then-P _ _ (append_fact-P npc _ _ _ q) (λ e r s. with_agent-P _ npc r s))

    change_mood-P :
        (npc mood : String) (rt : Runtime F)
        → P rt
        → P (change_mood env draw trim_space tools npc mood rt)
    unfolding change_mood
    change_mood-P npc mood rt p = elim (Bool-cases (mood == "")) [
      | inl t ↦ rw t p
      | inr f ↦ rw f (with_agent-P _ npc rt p)
    ]

    speak-P :
        (npc : String) (s : Option AgentSpeech) (rt : Runtime F)
        → P rt
        → P (speak env draw trim_space tools npc s rt).1
    unfolding speak can_speak clock
    speak-P npc none rt p = p
    speak-P npc (some s) rt p =
        let q = h.seen npc rt p in
        if-P (can_speak npc rt.manager).1 _ _
          (and_then-P _ _ (call_tool-P "say" npc _ _ q)
            (λ r rt' z. with_agent-P _ npc _ (h.drawn _ _ z)))
          q

    run_actions-P :
        (npc : String) (spoke : Bool) (actions : List (AgentAction F)) (rt : Runtime F)
        → P rt
        → P (run_actions env draw trim_space tools npc spoke actions rt).1
    unfolding run_actions
    run_actions-P npc spoke [] rt p = p
    run_actions-P npc spoke (a ∷ actions) rt p =
        if-P (a.tool == "say" && spoke) _ _ (run_actions-P npc spoke actions rt p) (
          and_then-P _ _ (call_tool-P a.tool npc a.arguments rt p)
            (λ r rt' q. and_then-P _ _ (run_actions-P npc spoke actions rt' q) (λ rest rt'' z. z)))

    note_speech-P :
        (results : List (ToolResult F)) (rt : Runtime F)
        → P rt
        → P (note_speech env draw trim_space tools results rt)
    unfolding note_speech clock
    note_speech-P results rt p = elim (Bool-cases (has_spoken results)) [
      | inl t ↦ rw t (h.spoken _ _ (h.drawn _ rt p))
      | inr f ↦ rw f p
    ]

    carry_out-P :
        (npc : String) (d : AgentDecision F) (rt : Runtime F)
        → P rt
        → P (carry_out env draw trim_space tools npc d rt).1
    unfolding carry_out
    carry_out-P npc d rt p = and_then-P _ _ (change_goal-P npc _ rt p) (λ u rt1 p1.
        and_then-P _ _ (speak-P npc d.speech _ (change_mood-P npc _ rt1 p1)) (λ said rt2 p2.
          and_then-P _ _ (run_actions-P npc _ d.actions rt2 p2)
            (λ acted rt3 p3. note_speech-P (said ++ acted) rt3 p3)))

    pub execute_decision-P :
        (npc : String) (d : AgentDecision F) (rt : Runtime F)
        → P rt
        → P (execute_decision env draw trim_space tools npc d rt).1
    unfolding execute_decision stabilize_decision
    execute_decision-P npc d rt p =
        let q = agent_state-P npc rt p in
        and_then-P _ _
          (if-P (agent_state env draw npc rt).0.dialogue_only _ _
            (and_then-P _ _ (only_speech-P npc d.actions _ q) (λ a r z. z))
            (and_then-P _ _ (stabilize_actions-P npc d d.actions _ q) (λ a r z. z)))
          (λ checked rt2 p2. and_then-P _ _ (carry_out-P npc checked rt2 p2) (λ results rt3 p3. p3))

    pub apply_speech_policy-P :
        (settings : SpeechSettings F) (npc : String) (d : AgentDecision F) (reason : String)
        → (rt : Runtime F) → P rt
        → P (apply_speech_policy env draw trim_space tools settings npc d reason rt).1
    unfolding apply_speech_policy clock
    apply_speech_policy-P settings npc d reason rt p =
        let q = h.drawn _ _ (agent_state-P npc rt p) in
        if-P (not (has_speech d.speech) || is_urgent reason) _ _ p (if-P _ _ _ q q)
