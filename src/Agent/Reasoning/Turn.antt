-- ===== src/Agent/Reasoning/Turn.antt =====
-- scheduleReasoning and what it leaves alone.
use agent_rd.Common.{
  ℕ, suc, String, true, false, not, ◌||◌, Option, none, some, ◌≡◌, refl, ◌∙◌, ap, ◌⊎◌, inl, inr,
  ◌==◌, string_eq, if◌then◌else◌, leb, lookup, Bool-cases, Option-cases, Float64,
}
use agent_rd.Common.{lookup-insert, lookup-insert_self}
use agent_rd.Common.Ordered.{put}
use agent_rd.Domain.Event.{Event, Fresh}
use agent_rd.Ownership.Types.{State, rockstar, ai_active, ai_conversation, ◌is◌}
use agent_rd.Ownership.Record.{new_record}
use agent_rd.Ownership.Manager.{Manager, record_of, can_reason, state_of}
use agent_rd.Timeline.Store.{Env, Outcome, done as returned, failed}
use agent_rd.Agent.Guardrails.{AgentDecision}
use agent_rd.Agent.Runtime.{state_in, AgentState, Runtime, agent_state, with_agent, clock}
use agent_rd.Agent.Reasoning.{
  Parts, AgentContext, owner_state, may_reason, build_context, think, emit_wait_gesture,
  gestures_wanted, call_backend, guarded, turn, schedule_reasoning, reasoning_count, no_decision,
}
use agent_rd.Agent.Reasoning.Frame.{
  Frame, and_then-P, agent_state-P, with_agent-P, if-P, call_tool-P, execute_decision-P,
  apply_speech_policy-P,
}

module _ {F : Type 0} ⦃o : Float64 F⦄ (env : Env F) (draw : ℕ → Fresh F)
    (trim_space : String → String) (parts : Parts F) (P : Runtime F → Type 0) (h : Frame P) where
  pub owner_state-P :
      (npc : String) (rt : Runtime F) → P rt → P (owner_state env draw trim_space parts npc rt).1
  unfolding owner_state state_of
  owner_state-P npc rt p = h.seen npc rt p

  pub may_reason-P :
      (npc : String) (rt : Runtime F) → P rt → P (may_reason env draw trim_space parts npc rt).1
  unfolding may_reason can_reason
  may_reason-P npc rt p = h.seen npc rt p

  build_context-P :
      (npc reason : String) (trigger : Option (Event F)) (rt : Runtime F)
      → P rt
      → P (build_context env draw trim_space parts npc reason trigger rt).1
  unfolding build_context clock
  build_context-P npc reason trigger rt p =
      owner_state-P npc _
        (h.world _ _ (h.drawn _ _ (agent_state-P env draw trim_space parts.tools P h npc rt p)))

  think-P :
      (npc reason : String) (trigger : Option (Event F)) (rt : Runtime F)
      → P rt
      → P (think env draw trim_space parts npc reason trigger rt).1
  unfolding think
  think-P npc reason trigger rt p =
      and_then-P env draw trim_space parts.tools P h _ _
        (call_tool-P env draw trim_space parts.tools P h "think" npc _ rt p) (λ r rt' q. q)

  emit_wait_gesture-P :
      (npc reason : String) (trigger : Option (Event F)) (rt : Runtime F)
      → P rt
      → P (emit_wait_gesture env draw trim_space parts npc reason trigger rt).1
  unfolding emit_wait_gesture
  emit_wait_gesture-P npc reason trigger rt p =
      let q = agent_state-P env draw trim_space parts.tools P h npc rt p in
      let r = owner_state-P npc _ q in
      let (a, rt1) = agent_state env draw npc rt in
      let (owner, rt2) = owner_state env draw trim_space parts npc rt1 in
      if-P env draw trim_space parts.tools P h {A = Outcome (Unit {0})}
        (not parts.settings.thinking.wait_gestures) (returned tt, rt) _ p
        (if-P env draw trim_space parts.tools P h {A = Outcome (Unit {0})}
          (a.dialogue_only || not (gestures_wanted env draw trim_space parts)) (returned tt, rt1) _
          q
          (if-P env draw trim_space parts.tools P h {A = Outcome (Unit {0})}
            (owner is ai_active || owner is ai_conversation)
            (think env draw trim_space parts npc reason trigger rt2) (returned tt, rt2)
            (think-P npc reason trigger rt2 r) r))

  call_backend-P :
      (context : AgentContext F) (rt : Runtime F)
      → P rt
      → P (call_backend env draw trim_space parts context rt).1
  unfolding call_backend
  call_backend-P context rt p = elim (Option-cases parts.backend) [
    | inl none_given ↦ rw (none_given, call_backend) p
    | inr (b, given) ↦ rw (given, call_backend) (go (b.decide rt.drawn context))
  ]
    where
      go :
          (x : Outcome (Option (AgentDecision F)))
          → P
              (elim x as (λ c. Outcome (AgentDecision F) × Runtime F) [
                | failed y ↦ (failed y, rt)
                | returned answer ↦ (
                  returned (elim answer [ none ↦ no_decision | some d ↦ d ]),
                  record rt { drawn = suc rt.drawn },
                )
              ]).1
      go (failed y) = p
      go (returned answer) = h.drawn _ rt p

  turn-P :
      (npc reason : String) (trigger : Option (Event F)) (rt : Runtime F)
      → P rt
      → P (turn env draw trim_space parts npc reason trigger rt).1
  unfolding turn guarded clock
  turn-P npc reason trigger rt p =
      and_then-P env draw trim_space parts.tools P h _ _
        (emit_wait_gesture-P npc reason trigger rt p)
        (λ u rt1 p1.
          and_then-P env draw trim_space parts.tools P h _ _
            (call_backend-P _ _ (build_context-P npc reason trigger rt1 p1))
            (λ d rt3 p3.
              and_then-P env draw trim_space parts.tools P h _ _
                (execute_decision-P env draw trim_space parts.tools P h npc _ _ (
                  apply_speech_policy-P env draw trim_space parts.tools P h parts.settings.speech
                    npc _ reason _ (agent_state-P env draw trim_space parts.tools P h npc rt3 p3)))
                (λ c rt6 p6.
                  with_agent-P env draw trim_space parts.tools P h _ npc _ (h.drawn _ rt6 p6))))

  pub schedule_reasoning-P :
      (npc reason : String) (trigger : Option (Event F)) (rt : Runtime F)
      → P rt
      → P (schedule_reasoning env draw trim_space parts npc reason trigger rt).1
  unfolding schedule_reasoning clock
  schedule_reasoning-P npc reason trigger rt p =
      let q = agent_state-P env draw trim_space parts.tools P h npc rt p in
      let r = may_reason-P npc _ q in
      let (a, rt1) = agent_state env draw npc rt in
      let (allowed, rt2) = may_reason env draw trim_space parts npc rt1 in
      if-P env draw trim_space parts.tools P h {A = Outcome (Option (AgentDecision F))} a.reasoning
        (returned none, rt1) _ q
        (if-P env draw trim_space parts.tools P h {A = Outcome (Option (AgentDecision F))}
          (not allowed
            || leb parts.settings.max_reasoning_agents (reasoning_count rt2.agents.entries))
          (returned none, rt2) _ r
          (with_agent-P env draw trim_space parts.tools P h _ npc _ (
            turn-P npc reason trigger _
              (with_agent-P env draw trim_space parts.tools P h _ npc _ (h.drawn _ _ r)))))

module _ {F : Type 0} ⦃o : Float64 F⦄ (env : Env F) (draw : ℕ → Fresh F)
    (trim_space : String → String) (parts : Parts F) where
  -- A first sight of an NPC leaves every state as it is read.
  state_in-record_of :
      (other id : String) (m : Manager F) → state_in (record_of id m).0 other ≡ state_in m other
  unfolding state_in record_of
  state_in-record_of other id m = elim (Option-cases (lookup id m.records)) [
    | inr (r, known) ↦ rw (known, record_of) refl
    | inl new ↦
        rw (new, record_of, state_in) (rw lookup-insert (same (Bool-cases (other == id)) new))
  ]
    where
      same :
          ((other == id) ≡ true) ⊎ ((other == id) ≡ false)
          → lookup id m.records ≡ none
          → elim (if other == id then some (new_record {F = F} id) else lookup other m.records)
              as (λ x. State) [ none ↦ rockstar | some r ↦ r.state ]
            ≡ elim (lookup other m.records) as (λ x. State) [ none ↦ rockstar | some r ↦ r.state ]
      same (inl hit) new = rw (hit, (string_eq.decides other id).0 hit, new) refl
      same (inr miss) new = rw miss refl

  -- The owners and the queue are as they were.
  abbrev pub IsUntouched : Runtime F → Runtime F → Type 0
  IsUntouched before rt =
      ((id : String) → state_in rt.manager id ≡ state_in before.manager id)
      × (rt.deferred ≡ before.deferred)

  IsUntouched-Frame : (before : Runtime F) → Frame (IsUntouched before)
  IsUntouched-Frame before = record {
    store = λ s rt p. p;
    agents = λ m rt p. p;
    world = λ w rt p. p;
    drawn = λ n rt p. p;
    spoken = λ x rt p. p;
    seen = λ id rt p. ((λ other. state_in-record_of other id rt.manager ∙ p.0 other), p.1);
    dispatcher = λ d rt p. p;
  }

  -- scheduleReasoning leaves every NPC's owner and the deferred queue as they were, whatever the backend
  -- decides and whatever the tools do that it calls, errors and panics included.
  pub schedule_reasoning-IsUntouched :
      (npc reason : String) (trigger : Option (Event F)) (rt : Runtime F)
      → IsUntouched rt (schedule_reasoning env draw trim_space parts npc reason trigger rt).1
  schedule_reasoning-IsUntouched npc reason trigger rt =
      schedule_reasoning-P env draw trim_space parts (IsUntouched rt) (IsUntouched-Frame rt) npc
        reason trigger rt ((λ id. refl), refl)

  agent_state-found :
      (npc : String) (rt : Runtime F) (a : AgentState F)
      → lookup npc rt.agents.entries ≡ some a
      → (agent_state env draw npc rt).0 ≡ a
  unfolding agent_state
  agent_state-found npc rt a e = rw (e, agent_state) refl

  lookup-with_agent :
      (f : AgentState F → AgentState F) (npc : String) (rt : Runtime F)
      → lookup npc (with_agent env draw f npc rt).agents.entries
        ≡ some (f (agent_state env draw npc rt).0)
  unfolding with_agent put
  lookup-with_agent f npc rt = lookup-insert_self npc (f (agent_state env draw npc rt).0) _

  lookup-agent_state :
      (npc : String) (rt : Runtime F)
      → lookup npc (agent_state env draw npc rt).1.agents.entries
        ≡ some (agent_state env draw npc rt).0
  unfolding agent_state put
  lookup-agent_state npc rt = elim (Option-cases (lookup npc rt.agents.entries)) [
    | inl new ↦ rw (new, agent_state) (lookup-insert_self npc _ rt.agents.entries)
    | inr (a, known) ↦ rw (known, agent_state) known
  ]

  -- An NPC that is not reasoning is not reasoning after scheduleReasoning either: on every path,
  -- errors included, the flag is given back.
  pub schedule_reasoning-reasoning :
      (npc reason : String) (trigger : Option (Event F)) (rt : Runtime F)
      → (agent_state env draw npc rt).0.reasoning ≡ false
      → (agent_state env draw npc
          (schedule_reasoning env draw trim_space parts npc reason trigger rt).1).0.reasoning
        ≡ false
  unfolding schedule_reasoning
  schedule_reasoning-reasoning npc reason trigger rt h =
      let (a, rt1) = agent_state env draw npc rt in
      let (allowed, rt2) = may_reason env draw trim_space parts npc rt1 in
      rw (h, schedule_reasoning)
        (elim (Bool-cases (
          not allowed
          || leb parts.settings.max_reasoning_agents (reasoning_count rt2.agents.entries))) [
            | inl t ↦ rw t (
                unfold may_reason in
                ap (λ b. b.reasoning) (agent_state-found npc rt2 a (lookup-agent_state npc rt)) ∙ h)
            | inr f ↦
                rw f (ap (λ b. b.reasoning) (agent_state-found npc _ _ (lookup-with_agent _ npc _)))
          ])
