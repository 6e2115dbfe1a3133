-- ===== src/Agent/Runtime/Conversations.antt =====
-- About the cap on conversations, ensureSingleConversation of scheduler.go.
use agent_rd.Common.{
  ℕ, zero, suc, ◌+◌, ◌-◌, ◌≤◌, min, String, true, false, Option, none, some, List, [], ◌∷◌, ◌≡◌,
  refl, sym, ap, subst, ◌∙◌, inl, inr, string_eq, ltb, length, length-drop, take, drop, Distinct,
  Bool-cases, arith, Float64,
}
use agent_rd.Domain.Event.{Event, Fresh, EventOptions}
use agent_rd.Ownership.Types.{
  ai_conversation, ai_active, ◌is◌, Transition, event_name, event_name_of,
}
use agent_rd.Ownership.Manager.{conversation_ended}
use agent_rd.Timeline.Store.{Env, Outcome, done as returned, failed}
use agent_rd.Agent.Runtime.{
  Runtime, AgentState, transition_reply, by_scheduler, record_ended, log_ended, state_in, talking,
  own, and_then, recorded_name, hand_off, record_transition, append_fact, with_agent, agent_state,
  stop_conversation, stop_conversations, ensure_single_conversation,
}
use agent_rd.Agent.Runtime.Ended.{ended, ended-order, talking-ended, ended-transition}

module _ {F : Type 0} ⦃o : Float64 F⦄ where
  module _ (env : Env F) (draw : ℕ → Fresh F) where
    append_fact-manager :
        (id name : String) (opts : EventOptions F) (rt : Runtime F)
        → (append_fact env draw id name opts rt).1.manager ≡ rt.manager
    unfolding append_fact
    append_fact-manager id name opts rt = refl

    with_agent-manager :
        (f : AgentState F → AgentState F) (id : String) (rt : Runtime F)
        → (with_agent env draw f id rt).manager ≡ rt.manager
    unfolding with_agent agent_state
    with_agent-manager f id rt = ground arith

    module _ (promote : Runtime F → Outcome (Unit {0}) × Runtime F) where
      recorded_name-ended :
          (t : Transition F) → t.from ≡ ai_conversation → t.to ≡ ai_active → recorded_name t ≡ ""
      unfolding recorded_name event_name event_name_of
      recorded_name-ended t f g = rw (f, g) refl

      hand_off-ended :
          (t : Transition F) (rt : Runtime F)
          → t.to ≡ ai_active
          → hand_off env draw promote t rt ≡ (returned tt, rt)
      unfolding hand_off
      hand_off-ended t rt g = rw (g, hand_off) refl

      record_transition-ended :
          (t : Transition F) (rt : Runtime F)
          → t.from ≡ ai_conversation
          → t.to ≡ ai_active
          → record_transition env draw promote t none [] rt ≡ (returned (transition_reply t), rt)
      unfolding record_transition and_then
      record_transition-ended t rt f g =
          rw (recorded_name-ended t f g, record_transition)
            (rw (hand_off-ended t rt g, and_then) refl)

      log_ended-manager :
          (id : String) (rt : Runtime F) → (log_ended env draw promote id rt).1.manager ≡ rt.manager
      unfolding log_ended and_then
      log_ended-manager id rt =
          go (append_fact env draw id "CONVERSATION_ENDED" (by_scheduler env draw promote) rt)
            (append_fact-manager id "CONVERSATION_ENDED" (by_scheduler env draw promote) rt)
        where
          go :
              (x : Outcome (Event F) × Runtime F)
              → x.1.manager ≡ rt.manager
              → (and_then env draw {B = Unit {0}} x (λ _ r. (
                returned tt,
                with_agent env draw (λ a. record a { conversation_active = false }) id r,
              ))).1.manager
                ≡ rt.manager
          go (failed x, r) e = e
          go (returned x, r) e =
              with_agent-manager (λ a. record a { conversation_active = false }) id r ∙ e

      record_ended-same :
          (t : Option (Transition F)) (rt : Runtime F)
          → ((x : Transition F) → t ≡ some x → (x.from ≡ ai_conversation) × (x.to ≡ ai_active))
          → record_ended env draw promote t rt ≡ (returned tt, rt)
      unfolding record_ended and_then
      record_ended-same none rt h = refl
      record_ended-same (some t) rt h =
          rw (record_transition-ended t rt (h t refl).0 (h t refl).1, record_ended) refl

      -- Whatever comes of the appends, the conversation has ended.
      stop_conversation-manager :
          (id : String) (rt : Runtime F)
          → (state_in rt.manager id is ai_conversation) ≡ true
          → (stop_conversation env draw promote id rt).1.manager
            ≡ ended id (draw rt.drawn).now rt.manager
      unfolding stop_conversation own and_then
      stop_conversation-manager id rt h =
          let (t, rt') = own env draw conversation_ended id rt in
          let recorded : record_ended env draw promote t rt' ≡ (returned tt, rt') =
            record_ended-same t rt'
              (λ x e. ended-transition id (draw rt.drawn).now rt.manager x h e) in
          ap
            (λ x.
              (and_then env draw {B = Unit {0}} x
                (λ _ r. log_ended env draw promote id r)).1.manager)
            recorded
          ∙ log_ended-manager id rt'

      -- The rounds after one round, by what they do to the runtime that it leaves.
      next_rounds :
          (npc id : String) (k : ℕ) (others : List String) (now : F) (rt : Runtime F)
          → (x : Outcome (Unit {0}) × Runtime F) → Distinct rt.manager.order
          → talking npc rt.manager.order rt.manager ≡ id ∷ others
          → x.1.manager ≡ ended id now rt.manager
          → ((r : Runtime F)
              → Distinct r.manager.order
              → talking npc r.manager.order r.manager ≡ others
              → (stop_conversations env draw promote (take k others) r).0 ≡ returned tt
              → let m = (stop_conversations env draw promote (take k others) r).1.manager in
                talking npc m.order m ≡ drop k others)
          → (and_then env draw {B = Unit {0}} x
              (λ _ r. stop_conversations env draw promote (take k others) r)).0
            ≡ returned tt
          → let m =
              (and_then env draw {B = Unit {0}} x
                (λ _ r. stop_conversations env draw promote (take k others) r)).1.manager in
            talking npc m.order m ≡ drop k others
      unfolding and_then
      next_rounds npc id k others now rt (failed y, r) d h s ih e = absurd (cc)
      next_rounds npc id k others now rt (returned y, r) d h s ih e =
          let (talks, rest) = talking-ended npc id rt.manager.order others now rt.manager d h in
          let kept = ended-order id now rt.manager talks in
          ih r (subst Distinct (sym (ap (λ m. m.order) s ∙ kept)) d)
            (ap (λ m. talking npc m.order m) s
              ∙ ap (λ ids. talking npc ids (ended id now rt.manager)) kept
              ∙ rest)
            e

      -- Those of the talking that are stopped, from the front.
      stop_conversations-talking :
          (npc : String) (k : ℕ) (active : List String) (rt : Runtime F)
          → Distinct rt.manager.order
          → talking npc rt.manager.order rt.manager ≡ active
          → (stop_conversations env draw promote (take k active) rt).0 ≡ returned tt
          → let m = (stop_conversations env draw promote (take k active) rt).1.manager in
            talking npc m.order m ≡ drop k active
      unfolding stop_conversations and_then
      stop_conversations-talking npc zero active rt d h e = h
      stop_conversations-talking npc (suc k) [] rt d h e = h
      stop_conversations-talking npc (suc k) (id ∷ others) rt d h e =
          let (talks, rest) =
            talking-ended npc id rt.manager.order others (draw rt.drawn).now rt.manager d h in
          next_rounds npc id k others (draw rt.drawn).now rt
            (stop_conversation env draw promote id rt) d h (stop_conversation-manager id rt talks)
            (λ r d' h' e'. stop_conversations-talking npc k others r d' h' e') e

      -- Where the manager lists each NPC once and ensureSingleConversation reports no error, fewer
      -- than the maximum of the other NPCs are in a conversation afterwards (none, for a maximum of
      -- zero), whatever the promotion of deferred NPCs would do.
      pub ensure_single_conversation_lem :
          (most : ℕ) (npc : String) (rt : Runtime F)
          → Distinct rt.manager.order
          → (ensure_single_conversation env draw promote most npc rt).0 ≡ returned tt
          → let m = (ensure_single_conversation env draw promote most npc rt).1.manager in
            length (talking npc m.order m) ≤ most - 1
      unfolding ensure_single_conversation
      ensure_single_conversation_lem most npc rt d e =
          let active = talking npc rt.manager.order rt.manager in
          let k = min (length active + 1 - most) (length active) in
          elim (Bool-cases (ltb (length active) most)) [
            | inl few ↦ rw (few, ensure_single_conversation) (ground arith)
            | inr many ↦
                let left =
                  stop_conversations-talking npc k active rt d refl
                    (sym (rw (many, ensure_single_conversation) refl) ∙ e) in
                rw (many, ensure_single_conversation)
                  (rw left (ground (arith, length-drop k active)))
          ]
