-- ===== src/Agent/Scheduler/Queue.antt =====
-- The length of the deferred queue under the operations of scheduler.go.
use agent_rd.Common.{
  ℕ, ◌-◌, ◌≤◌, String, Bool, true, false, ◌||◌, Option, none, some, List, [], ◌∷◌, ◌≡◌, refl, ◌==◌,
  string_eq, if◌then◌else◌, length, Dict, arith, Float64,
}
use agent_rd.Common.Ordered.{remove_first}
use agent_rd.Domain.Event.{Event, Fresh}
use agent_rd.Domain.Value.{done}
use agent_rd.Domain.Ped.{PedSnapshot}
use agent_rd.Ownership.Types.{release, rockstar, ◌is◌, Transition}
use agent_rd.Ownership.Manager.{scan}
use agent_rd.Timeline.Store.{Env, Outcome, done as returned}
use agent_rd.Agent.Deferred.{Deferred, remove_deferred, pop_from, pop_deferred}
use agent_rd.Agent.Runtime.{
  AgentState, Runtime, with_agent, own, hand_off, record_transition, recorded_name,
}
use agent_rd.Agent.Reasoning.{Parts, may_reason}
use agent_rd.Agent.Reasoning.Frame.{Frame, and_then-P, if-P, with_agent-P}
use agent_rd.Agent.Reasoning.Turn.{schedule_reasoning-P, may_reason-P}
use agent_rd.Agent.Scheduler.{record_any, activate, reason_if_able, meaningful_scan}

length-remove_first : (k : String) (xs : List String) → length (remove_first k xs) ≤ length xs
unfolding remove_first
length-remove_first k [] = omega arith
length-remove_first k (x ∷ xs) = ground (arith, length-remove_first k xs)

length-remove_deferred :
    (id : String) (q : Deferred) → length (remove_deferred id q).order ≤ length q.order
unfolding remove_deferred
length-remove_deferred id q = ground (arith, length-remove_first id q.order)

length-pop_from :
    (ids : List String) (m : Dict String String) → length (pop_from ids m).1.order ≤ length ids - 1
unfolding pop_from
length-pop_from [] m = omega arith
length-pop_from (id ∷ ids) m = ground (arith, length-pop_from ids m)

pub length-pop_deferred : (q : Deferred) → length (pop_deferred q).1.order ≤ length q.order - 1
unfolding pop_deferred
length-pop_deferred q = length-pop_from q.order q.entries

pop_from-none :
    (ids : List String) (m : Dict String String)
    → (pop_from ids m).0 ≡ none
    → (pop_from ids m).1.order ≡ []
unfolding pop_from
pop_from-none [] m h = refl
pop_from-none (id ∷ ids) m h = ground (arith, pop_from-none ids m)

pub pop_deferred-none : (q : Deferred) → (pop_deferred q).0 ≡ none → (pop_deferred q).1.order ≡ []
unfolding pop_deferred
pop_deferred-none q h = pop_from-none q.order q.entries h

module _ {F : Type 0} ⦃o : Float64 F⦄ where
  -- At most so many NPCs wait.
  abbrev pub IsShort : ℕ → Runtime F → Type 0
  IsShort k rt = length rt.deferred.order ≤ k

  pub IsShort-Frame : (k : ℕ) → Frame (IsShort k)
  IsShort-Frame k = record {
    store = λ s rt p. p;
    agents = λ m rt p. p;
    world = λ w rt p. p;
    drawn = λ n rt p. p;
    spoken = λ x rt p. p;
    seen = λ id rt p. p;
    dispatcher = λ d rt p. p;
  }

  module _ (env : Env F) (draw : ℕ → Fresh F) (trim_space : String → String) (parts : Parts F)
      (k : ℕ) (promote : Runtime F → Outcome (Unit {0}) × Runtime F)
      (shortens : (r : Runtime F) → IsShort k r → IsShort k (promote r).1) where
    abbrev framed : Frame (IsShort k)
    framed = IsShort-Frame k

    if-IsShort :
        (b : Bool) (x y : Runtime F) → IsShort k x → IsShort k y → IsShort k (if b then x else y)
    if-IsShort true x y p q = p
    if-IsShort false x y p q = q

    hand_off-IsShort :
        (x : Transition F) (rt : Runtime F)
        → IsShort k rt
        → IsShort k (hand_off env draw promote x rt).1
    unfolding hand_off own
    hand_off-IsShort x rt p =
        let removed = record rt { deferred = remove_deferred x.npc_id rt.deferred } in
        let fewer = length-remove_deferred x.npc_id rt.deferred in
        let clear : AgentState F → AgentState F =
          λ a. record a { dialogue_only = false; quest_context = done } in
        let cleaned =
          if x.to is release || x.to is rockstar
          then with_agent env draw clear x.npc_id removed
          else rt in
        let short : IsShort k cleaned =
          if-IsShort (x.to is release || x.to is rockstar) _ rt
            (with_agent-P env draw trim_space parts.tools (IsShort k) framed clear x.npc_id removed
              (omega arith))
            p in
        if-P env draw trim_space parts.tools (IsShort k) framed {A = Outcome (Unit {0})}
          (x.to is release) _ (returned tt, cleaned) (shortens _ short) short

    record_transition-IsShort :
        (x : Transition F) (ped : Option (PedSnapshot F)) (reasons : List String) (rt : Runtime F)
        → IsShort k rt
        → IsShort k (record_transition env draw promote x ped reasons rt).1
    unfolding record_transition
    record_transition-IsShort x ped reasons rt p =
        and_then-P env draw trim_space parts.tools (IsShort k) framed _ _
          (if-P env draw trim_space parts.tools (IsShort k) framed (recorded_name x == "") _ _ p
            (and_then-P env draw trim_space parts.tools (IsShort k) framed _ _ p (λ e r q. q)))
          (λ u r q.
            and_then-P env draw trim_space parts.tools (IsShort k) framed _ _
              (hand_off-IsShort x r q) (λ v s z. z))

    record_any-IsShort :
        (x : Option (Transition F)) (rt : Runtime F)
        → IsShort k rt
        → IsShort k (record_any env draw trim_space parts promote x rt).1
    unfolding record_any
    record_any-IsShort none rt p = p
    record_any-IsShort (some x) rt p =
        and_then-P env draw trim_space parts.tools (IsShort k) framed _ _
          (record_transition-IsShort x none [] rt p) (λ m r q. q)

    pub activate-IsShort :
        (npc : String) (rt : Runtime F)
        → IsShort k rt
        → IsShort k (activate env draw trim_space parts promote npc rt).1
    unfolding activate own
    activate-IsShort npc rt p =
        record_any-IsShort
          (own env draw (scan (meaningful_scan env draw trim_space parts npc)) npc rt).0
          (own env draw (scan (meaningful_scan env draw trim_space parts npc)) npc rt).1 p

    pub reason_if_able-IsShort :
        (npc reason : String) (trigger : Option (Event F)) (rt : Runtime F)
        → IsShort k rt
        → IsShort k (reason_if_able env draw trim_space parts npc reason trigger rt).1
    unfolding reason_if_able
    reason_if_able-IsShort npc reason trigger rt p =
        let (allowed, rt') = may_reason env draw trim_space parts npc rt in
        let q = may_reason-P env draw trim_space parts (IsShort k) framed npc rt p in
        if-P env draw trim_space parts.tools (IsShort k) framed {A = Outcome (Unit {0})} allowed _
          (returned tt, rt')
          (and_then-P env draw trim_space parts.tools (IsShort k) framed _ _
            (schedule_reasoning-P env draw trim_space parts (IsShort k) framed npc reason trigger
              rt' q)
            (λ d r z. z))
          q
