-- ===== src/Agent/Scheduler/Promotion.antt =====
-- promoteNextDeferred: how its loop ends.
use Prim.Native.String.{◌++◌ as str_append}
use agent_rd.Common.{
  ℕ, zero, suc, ◌≤◌, String, Bool, true, false, ◌||◌, none, some, List, [], ◌∷◌, ◌≡◌, refl, ap, ◌⊎◌,
  inl, inr, ltb, length, lookup, Bool-cases, Option-cases, arith, Float64, string_eq,
}
use agent_rd.Domain.Event.{Fresh}
use agent_rd.Ownership.Types.{aware, ◌is◌}
use agent_rd.Ownership.Manager.{record_of, state_of}
use agent_rd.Timeline.Store.{Env, Error, Outcome, done as returned, failed}
use agent_rd.Agent.Deferred.{pop_deferred}
use agent_rd.Agent.Runtime.{Runtime, and_then}
use agent_rd.Agent.Reasoning.{Parts, owner_state}
use agent_rd.Agent.Reasoning.Frame.{and_then-P}
use agent_rd.Agent.Scheduler.{
  active_agent_count, max_active_agents, can_promote_agent, activate, reason_if_able,
  make_meaningful, may_promote, promote_rounds, promote_next_deferred,
}
use agent_rd.Agent.Scheduler.Queue.{
  IsShort, IsShort-Frame, length-pop_deferred, pop_deferred-none, activate-IsShort,
  reason_if_able-IsShort,
}

module _ {F : Type 0} ⦃o : Float64 F⦄ (env : Env F) (draw : ℕ → Fresh F)
    (trim_space : String → String) (parts : Parts F) where
  -- An NPC that is aware has a record, so that asking for its state changes nothing.
  owner_state-known :
      (npc : String) (rt : Runtime F)
      → ((owner_state env draw trim_space parts npc rt).0 is aware) ≡ true
      → (owner_state env draw trim_space parts npc rt).1 ≡ rt
  unfolding owner_state state_of record_of
  owner_state-known npc rt h = elim (Option-cases (lookup npc rt.manager.records)) [
    | inl unknown ↦ absurd (ground arith)
    | inr (r, known) ↦ rw (known, owner_state, state_of, record_of) refl
  ]

  or_true : (a b : Bool) → b ≡ true → (a || b) ≡ true
  or_true a b h = ground arith

  can_promote_aware :
      (npc : String) (rt : Runtime F)
      → ((owner_state env draw trim_space parts npc rt).0 is aware) ≡ true
      → ltb (active_agent_count rt) (max_active_agents env draw trim_space parts) ≡ true
      → can_promote_agent env draw trim_space parts npc rt ≡ (true, rt)
  unfolding can_promote_agent
  can_promote_aware npc rt h room =
      rw (owner_state-known npc rt h, can_promote_agent) (ap (λ b. (b, rt)) (or_true _ _ room))

  module _ (promote : Runtime F → Outcome (Unit {0}) × Runtime F) where
    -- makeMeaningful on an NPC that is aware, where there is room.
    make_meaningful_aware :
        (npc reason : String) (rt : Runtime F)
        → ((owner_state env draw trim_space parts npc rt).0 is aware) ≡ true
        → ltb (active_agent_count rt) (max_active_agents env draw trim_space parts) ≡ true
        → make_meaningful env draw trim_space parts promote npc reason none rt
          ≡ and_then env draw
              (activate env draw trim_space parts promote npc rt)
              (λ u rt'. reason_if_able env draw trim_space parts npc reason none rt')
    unfolding make_meaningful
    make_meaningful_aware npc reason rt h room =
        rw (owner_state-known npc rt h, h, make_meaningful)
          (rw (can_promote_aware npc rt h room) refl)

  abbrev popped : Runtime F → Runtime F
  popped rt = record rt { deferred = (pop_deferred rt.deferred).1 }

  abbrev promotion_reason : String → String
  promotion_reason reason = str_append "deferred_promotion:" reason

  -- One round, on an NPC that is still aware.
  abbrev promotion :
      (Runtime F → Outcome (Unit {0}) × Runtime F)
      → String
      → String
      → Runtime F
      → Outcome (Unit {0}) × Runtime F
  promotion promote npc reason rt =
      and_then env draw (activate env draw trim_space parts promote npc rt)
        (λ u rt'. reason_if_able env draw trim_space parts npc (promotion_reason reason) none rt')

  round_stop :
      (n : ℕ) (rt : Runtime F)
      → may_promote env draw trim_space parts rt ≡ false
      → promote_rounds env draw trim_space parts (suc n) rt ≡ (returned tt, rt)
  unfolding promote_rounds
  round_stop n rt f = rw (f, promote_rounds) refl

  round_empty :
      (n : ℕ) (rt : Runtime F)
      → may_promote env draw trim_space parts rt ≡ true
      → (pop_deferred rt.deferred).0 ≡ none
      → promote_rounds env draw trim_space parts (suc n) rt ≡ (returned tt, popped rt)
  unfolding promote_rounds
  round_empty n rt t e = rw (t, e, promote_rounds) refl

  round_past :
      (n : ℕ) (npc reason : String) (rt : Runtime F)
      → may_promote env draw trim_space parts rt ≡ true
      → (pop_deferred rt.deferred).0 ≡ some (npc, reason)
      → ((owner_state env draw trim_space parts npc (popped rt)).0 is aware) ≡ false
      → promote_rounds env draw trim_space parts (suc n) rt
        ≡ promote_rounds env draw trim_space parts n
            (owner_state env draw trim_space parts npc (popped rt)).1
  unfolding promote_rounds
  round_past n npc reason rt t e f = rw (t, e, f, promote_rounds) refl

  round_promote :
      (n : ℕ) (npc reason : String) (rt : Runtime F)
      → may_promote env draw trim_space parts rt ≡ true
      → (pop_deferred rt.deferred).0 ≡ some (npc, reason)
      → ((owner_state env draw trim_space parts npc (popped rt)).0 is aware) ≡ true
      → promote_rounds env draw trim_space parts (suc n) rt
        ≡ and_then env draw
            (promotion (promote_rounds env draw trim_space parts n) npc reason (popped rt))
            (λ u rt'. promote_rounds env draw trim_space parts n rt')
  unfolding promote_rounds
  round_promote n npc reason rt t e h =
      let room : ltb (active_agent_count rt) (max_active_agents env draw trim_space parts) ≡ true =
        ground arith in
      rw (t, e, h, owner_state-known npc (popped rt) h, promote_rounds)
        (ap (λ x. and_then env draw x (λ u rt'. promote_rounds env draw trim_space parts n rt'))
          (make_meaningful_aware (promote_rounds env draw trim_space parts n) npc
            (promotion_reason reason) (popped rt) h room))

  -- The ways a round can go.
  data Round (rt : Runtime F) : Type 0 where
    stop : may_promote env draw trim_space parts rt ≡ false → Round rt
    empty :
        may_promote env draw trim_space parts rt ≡ true
        → (pop_deferred rt.deferred).0 ≡ none
        → Round rt
    past :
        (npc reason : String)
        → may_promote env draw trim_space parts rt ≡ true
        → (pop_deferred rt.deferred).0 ≡ some (npc, reason)
        → ((owner_state env draw trim_space parts npc (popped rt)).0 is aware) ≡ false
        → Round rt
    promoted :
        (npc reason : String)
        → may_promote env draw trim_space parts rt ≡ true
        → (pop_deferred rt.deferred).0 ≡ some (npc, reason)
        → ((owner_state env draw trim_space parts npc (popped rt)).0 is aware) ≡ true
        → Round rt

  Round-cases : (rt : Runtime F) → Round rt
  Round-cases rt = elim (Bool-cases (may_promote env draw trim_space parts rt)) [
    | inr f ↦ stop f
    | inl t ↦ elim (Option-cases (pop_deferred rt.deferred).0) [
      | inl e ↦ empty t e
      | inr ((npc, reason), e) ↦
          elim (Bool-cases ((owner_state env draw trim_space parts npc (popped rt)).0 is aware)) [
            | inl h ↦ promoted npc reason t e h
            | inr h ↦ past npc reason t e h
          ]
    ]
  ]

  abbrev rounds : ℕ → Runtime F → Outcome (Unit {0}) × Runtime F
  rounds = promote_rounds env draw trim_space parts

  promotion-IsShort :
      (k : ℕ) (promote : Runtime F → Outcome (Unit {0}) × Runtime F)
      → ((r : Runtime F) → IsShort k r → IsShort k (promote r).1)
      → (npc reason : String) (rt : Runtime F) → IsShort k rt
      → IsShort k (promotion promote npc reason rt).1
  promotion-IsShort k promote shortens npc reason rt p =
      and_then-P env draw trim_space parts.tools (IsShort k) (IsShort-Frame k) _ _
        (activate-IsShort env draw trim_space parts k promote shortens npc rt p)
        (λ u r q.
          reason_if_able-IsShort env draw trim_space parts k promote shortens npc
            (promotion_reason reason) none r q)

  rounds-IsShort : (n k : ℕ) (rt : Runtime F) → IsShort k rt → IsShort k (rounds n rt).1
  unfolding promote_rounds owner_state
  rounds-IsShort zero k rt p = p
  rounds-IsShort (suc n) k rt p =
      let q : IsShort k (popped rt) = omega (arith, length-pop_deferred rt.deferred) in
      elim (Round-cases rt) [
        | stop f ↦ rw (round_stop n rt f) p
        | empty y e ↦ rw (round_empty n rt y e) q
        | past npc reason y e h ↦ rw (round_past n npc reason rt y e h) (rounds-IsShort n k _ q)
        | promoted npc reason y e h ↦ rw (round_promote n npc reason rt y e h) (
            and_then-P env draw trim_space parts.tools (IsShort k) (IsShort-Frame k) _ _
              (promotion-IsShort k (rounds n) (λ r z. rounds-IsShort n k r z) npc reason (popped rt)
                q)
              (λ u r z. rounds-IsShort n k r z))
      ]

  -- The loop ended by an error, or by its own condition.
  abbrev pub IsEnded : Outcome (Unit {0}) × Runtime F → Type 0
  IsEnded x = ((e : Error) × (x.0 ≡ failed e)) ⊎ (may_promote env draw trim_space parts x.1 ≡ false)

  and_then-IsEnded :
      (n : ℕ) (x : Outcome (Unit {0}) × Runtime F)
      → IsShort n x.1
      → ((r : Runtime F) → IsShort n r → IsEnded (rounds n r))
      → IsEnded (and_then env draw x (λ u r. rounds n r))
  unfolding and_then
  and_then-IsEnded n (failed e, r) p ih = inl (e, refl)
  and_then-IsEnded n (returned u, r) p ih = ih r p

  short_stop :
      (rt : Runtime F) → rt.deferred.order ≡ [] → may_promote env draw trim_space parts rt ≡ false
  short_stop rt e = rw (e, may_promote) refl

  length_zero : (ids : List String) → length ids ≤ 0 → ids ≡ []
  length_zero [] p = refl
  length_zero (id ∷ ids) p = absurd (omega arith)

  rounds-IsEnded : (n : ℕ) (rt : Runtime F) → IsShort n rt → IsEnded (rounds n rt)
  unfolding promote_rounds owner_state
  rounds-IsEnded zero rt p = inr (short_stop rt (length_zero rt.deferred.order p))
  rounds-IsEnded (suc n) rt p =
      let q : IsShort n (popped rt) = omega (arith, length-pop_deferred rt.deferred) in
      elim (Round-cases rt) [
        | stop f ↦ rw (round_stop n rt f) (inr f)
        | empty y e ↦
            rw (round_empty n rt y e)
              (inr (short_stop (popped rt) (pop_deferred-none rt.deferred e)))
        | past npc reason y e h ↦ rw (round_past n npc reason rt y e h) (rounds-IsEnded n _ q)
        | promoted npc reason y e h ↦ rw (round_promote n npc reason rt y e h) (
            and_then-IsEnded n _
              (promotion-IsShort n (rounds n) (λ r z. rounds-IsShort n n r z) npc reason (popped rt)
                q)
              (λ r z. rounds-IsEnded n r z))
      ]

  -- promoteNextDeferred ends within as many rounds as NPCs wait: with an error, or with nobody waiting or every slot of an active agent taken. It
  -- leaves no more NPCs waiting than it found.
  pub promote_next_deferred-IsEnded :
      (rt : Runtime F)
      → IsEnded (promote_next_deferred env draw trim_space parts rt)
        × (length (promote_next_deferred env draw trim_space parts rt).1.deferred.order
            ≤ length rt.deferred.order)
  unfolding promote_next_deferred
  promote_next_deferred-IsEnded rt = (
    rounds-IsEnded (length rt.deferred.order) rt (omega arith),
    rounds-IsShort (length rt.deferred.order) (length rt.deferred.order) rt (omega arith),
  )
