-- ===== src/Agent/Runtime/Ended.antt =====
-- What the end of a conversation changes in the ownership manager, and who still talks.
use agent_rd.Common.{
  String, true, not, ◌&&◌, some, List, [], ◌∷◌, ◌≡◌, ◌≢◌, refl, sym, ap, subst, ◌∙◌, inl, inr, ◌==◌,
  string_eq, if◌then◌else◌, All, Distinct, lookup, insert, lookup-insert, Bool-cases, Option-cases,
  arith, Float64,
}
use agent_rd.Ownership.Types.{ai_conversation, ai_active, ◌is◌, Transition}
use agent_rd.Ownership.Record.{Record, conversation_ended_record}
use agent_rd.Ownership.Manager.{Manager, conversation_ended, call, effect, record_of}
use agent_rd.Agent.Runtime.{state_in, talking}

module _ {F : Type 0} ⦃o : Float64 F⦄ where
  abbrev pub ended : String → F → Manager F → Manager F
  ended id now m = (call (conversation_ended, id, now) m).0

  ended-records :
      (id : String) (now : F) (m : Manager F) (r : Record F)
      → lookup id m.records ≡ some r
      → ended id now m
        ≡ record m { records = insert id (conversation_ended_record r now).0 m.records }
  unfolding call record_of effect
  ended-records id now m r e = rw (e, ended, record_of) refl

  -- Ending a conversation that is under way.
  pub ended-order :
      (id : String) (now : F) (m : Manager F)
      → (state_in m id is ai_conversation) ≡ true
      → (ended id now m).order ≡ m.order
  unfolding state_in
  ended-order id now m h = elim (Option-cases (lookup id m.records)) [
    | inl n ↦ absurd (ground arith)
    | inr (r, e) ↦ ap (λ k. k.order) (ended-records id now m r e)
  ]

  ended-state_in :
      (other id : String) (now : F) (m : Manager F)
      → (state_in m id is ai_conversation) ≡ true
      → state_in (ended id now m) other ≡ (if other == id then ai_active else state_in m other)
  unfolding state_in conversation_ended_record
  ended-state_in other id now m h = elim (Option-cases (lookup id m.records)) [
    | inl n ↦ absurd (ground arith)
    | inr (r, e) ↦
        let talks : (r.state is ai_conversation) ≡ true = ground arith in
        let stops : (conversation_ended_record r now).0.state ≡ ai_active = ground arith in
        ap (λ k. state_in k other) (ended-records id now m r e)
        ∙ ground
            (arith, lookup-insert other id (conversation_ended_record r now).0 m.records, stops)
  ]

  talking-All :
      (npc id : String) (ids : List String) (m : Manager F)
      → All (λ j. id ≢ j) ids
      → All (λ j. id ≢ j) (talking npc ids m)
  unfolding talking
  talking-All npc id [] m h = tt
  talking-All npc id (j ∷ ids) m h =
      elim (Bool-cases (not (j == npc) && state_in m j is ai_conversation)) [
        | inl t ↦ rw t (h.0, talking-All npc id ids m h.1)
        | inr u ↦ rw u (talking-All npc id ids m h.1)
      ]

  talking-same :
      (npc id : String) (ids : List String) (now : F) (m : Manager F)
      → (state_in m id is ai_conversation) ≡ true
      → All (λ j. id ≢ j) ids
      → talking npc ids (ended id now m) ≡ talking npc ids m
  unfolding talking
  talking-same npc id [] now m t h = refl
  talking-same npc id (j ∷ ids) now m t h = ground (
    arith,
    ended-state_in j id now m t,
    string_eq.decides j id,
    h.0,
    talking-same npc id ids now m t h.1,
  )

  -- The first of those that talk talks no more, and the others still do.
  pub talking-ended :
      (npc id : String) (ids others : List String) (now : F) (m : Manager F)
      → Distinct ids
      → talking npc ids m ≡ id ∷ others
      → ((state_in m id is ai_conversation) ≡ true) × (talking npc ids (ended id now m) ≡ others)
  unfolding talking
  talking-ended npc id [] others now m d h = absurd (cc)
  talking-ended npc id (j ∷ ids) others now m d h =
      elim (Bool-cases (not (j == npc) && state_in m j is ai_conversation)) [
        | inl t ↦
            let e : j ∷ talking npc ids m ≡ id ∷ others = sym (rw t refl) ∙ h in
            let same : j ≡ id = cc in
            let rest : talking npc ids m ≡ others = cc in
            let talks : (state_in m id is ai_conversation) ≡ true =
              subst (λ k. (state_in m k is ai_conversation) ≡ true) same (ground arith) in
            let apart = subst (λ k. All (λ i. k ≢ i) ids) same d.0 in
            (
              talks,
              ground (
                arith,
                ended-state_in j id now m talks,
                string_eq.decides j id,
                talking-same npc id ids now m talks apart,
              ),
            )
        | inr u ↦
            let e : talking npc ids m ≡ id ∷ others = sym (rw u refl) ∙ h in
            let (talks, rest) = talking-ended npc id ids others now m d.1 e in
            let apart = (subst (All (λ i. j ≢ i)) e (talking-All npc j ids m d.0)).0 in
            (
              talks,
              ground (arith, ended-state_in j id now m talks, string_eq.decides j id, apart, rest),
            )
      ]

  -- The transition that ending a conversation returns.
  pub ended-transition :
      (id : String) (now : F) (m : Manager F) (t : Transition F)
      → (state_in m id is ai_conversation) ≡ true
      → (call (conversation_ended, id, now) m).1 ≡ some t
      → (t.from ≡ ai_conversation) × (t.to ≡ ai_active)
  unfolding call record_of effect state_in conversation_ended_record
  ended-transition id now m t h e = elim (Option-cases (lookup id m.records)) [
    | inl n ↦ absurd (ground arith)
    | inr (r, there) ↦
        let talks : (r.state is ai_conversation) ≡ true = ground arith in
        let same : (conversation_ended_record r now).1 ≡ some t =
          sym (rw (there, record_of) refl) ∙ e in
        ground arith
  ]
