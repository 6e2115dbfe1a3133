-- ===== src/Ownership/Edges.antt =====
-- The transition diagram of ownership.go.
use agent_rd.Common.{
  subst, String, Bool, true, false, ◌≡◌, refl, ◌≢◌, Option, none, some, [], ◌∷◌, ◌++◌, arith,
  Float64, if◌then◌else◌,
}
use agent_rd.Ownership.Types.{
  State, rockstar, candidate, aware, ai_active, ai_conversation, quest_dialogue, suspended, release,
  ◌is◌, Transition, event_name, event_name_of,
}
use agent_rd.Ownership.Record.{
  Record, Effect, scan_tests, resume_target, update_from_scan_record, enter_quest_dialogue_record,
  push_to_talk_record, conversation_ended_record, request_release_record, finalize_release_record,
  suspend_record, resume_record,
}
use agent_rd.Ownership.Manager.{
  Op, scan, enter_quest_dialogue, push_to_talk, conversation_ended, finalize_release,
  request_release, suspend, resume, effect,
}

-- What an edge depends on of the method that takes it.
pub data Cause : Type 0 where
  scanned : (eligible meaningful : Bool) → Cause
  quested talked ended finalized released suspending resuming : Cause

module _ {F : Type 0} where
  abbrev pub cause_of : Op F → Cause
  cause_of (scan u) = scanned u.eligible u.meaningful_trigger
  cause_of enter_quest_dialogue = quested
  cause_of push_to_talk = talked
  cause_of conversation_ended = ended
  cause_of finalize_release = finalized
  cause_of (request_release reason) = released
  cause_of (suspend reason) = suspending
  cause_of (resume reason) = resuming

-- States with a body that the runtime may take over by talking to it.
pub data Speakable : State → Type 0 where
  of_aware : Speakable aware
  of_active : Speakable ai_active
  of_conversation : Speakable ai_conversation
  of_quest : Speakable quest_dialogue

-- States in which RELEASE is not yet asked for.
pub data Edge : Cause → State → State → Type 0 where
  notice : (mt : Bool) → Edge (scanned true mt) rockstar candidate
  notice_again : (mt : Bool) → Edge (scanned true mt) release candidate
  complete : (el mt : Bool) → Edge (scanned el mt) release rockstar
  come_close : (mt : Bool) → Edge (scanned true mt) candidate aware
  forget : (el mt : Bool) → Edge (scanned el mt) candidate rockstar
  activate : Edge (scanned true true) aware ai_active
  revoke :
      {s : State} (mt : Bool)
      → s ≢ rockstar
      → s ≢ release
      → s ≢ suspended
      → Edge (scanned false mt) s release
  leave :
      {s : State} (el mt : Bool)
      → s ≢ rockstar
      → s ≢ candidate
      → s ≢ release
      → s ≢ suspended
      → Edge (scanned el mt) s release
  overlay :
      {s : State} → s ≢ quest_dialogue → s ≢ suspended → s ≢ release → Edge quested s quest_dialogue
  talk : {s : State} → Speakable s → Edge talked s ai_conversation
  hang_up : Edge ended ai_conversation ai_active
  finish : Edge finalized release rockstar
  let_go : {s : State} → s ≢ release → Edge released s release
  freeze : {s : State} → s ≢ rockstar → s ≢ suspended → Edge suspending s suspended
  thaw : {s : State} → s ≢ rockstar → s ≢ release → s ≢ suspended → Edge resuming suspended s

resume_target-ne :
    (p : Option State)
    → (resume_target p ≢ rockstar) × (resume_target p ≢ release) × (resume_target p ≢ suspended)
unfolding resume_target
resume_target-ne none = ground arith
resume_target-ne (some s) = ground arith

module _ {F : Type 0} where
  -- No transition leaves the record alone; a transition is the last entry of the history, is
  -- reported as it happened, and follows an edge.
  abbrev pub Follows : Cause → Record F → Effect F → Type 0
  Follows c r (r', none) = r' ≡ r
  Follows c r (r', some t) =
      (t.from ≡ r.state)
      × (t.to ≡ r'.state)
      × (t.npc_id ≡ r.npc_id)
      × (r'.npc_id ≡ r.npc_id)
      × (r'.history ≡ r.history ++ t ∷ [])
      × Edge c r.state r'.state

  ruleset edges = (
    notice, notice_again, complete, come_close, forget, activate, revoke, leave, overlay, talk,
    hang_up, finish, let_go, freeze, thaw,
  )

  scan_tests-Follows :
      (near close far el mt : Bool) (r : Record F) (now : F)
      → Follows (scanned el mt) r (scan_tests near close far el mt r now)
  unfolding scan_tests
  scan_tests-Follows near close far el mt r now = grind (arith, edges)

  quest-Follows : (r : Record F) (now : F) → Follows quested r (enter_quest_dialogue_record r now)
  unfolding enter_quest_dialogue_record
  quest-Follows r now = grind (arith, overlay)

  talk-Follows : (r : Record F) (now : F) → Follows talked r (push_to_talk_record r now)
  unfolding push_to_talk_record
  talk-Follows r now = grind (arith, talk, of_aware, of_active, of_conversation, of_quest)

  ended-Follows : (r : Record F) (now : F) → Follows ended r (conversation_ended_record r now)
  unfolding conversation_ended_record
  ended-Follows r now = grind (arith, hang_up)

  release-Follows :
      (reason : String) (r : Record F) (now : F)
      → Follows released r (request_release_record reason r now)
  unfolding request_release_record
  release-Follows reason r now = grind (arith, let_go)

  finalize-Follows : (r : Record F) (now : F) → Follows finalized r (finalize_release_record r now)
  unfolding finalize_release_record
  finalize-Follows r now = grind (arith, finish)

  suspend-Follows :
      (reason : String) (r : Record F) (now : F)
      → Follows suspending r (suspend_record reason r now)
  unfolding suspend_record
  suspend-Follows reason r now = grind (arith, freeze)

  resume-Follows :
      (reason : String) (r : Record F) (now : F) → Follows resuming r (resume_record reason r now)
  unfolding resume_record
  resume-Follows reason r now = grind (arith, thaw, resume_target-ne r.previous_state)

module _ {F : Type 0} ⦃o : Float64 F⦄ where
  -- Every method of the ownership manager, on every record: where it returns no transition it leaves
  -- the record as it was; a transition that it returns names the NPC, the state before and the state
  -- after, is appended to the history, and follows an edge of the diagram that the method's cause
  -- allows (an ineligible or far scan to RELEASE, an eligible meaningful scan from AWARE to
  -- AI_ACTIVE, and so on).
  pub effect-Follows :
      (op : Op F) (now : F) (r : Record F) → Follows (cause_of op) r (effect op now r)
  unfolding effect update_from_scan_record
  effect-Follows (scan u) now r = scan_tests-Follows _ _ _ u.eligible u.meaningful_trigger r now
  effect-Follows enter_quest_dialogue now r = quest-Follows r now
  effect-Follows push_to_talk now r = talk-Follows r now
  effect-Follows conversation_ended now r = ended-Follows r now
  effect-Follows finalize_release now r = finalize-Follows r now
  effect-Follows (request_release reason) now r = release-Follows reason r now
  effect-Follows (suspend reason) now r = suspend-Follows reason r now
  effect-Follows (resume reason) now r = resume-Follows reason r now

-- The timeline event of a transition by what caused it.
abbrev pub named : Cause → State → State → Option String
named (scanned el mt) s t =
    if t is release
    then some "NPC_RELEASED"
    else if t is ai_active
    then some "NPC_ACTIVATED"
    else none
named quested s t = some "QUEST_DIALOGUE_ENTERED"
named talked s t = none
named ended s t = none
named finalized s t = none
named released s t = if s is suspended then some "AGENT_RESUMED" else some "NPC_RELEASED"
named suspending s t = some "AGENT_SUSPENDED"
named resuming s t = some "AGENT_RESUMED"

Edge-event_name : {c : Cause} {s t : State} → Edge c s t → event_name_of s t ≡ named c s t
unfolding event_name_of
Edge-event_name (notice mt) = refl
Edge-event_name (notice_again mt) = refl
Edge-event_name (complete el mt) = refl
Edge-event_name (come_close mt) = refl
Edge-event_name (forget el mt) = refl
Edge-event_name activate = refl
Edge-event_name (revoke mt p q r) = ground arith
Edge-event_name (leave el mt p q r u) = ground arith
Edge-event_name (overlay p q r) = ground arith
Edge-event_name (talk of_aware) = refl
Edge-event_name (talk of_active) = refl
Edge-event_name (talk of_conversation) = refl
Edge-event_name (talk of_quest) = refl
Edge-event_name hang_up = refl
Edge-event_name finish = refl
Edge-event_name (let_go p) = ground arith
Edge-event_name (freeze p q) = ground arith
Edge-event_name (thaw p q r) = ground arith

module _ {F : Type 0} ⦃o : Float64 F⦄ where
  -- Each transition's timeline event is told by the method that made it: a resume is AGENT_RESUMED, a
  -- suspension AGENT_SUSPENDED, the overlay QUEST_DIALOGUE_ENTERED, a scan NPC_RELEASED or
  -- NPC_ACTIVATED by the state that it leads to and nothing otherwise; talking, hanging up and the end
  -- of a release are no events. A requested release is NPC_RELEASED, except that of a suspended NPC,
  -- which is labelled AGENT_RESUMED.
  pub event_name-effect :
      (op : Op F) (now : F) (r : Record F) (t : Transition F)
      → (effect op now r).1 ≡ some t
      → event_name t ≡ named (cause_of op) t.from t.to
  unfolding event_name
  event_name-effect op now r t e = go (effect op now r) (effect-Follows op now r) e
    where
      go :
          (x : Effect F)
          → Follows (cause_of op) r x
          → x.1 ≡ some t
          → event_name_of t.from t.to ≡ named (cause_of op) t.from t.to
      go (r', none) f e = absurd (cc)
      go (r', some u) f e =
          let same : u ≡ t = cc in
          subst (λ v. event_name_of v.from v.to ≡ named (cause_of op) v.from v.to) same
            (rw (f.0, f.1) (Edge-event_name f.5))
