-- ===== src/Ownership/Record.antt =====
-- The decisions of ownership.go on one record: what each method of Manager does once it has the record.
use agent_rd.Common.{
  String, Bool, true, false, not, ◌&&◌, ◌||◌, Option, none, some, List, [], ◌∷◌, ◌++◌,
  if◌then◌else◌, ◌==◌, Float64, flt, fle, feq, lit, string_eq,
}
use agent_rd.Ownership.Types.{
  State, rockstar, candidate, aware, ai_active, ai_conversation, quest_dialogue, suspended, release,
  ◌is◌, Transition,
}

pub record Record (F : Type 0) : Type 0 where
  pub npc_id : String
  pub state : State
  pub previous_state : Option State
  pub history : List (Transition F)

pub record ScanUpdate (F : Type 0) : Type 0 where
  pub npc_id : String
  pub distance_m : F
  pub eligible : Bool
  pub candidate_distance_m : F
  pub aware_distance_m : F
  pub meaningful_trigger : Bool

unfoldable pub can_reason_in : State → Bool
can_reason_in aware = true
can_reason_in ai_active = true
can_reason_in ai_conversation = true
can_reason_in quest_dialogue = true
can_reason_in _ = false

unfoldable pub can_speak_in : State → Bool
can_speak_in ai_active = true
can_speak_in ai_conversation = true
can_speak_in quest_dialogue = true
can_speak_in _ = false

-- The empty reason stands for the default one.
abbrev pub reason_or : String → String → String
reason_or fallback reason = if reason == "" then fallback else reason

-- A method's effect: the record after it, and the transition that it returns (nil: `none`).
abbrev pub Effect : Type 0 → Type 0
Effect F = Record F × Option (Transition F)

-- The state to resume to: AWARE where nothing was recorded or it cannot be resumed.
unfoldable pub resume_target : Option State → State
resume_target none = aware
resume_target (some s) = if s is rockstar || (s is release || s is suspended) then aware else s

module _ {F : Type 0} where
  -- A fresh record, owned by Rockstar.
  abbrev pub new_record : String → Record F
  new_record id = record { npc_id = id; state = rockstar; previous_state = none; history = [] }

  -- `now` is what domain.Timestamp() reads.
  unfoldable pub transition : Record F → State → String → F → Effect F
  transition r to reason now =
      let applied : Transition F = record {
        npc_id = r.npc_id;
        from = r.state;
        to = to;
        reason = reason;
        timestamp = now;
      } in
      (record r { state = to; history = r.history ++ applied ∷ [] }, some applied)

  -- The `switch` of UpdateFromScan, after the checks that come before it.
  unfoldable pub scan_switch :
      State → (near close far eligible meaningful : Bool) → Record F → F → Effect F
  unfolding transition
  scan_switch rockstar near close far eligible meaningful r now =
      if near && eligible then transition r candidate "player_nearby" now else (r, none)
  scan_switch release near close far eligible meaningful r now =
      if near && eligible
      then transition r candidate "player_nearby" now
      else transition r rockstar "release_complete" now
  scan_switch candidate near close far eligible meaningful r now =
      if close && eligible
      then transition r aware "eligibility_passed" now
      else if far
      then transition r rockstar "candidate_left_area" now
      else (r, none)
  scan_switch aware near close far eligible meaningful r now =
      if meaningful && eligible
      then transition r ai_active "meaningful_trigger" now
      else if far
      then transition r release "aware_left_area" now
      else (r, none)
  scan_switch ai_active near close far eligible meaningful r now =
      if far then transition r release "player_left_area" now else (r, none)
  scan_switch ai_conversation near close far eligible meaningful r now =
      if far then transition r release "player_left_area" now else (r, none)
  scan_switch _ near close far eligible meaningful r now = (r, none)

  -- UpdateFromScan, on the three comparisons of distances: `near` is distance <= candidate radius,
  -- `close` is distance <= aware radius, `far` is distance > candidate radius.
  unfoldable pub scan_tests : (near close far eligible meaningful : Bool) → Record F → F → Effect F
  unfolding scan_switch
  scan_tests near close far eligible meaningful r now =
      if r.state is suspended
      then (r, none)
      else if not eligible && (not (r.state is rockstar) && not (r.state is release))
      then transition r release "eligibility_failed" now
      else if far
          && (not (r.state is rockstar) && (not (r.state is candidate) && not (r.state is release)))
      then transition r release "player_left_area" now
      else scan_switch r.state near close far eligible meaningful r now

  unfoldable pub enter_quest_dialogue_record : Record F → F → Effect F
  unfolding transition
  enter_quest_dialogue_record r now = elim r.state [
    | rockstar ↦ transition r quest_dialogue "quest_dialogue" now
    | candidate ↦ transition r quest_dialogue "quest_dialogue" now
    | aware ↦ transition r quest_dialogue "quest_dialogue" now
    | ai_active ↦ transition r quest_dialogue "quest_dialogue" now
    | ai_conversation ↦ transition r quest_dialogue "quest_dialogue" now
    | _ ↦ (r, none)
  ]

  unfoldable pub push_to_talk_record : Record F → F → Effect F
  unfolding transition
  push_to_talk_record r now = elim r.state [
    | aware ↦ transition r ai_conversation "push_to_talk" now
    | ai_active ↦ transition r ai_conversation "push_to_talk" now
    | ai_conversation ↦ transition r ai_conversation "push_to_talk" now
    | quest_dialogue ↦ transition r ai_conversation "push_to_talk" now
    | _ ↦ (r, none)
  ]

  unfoldable pub conversation_ended_record : Record F → F → Effect F
  unfolding transition
  conversation_ended_record r now =
      if r.state is ai_conversation
      then transition r ai_active "conversation_ended" now
      else (r, none)

  unfoldable pub request_release_record : String → Record F → F → Effect F
  unfolding transition
  request_release_record reason r now =
      if r.state is release
      then (r, none)
      else transition r release (reason_or "release_policy" reason) now

  unfoldable pub finalize_release_record : Record F → F → Effect F
  unfolding transition
  finalize_release_record r now =
      if r.state is release then transition r rockstar "release_complete" now else (r, none)

  unfoldable pub suspend_record : String → Record F → F → Effect F
  unfolding transition
  suspend_record reason r now =
      if r.state is rockstar || r.state is suspended
      then (r, none)
      else transition (record r { previous_state = some r.state }) suspended
          (reason_or "story_safety" reason) now

  unfoldable pub resume_record : String → Record F → F → Effect F
  unfolding transition resume_target
  resume_record reason r now =
      if not (r.state is suspended)
      then (r, none)
      else transition (record r { previous_state = none }) (resume_target r.previous_state)
          (reason_or "story_safety_cleared" reason) now

module _ {F : Type 0} ⦃o : Float64 F⦄ where
  -- A zero distance stands for the default radius.
  abbrev pub distance_or : F → F → F
  distance_or fallback d = if feq d (lit 0 0) then fallback else d

  unfoldable pub update_from_scan_record : ScanUpdate F → Record F → F → Effect F
  unfolding scan_tests
  update_from_scan_record u r now =
      let candidate_distance = distance_or (lit 20 0) u.candidate_distance_m in
      let aware_distance = distance_or (lit 10 0) u.aware_distance_m in
      scan_tests (fle u.distance_m candidate_distance) (fle u.distance_m aware_distance)
        (flt candidate_distance u.distance_m) u.eligible u.meaningful_trigger r now
