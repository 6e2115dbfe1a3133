-- ===== src/Samples/Owners.antt =====
-- Runs of the ownership manager of ownership.go.
use agent_rd.Common.{
  ℕ, String, true, false, none, some, List, [], ◌∷◌, ◌≡◌, refl, ◌≢◌, ◌⊎◌, inl, lookup, insert,
  string_eq, milli_float,
}
use agent_rd.Ownership.Types.{
  State, rockstar, aware, ai_active, ai_conversation, suspended, release, Transition, event_name,
}
use agent_rd.Ownership.Record.{
  Record, ScanUpdate, can_reason_in, can_speak_in, suspend_record, resume_record,
  update_from_scan_record, push_to_talk_record, request_release_record,
}
use agent_rd.Ownership.Manager.{
  Op, scan, push_to_talk, request_release, new_manager, record_of, effect, call, run,
}
use agent_rd.Ownership.Edges.{effect-Follows, event_name-effect, Follows, cause_of, named}
use agent_rd.Ownership.History.{run-IsValid, IsValid}
use agent_rd.Ownership.Safety.{resume-suspend, scan_revokes, scan_speaks}

abbrev near_scan : ScanUpdate ℕ
near_scan = record {
  npc_id = "ped_1";
  distance_m = 5000;
  eligible = true;
  candidate_distance_m = 0;
  aware_distance_m = 0;
  meaningful_trigger = true;
}

abbrev unsafe_scan : ScanUpdate ℕ
unsafe_scan = record near_scan { eligible = false }

abbrev in_state : State → Record ℕ
in_state s = record { npc_id = "ped_1"; state = s; previous_state = none; history = [] }

-- Three scans bring an NPC to AI_ACTIVE, and it may then talk.
abbrev calls : List (Op ℕ × String × ℕ)
calls =
    (scan near_scan, "ped_1", 1)
    ∷ (scan near_scan, "ped_1", 2)
    ∷ (scan near_scan, "ped_1", 3)
    ∷ (push_to_talk, "ped_1", 4)
    ∷ []

abbrev state_after : List (Op ℕ × String × ℕ) → State
state_after cs = elim (lookup "ped_1" (run cs new_manager).records) [
  | none ↦ rockstar
  | some r ↦ r.state
]

calls_talk : state_after calls ≡ ai_conversation
unfolding run call lookup effect insert record_of push_to_talk_record update_from_scan_record
calls_talk = refl

effect-Follows_example :
    Follows
      (cause_of (scan near_scan))
      (in_state aware)
      (effect (scan near_scan) 7 (in_state aware))
effect-Follows_example = effect-Follows (scan near_scan) 7 (in_state aware)

abbrev release_call : Op ℕ
release_call = request_release "shutdown"

abbrev released : Transition ℕ
released = record {
  npc_id = "ped_1";
  from = suspended;
  to = release;
  reason = "shutdown";
  timestamp = 7;
}

release_transition : (effect release_call 7 (in_state suspended)).1 ≡ some released
unfolding effect request_release_record
release_transition = refl

event_name-effect_example : event_name released ≡ named (cause_of release_call) suspended release
event_name-effect_example =
    event_name-effect release_call 7 (in_state suspended) released release_transition

run-IsValid_example : IsValid (run calls new_manager)
run-IsValid_example = run-IsValid calls

active_differs : (in_state ai_active).state ≢ suspended
active_differs e = absurd (cc)

resume-suspend_example :
    ((suspend_record "" (in_state ai_active) 1).0.state ≡ suspended)
    × ((resume_record "" (suspend_record "" (in_state ai_active) 1).0 2).0.state ≡ ai_active)
    × ((resume_record "" (suspend_record "" (in_state ai_active) 1).0 2).0.previous_state ≡ none)
    × (in_state ai_active ≡ in_state ai_active)
    × (in_state ai_active ≡ in_state ai_active)
resume-suspend_example = resume-suspend "" "" (in_state ai_active) 1 2 active_differs

scan_revokes_example :
    can_reason_in (update_from_scan_record unsafe_scan (in_state ai_active) 1).0.state ≡ false
scan_revokes_example = scan_revokes unsafe_scan (in_state ai_active) 1 (inl refl)

scan_activates : can_speak_in (update_from_scan_record near_scan (in_state aware) 1).0.state ≡ true
unfolding can_speak_in update_from_scan_record
scan_activates = refl

scan_speaks_example :
    (can_speak_in aware ≡ true) ⊎ ((aware ≡ aware) × (true ≡ true) × (true ≡ true))
scan_speaks_example = scan_speaks near_scan (in_state aware) 1 scan_activates
