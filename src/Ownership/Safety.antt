-- ===== src/Ownership/Safety.antt =====
-- When the ownership manager lets the runtime reason and speak, and when it takes that back.
use agent_rd.Common.{
  String, Bool, true, false, ◌≡◌, ◌≢◌, ◌⊎◌, inl, inr, none, arith, Float64, if◌then◌else◌, fle, flt,
  lit,
}
use agent_rd.Ownership.Types.{rockstar, aware, suspended, release, ◌is◌}
use agent_rd.Ownership.Record.{
  Record, ScanUpdate, scan_tests, update_from_scan_record, can_reason_in, can_speak_in,
  suspend_record, resume_record, distance_or,
}

module _ {F : Type 0} where
  scan_tests-revokes :
      (near close far mt : Bool) (r : Record F) (now : F)
      → can_reason_in (scan_tests near close far false mt r now).0.state ≡ false
  unfolding scan_tests can_reason_in
  scan_tests-revokes near close far mt r now = ground arith

  scan_tests-far :
      (near el mt : Bool) (r : Record F) (now : F)
      → can_reason_in (scan_tests near false true el mt r now).0.state ≡ false
  unfolding scan_tests can_reason_in
  scan_tests-far near el mt r now = ground arith

  scan_tests-speak :
      (near close far el mt : Bool) (r : Record F) (now : F)
      → can_speak_in (scan_tests near close far el mt r now).0.state ≡ true
      → (can_speak_in r.state ≡ true) ⊎ ((r.state ≡ aware) × (el ≡ true) × (mt ≡ true))
  unfolding scan_tests can_speak_in
  scan_tests-speak near close far el mt r now = ground arith

  -- Of a record that is not suspended: suspending it leads to SUSPENDED and resuming it then gives its
  -- state back, or AWARE where it was in RELEASE, and leaves no saved state. A record of ROCKSTAR is
  -- neither suspended nor resumed: both leave the whole record as it was, its history included.
  pub resume-suspend :
      (reason why : String) (r : Record F) (now later : F)
      → r.state ≢ suspended
      → let s = (suspend_record reason r now).0 in
        let t = (resume_record why s later).0 in
        (s.state ≡ (if r.state is rockstar then rockstar else suspended))
        × (t.state ≡ (if r.state is release then aware else r.state))
        × (t.previous_state ≡ (if r.state is rockstar then r.previous_state else none))
        × ((if r.state is rockstar then s else r) ≡ r)
        × ((if r.state is rockstar then t else r) ≡ r)
  unfolding suspend_record resume_record
  resume-suspend reason why r now later h = ground arith

module _ {F : Type 0} ⦃o : Float64 F⦄ where
  abbrev candidate_radius : ScanUpdate F → F
  candidate_radius u = distance_or (lit 20 0) u.candidate_distance_m

  abbrev aware_radius : ScanUpdate F → F
  aware_radius u = distance_or (lit 10 0) u.aware_distance_m

  -- A scan that finds the NPC ineligible, or outside the candidate radius (and not inside the aware
  -- radius, which lies within it), leaves it in a state in which the runtime may not reason for it.
  pub scan_revokes :
      (u : ScanUpdate F) (r : Record F) (now : F)
      → (u.eligible ≡ false)
        ⊎ ((flt (candidate_radius u) u.distance_m ≡ true)
            × (fle u.distance_m (aware_radius u) ≡ false))
      → can_reason_in (update_from_scan_record u r now).0.state ≡ false
  unfolding update_from_scan_record
  scan_revokes u r now (inl e) = rw e (scan_tests-revokes _ _ _ u.meaningful_trigger r now)
  scan_revokes u r now (inr (far, close)) =
      rw (far, close) (scan_tests-far _ u.eligible u.meaningful_trigger r now)

  -- A scan does not make the runtime speak for an NPC by itself: where it may speak after the scan, it
  -- could before, or the NPC was AWARE and the scan was eligible and carried a meaningful trigger.
  pub scan_speaks :
      (u : ScanUpdate F) (r : Record F) (now : F)
      → can_speak_in (update_from_scan_record u r now).0.state ≡ true
      → (can_speak_in r.state ≡ true)
        ⊎ ((r.state ≡ aware) × (u.eligible ≡ true) × (u.meaningful_trigger ≡ true))
  unfolding update_from_scan_record
  scan_speaks u r now h = scan_tests-speak _ _ _ u.eligible u.meaningful_trigger r now h
