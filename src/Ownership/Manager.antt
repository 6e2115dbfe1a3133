-- ===== src/Ownership/Manager.antt =====
-- Manager of ownership.go: the records by NPC, in the order of first sight.
use agent_rd.Common.{
  String, Bool, Option, none, some, List, [], ◌∷◌, ◌++◌, Dict, lookup, insert, Float64, string_eq,
}
use agent_rd.Ownership.Types.{State, Transition}
use agent_rd.Ownership.Record.{
  Record, ScanUpdate, can_reason_in, can_speak_in, new_record, Effect, update_from_scan_record,
  enter_quest_dialogue_record, push_to_talk_record, conversation_ended_record,
  request_release_record, finalize_release_record, suspend_record, resume_record,
}

pub record Manager (F : Type 0) : Type 0 where
  pub records : Dict String (Record F)
  pub order : List String

-- The methods of the manager that change a record. `scan` carries the comparisons' inputs.
pub data Op (F : Type 0) : Type 0 where
  scan : ScanUpdate F → Op F
  enter_quest_dialogue push_to_talk conversation_ended finalize_release : Op F
  request_release suspend resume : String → Op F

module _ {F : Type 0} where
  abbrev pub new_manager : Manager F
  new_manager = record { records = []; order = [] }

  -- `record(npcID)`: the record, created on first sight.
  unfoldable pub record_of : String → Manager F → Manager F × Record F
  record_of id m = elim (lookup id m.records) [
    | some r ↦ (m, r)
    | none ↦ (
      record { records = insert id (new_record id) m.records; order = m.order ++ id ∷ [] },
      new_record id,
    )
  ]

  unfoldable pub state_of : String → Manager F → Manager F × State
  unfolding record_of
  state_of id m = let (m', r) = record_of id m in (m', r.state)

  unfoldable pub can_reason : String → Manager F → Manager F × Bool
  unfolding record_of can_reason_in
  can_reason id m = let (m', r) = record_of id m in (m', can_reason_in r.state)

  unfoldable pub can_speak : String → Manager F → Manager F × Bool
  unfolding record_of can_speak_in
  can_speak id m = let (m', r) = record_of id m in (m', can_speak_in r.state)

  -- Each method looks its record up and changes it through the pointer.
  unfoldable pub with_record :
      (Record F → Effect F) → String → Manager F → Manager F × Option (Transition F)
  with_record f id m =
      let (m', r) = record_of id m in
      let (r', t) = f r in (record m' { records = insert id r' m'.records }, t)

  unfoldable pub owned_npcs : Manager F → List String
  owned_npcs m = m.order

module _ {F : Type 0} ⦃o : Float64 F⦄ where
  unfoldable pub effect : Op F → F → Record F → Effect F
  effect (scan u) now r = update_from_scan_record u r now
  effect enter_quest_dialogue now r = enter_quest_dialogue_record r now
  effect push_to_talk now r = push_to_talk_record r now
  effect conversation_ended now r = conversation_ended_record r now
  effect finalize_release now r = finalize_release_record r now
  effect (request_release reason) now r = request_release_record reason r now
  effect (suspend reason) now r = suspend_record reason r now
  effect (resume reason) now r = resume_record reason r now

  -- The NPC that a method is called on; a scan names its own.
  abbrev pub npc_of : Op F → String → String
  npc_of (scan u) id = u.npc_id
  npc_of _ id = id

  -- A method called at a time on an NPC.
  unfoldable pub call : Op F × String × F → Manager F → Manager F × Option (Transition F)
  unfolding with_record
  call (op, id, now) m = with_record (effect op now) (npc_of op id) m

  unfoldable pub run : List (Op F × String × F) → Manager F → Manager F
  run [] m = m
  run (c ∷ cs) m = run cs (call c m).0
