-- ===== src/Samples/Files.antt =====
-- Timelines of store.go on a disk.
use agent_rd.Common.{
  ℕ, String, true, false, none, some, List, [], ◌∷◌, ◌≡◌, refl, ◌≢◌, inl, arith, ◌==◌, string_eq,
  nat_eq, list_eq, last_n, lookup, milli_float,
}
use agent_rd.Domain.Event.{Event, to_map, new_event}
use agent_rd.Timeline.Lines.{newlines, unlines, tail_non_empty_lines}
use agent_rd.Timeline.Tail.{tail_non_empty_lines_lem}
use agent_rd.Timeline.Store.{
  Store, done as returned, codes, encode_event_line, path_for, append_event, all_events, next_seq,
  GrabFilter,
}
use agent_rd.Timeline.Store.Linear.{Stored, IsWritable, as_read, append_event-Stored}
use agent_rd.Timeline.Store.Shared.{next_seq-shared}
use agent_rd.Samples.Events.{fresh}
use agent_rd.Samples.Json.{no_trim, plain, first_event, first_line, one_event_env, one_event_laws}

abbrev three_lines : List (List ℕ)
three_lines = codes "first" ∷ codes "second" ∷ codes "third" ∷ []

tail_non_empty_lines_lem_example :
    tail_non_empty_lines no_trim 4 (unlines three_lines) 2 ≡ last_n 2 three_lines
unfolding newlines
tail_non_empty_lines_lem_example =
    tail_non_empty_lines_lem no_trim 4 2 three_lines refl (omega arith) (refl, (refl, (refl, tt)))
      (refl, (refl, (refl, tt)))

abbrev pub empty_store : Store
empty_store = record { disk = record { files = []; broken = λ path. false }; last_seq = [] }

abbrev shared_path : List ℕ
shared_path = codes "ped_1.jsonl"

empty_store-Stored : Stored one_event_env one_event_laws shared_path [] [] empty_store
unfolding lookup
empty_store-Stored = record { there = inl (refl, refl); holds = tt; counts = tt; works = refl }

first_path : path_for one_event_env "ped 1" ≡ some shared_path
unfolding path_for
first_path = refl

other_path : path_for one_event_env "ped_1" ≡ some shared_path
unfolding path_for
other_path = refl

first_event-IsWritable : IsWritable one_event_env one_event_laws first_event first_line
unfolding new_event encode_event_line to_map
first_event-IsWritable = record {
  name_given = refl;
  npc_given = refl;
  exact_seq = refl;
  exact_time = tt;
  encodes = refl;
  fits = refl;
}

abbrev other_npc : String
other_npc = "ped_1"

other_differs : other_npc ≢ "ped 1"
other_differs e =
    let hit : (other_npc == "ped 1") ≡ true = (string_eq.decides other_npc "ped 1").1 e in
    absurd (cc)

abbrev first_read : Event ℕ
first_read = as_read one_event_env one_event_laws 1 first_event

append_event-Stored_example :
    (s' : Store) × (append_event one_event_env fresh "ped 1" "NPC_ACTIVATED" plain empty_store
      ≡ (returned first_event, s'))
    × Stored one_event_env one_event_laws shared_path (first_line ∷ []) (first_read ∷ []) s'
    × (all_events one_event_env "ped 1" s' ≡ returned (first_read ∷ []))
    × (lookup "ped 1" s'.last_seq ≡ some 1)
    × (lookup other_npc s'.last_seq ≡ lookup other_npc empty_store.last_seq)
unfolding lookup
append_event-Stored_example =
    append_event-Stored one_event_env one_event_laws fresh "ped 1" other_npc "NPC_ACTIVATED" plain
      first_line shared_path [] [] empty_store other_differs first_path empty_store-Stored
      (inl refl) first_event-IsWritable

-- A store that has counted the empty timeline for the NPC of the same file.
abbrev counted_store : Store
counted_store = record empty_store { last_seq = (other_npc, 0) ∷ [] }

counted_store-Stored : Stored one_event_env one_event_laws shared_path [] [] counted_store
unfolding lookup
counted_store-Stored = record { there = inl (refl, refl); holds = tt; counts = tt; works = refl }

next_seq-shared_example :
    let s' = (append_event one_event_env fresh "ped 1" "NPC_ACTIVATED" plain counted_store).1 in
    ((append_event one_event_env fresh "ped 1" "NPC_ACTIVATED" plain counted_store).0
      ≡ returned first_event)
    × (all_events one_event_env other_npc s' ≡ returned (first_read ∷ []))
    × ((next_seq one_event_env other_npc s').0 ≡ returned 1)
unfolding lookup
next_seq-shared_example =
    next_seq-shared one_event_env one_event_laws fresh "ped 1" other_npc "NPC_ACTIVATED" plain
      first_line shared_path [] [] counted_store other_differs first_path other_path
      counted_store-Stored (inl refl) refl first_event-IsWritable

abbrev activations : GrabFilter ℕ
activations = record {
  event_name = "NPC_ACTIVATED";
  event_names = [];
  tag = "";
  tags = [];
  entity = "";
  minimum_importance = none;
  since_seq = some 0;
  before_seq = none;
  limit = 5;
}

abbrev written_store : Store
written_store = record empty_store {
  disk = record { files = (shared_path, unlines (first_line ∷ [])) ∷ []; broken = λ path. false };
}
