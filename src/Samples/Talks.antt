-- ===== src/Samples/Talks.antt =====
-- A conversation that the scheduler ends to make room for another.
use agent_rd.Common.{
  ℕ, ◌-◌, ◌≤◌, none, some, [], ◌∷◌, ◌≡◌, refl, length, lookup, insert, string_eq, milli_float,
}
use agent_rd.Common.Ordered.{empty_ordered}
use agent_rd.Domain.Event.{Fresh}
use agent_rd.Ownership.Types.{ai_conversation}
use agent_rd.Ownership.Record.{Record, conversation_ended_record}
use agent_rd.Ownership.Manager.{effect, record_of}
use agent_rd.Timeline.Store.{Env, Outcome, done as returned}
use agent_rd.World.{new_world_store}
use agent_rd.Agent.Dispatcher.{new_dispatcher}
use agent_rd.Agent.Runtime.{and_then, Runtime, talking, ensure_single_conversation}
use agent_rd.Agent.Runtime.Conversations.{ensure_single_conversation_lem}
use agent_rd.Samples.Events.{fresh}
use agent_rd.Samples.Json.{one_event_env, first_line}
use agent_rd.Samples.Files.{empty_store}

-- A writer that accepts every event.
abbrev pub writing_env : Env ℕ
writing_env = record one_event_env { marshal = λ m. some first_line }

abbrev pub draw : ℕ → Fresh ℕ
draw n = fresh

abbrev promote_none : Runtime ℕ → Outcome (Unit {0}) × Runtime ℕ
promote_none rt = (returned tt, rt)

abbrev talker : Record ℕ
talker = record { npc_id = "ped_1"; state = ai_conversation; previous_state = none; history = [] }

abbrev pub one_talks : Runtime ℕ
one_talks = record {
  manager = record { records = ("ped_1", talker) ∷ []; order = "ped_1" ∷ [] };
  store = empty_store;
  agents = empty_ordered;
  deferred = empty_ordered;
  dispatcher = new_dispatcher;
  world = new_world_store;
  last_ped_scan = [];
  last_global_speech_at = 0;
  drawn = 0;
}

stops_without_error :
    (ensure_single_conversation writing_env draw promote_none 1 "ped_2" one_talks).0 ≡ returned tt
unfolding ensure_single_conversation lookup effect conversation_ended_record record_of insert
    and_then
stops_without_error = refl

ensure_single_conversation_lem_example :
    let m =
      (ensure_single_conversation writing_env draw promote_none 1 "ped_2" one_talks).1.manager in
    length (talking "ped_2" m.order m) ≤ 1 - 1
ensure_single_conversation_lem_example =
    ensure_single_conversation_lem writing_env draw promote_none 1 "ped_2" one_talks (tt, tt)
      stops_without_error
