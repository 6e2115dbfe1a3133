-- ===== src/Samples/Actions.antt =====
-- Requests of dispatcher.go on their way to the bridge and back.
use agent_rd.Common.{
  ℕ, String, true, none, List, [], ◌∷◌, ◌≡◌, milli_float, string_eq, length, if◌then◌else◌, ◌==◌,
}
use agent_rd.Common.Ordered.{IsOrdered}
use agent_rd.Domain.Value.{Fields, str, done, field}
use agent_rd.Agent.Dispatcher.{
  ActionRequest, Dispatcher, new_dispatcher, set_send, resolve, pending, find_pending,
  pending_requests,
}
use agent_rd.Agent.Dispatcher.Pending.{values, first_of, pending_requests_lem}
use agent_rd.Agent.Dispatcher.Trace.{Call, dispatched, resolved, run, id_of, waiting, run-resolve}
use agent_rd.Samples.{milli_numbers}
use agent_rd.Samples.Events.{fresh}
use agent_rd.Samples.Json.{one_event_env}
use agent_rd.Samples.Files.{empty_store}

abbrev request : String → String → ActionRequest ℕ
request tool id = record { tool = tool; arguments = done; request_id = id; npc_id = "ped_1" }

abbrev answer : String → Fields ℕ
answer id = field "request_id" (str id) done

-- A walk that is answered, a gesture that never waits, and a wait that does.
abbrev requests : List (Call ℕ)
requests =
    dispatched fresh fresh (request "go_to" "act_1")
    ∷ dispatched fresh fresh (request "gesture" "act_2")
    ∷ dispatched fresh fresh (request "wait" "act_3")
    ∷ resolved (answer "act_1")
    ∷ []

abbrev after_requests : Dispatcher ℕ
after_requests = (run one_event_env requests (set_send true new_dispatcher, empty_store)).0

after_requests-IsOrdered : IsOrdered after_requests.requests
after_requests-IsOrdered = (run-resolve one_event_env (answer "act_3") requests true empty_store).0

run-resolve_example :
    IsOrdered after_requests.requests
    × ((resolve milli_numbers (answer "act_3") after_requests).0 ≡ (
        if id_of one_event_env (answer "act_3") == ""
        then none
        else waiting one_event_env (id_of one_event_env (answer "act_3")) none requests))
run-resolve_example = run-resolve one_event_env (answer "act_3") requests true empty_store

pending_requests_lem_example :
    (pending_requests after_requests ≡ values after_requests.requests.entries)
    × ((length (pending_requests after_requests) ≡ pending after_requests)
        × (find_pending "wait" after_requests ≡ first_of "wait" (pending_requests after_requests)))
pending_requests_lem_example = pending_requests_lem "wait" after_requests after_requests-IsOrdered
