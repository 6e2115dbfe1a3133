-- ===== src/Agent/Dispatcher.antt =====
-- RuntimeActionDispatcher of runtime-go/internal/agent/dispatcher.go, and the ActionRequest of
-- runtime-go/internal/domain/action.go that it hands to the bridge.
pub mod Pending
pub mod Trace
use agent_rd.Common.{
  ℕ, String, Bool, true, false, not, ◌&&◌, ◌||◌, Option, none, some, List, [], ◌∷◌, ◌++◌, ◌==◌,
  string_eq, if◌then◌else◌, length, lookup, keys, Dict, empty_ordered, Float64, lit,
}
use agent_rd.Common.Ordered.{Ordered, put, remove}
use agent_rd.Domain.Value.{
  Value, null, str, obj, Fields, done, field, get, string_from, clean_map, NumberText,
}
use agent_rd.Domain.Event.{EventOptions, Fresh}
use agent_rd.Timeline.Store.{Env, Store, append_event}

pub record ActionRequest (F : Type 0) : Type 0 where
  pub tool : String
  pub arguments : Fields F
  pub request_id : String
  pub npc_id : String

pub data ActionStatus : Type 0 where
  started completed failed : ActionStatus

pub record ToolResult (F : Type 0) : Type 0 where
  pub request_id : String
  pub tool : String
  pub status : ActionStatus
  pub reason : String
  pub detail : Fields F

-- `pending` with `order`, whether a transport is installed, and the payloads it was given.
pub record Dispatcher (F : Type 0) : Type 0 where
  pub requests : Ordered String (ActionRequest F)
  pub has_send : Bool
  pub sent : List (Fields F)

-- transientTools
unfoldable pub is_transient : String → Bool
is_transient tool = tool == "think" || (tool == "gesture" || tool == "clear_attention")

module _ {F : Type 0} where
  abbrev pub new_dispatcher : Dispatcher F
  new_dispatcher = record { requests = empty_ordered; has_send = false; sent = [] }

  abbrev pub set_send : Bool → Dispatcher F → Dispatcher F
  set_send has d = record d { has_send = has }

  -- ActionRequest.ToMap
  unfoldable pub request_map : ActionRequest F → Fields F
  request_map r = field "tool" (str r.tool) (
      field "request_id" (str r.request_id) (
        field "arguments" (obj (clean_map r.arguments))
          (if r.npc_id == "" then done else field "npc_id" (str r.npc_id) done)))

  unfoldable pub started_result : ActionRequest F → ToolResult F
  started_result r = record {
    request_id = r.request_id;
    tool = r.tool;
    status = started;
    reason = "";
    detail = done;
  }

  -- The part of Dispatch under the lock.
  unfoldable pub track : ActionRequest F → Dispatcher F → Dispatcher F
  unfolding is_transient put
  track r d =
      if is_transient r.tool then d else record d { requests = put r.request_id r d.requests }

  unfoldable pub send : ActionRequest F → Dispatcher F → Dispatcher F
  unfolding request_map
  send r d =
      if d.has_send
      then record d {
        sent =
            d.sent
            ++ field "type" (str "action_request")
                (field "npc_id" (str r.npc_id) (field "request" (obj (request_map r)) done))
              ∷ [];
      }
      else d

module _ {F : Type 0} ⦃o : Float64 F⦄ where
  abbrev pub action_started : ActionRequest F → EventOptions F
  action_started r = record {
    payload =
        field "tool" (str r.tool)
          (field "request_id" (str r.request_id) (field "arguments" (obj r.arguments) done));
    entities = [];
    tags = "action" ∷ [];
    summary = none;
    importance = some (lit 3 1);
    game_time = none;
    location = none;
    timestamp = none;
  }

  abbrev pub npc_spoke : ActionRequest F → EventOptions F
  npc_spoke r = record {
    payload = field "text" (get "text" r.arguments) (
        field "target" (get "target" r.arguments)
          (field "emotion" (get "emotion" r.arguments) done));
    entities = r.npc_id ∷ [];
    tags = "npc" ∷ "speech" ∷ [];
    summary = none;
    importance = some (lit 4 1);
    game_time = none;
    location = none;
    timestamp = none;
  }

module _ {F : Type 0} ⦃o : Float64 F⦄ (env : Env F) where
  -- The appends of Dispatch, whose errors it ignores.
  unfoldable pub log_start : Fresh F → Fresh F → ActionRequest F → Store → Store
  unfolding append_event get
  log_start f g r s =
      if r.npc_id == ""
      then s
      else let s' = (append_event env f r.npc_id "ACTION_STARTED" (action_started r) s).1 in
        if r.tool == "say" then (append_event env g r.npc_id "NPC_SPOKE" (npc_spoke r) s').1 else s'

  -- Dispatch
  unfoldable pub dispatch :
      Fresh F
      → Fresh F
      → ActionRequest F
      → Dispatcher F × Store
      → ToolResult F × (Dispatcher F × Store)
  unfolding track log_start send started_result
  dispatch f g r (d, s) = (started_result r, (send r (track r d), log_start f g r s))

module _ {F : Type 0} ⦃o : Float64 F⦄ (numbers : NumberText F) where
  -- Resolve
  unfoldable pub resolve : Fields F → Dispatcher F → Option (ActionRequest F) × Dispatcher F
  unfolding get string_from remove
  resolve raw d =
      let id = string_from numbers (get "request_id" raw) in
      if id == "" then (none, d) else elim (lookup id d.requests.entries) [
        | none ↦ (none, d)
        | some r ↦ (some r, record d { requests = remove id d.requests })
      ]

module _ {F : Type 0} where
  -- Pending
  abbrev pub pending : Dispatcher F → ℕ
  pending d = length d.requests.entries

  unfoldable pub find_in :
      String → List String → Dict String (ActionRequest F) → Option (ActionRequest F)
  find_in tool [] m = none
  find_in tool (id ∷ ids) m =
      let rest = find_in tool ids m in
      elim (lookup id m) [ none ↦ rest | some r ↦ if r.tool == tool then some r else rest ]

  -- FindPending
  unfoldable pub find_pending : String → Dispatcher F → Option (ActionRequest F)
  unfolding find_in
  find_pending tool d = find_in tool d.requests.order d.requests.entries

  unfoldable pub requests_in : List String → Dict String (ActionRequest F) → List (ActionRequest F)
  requests_in [] m = []
  requests_in (id ∷ ids) m =
      let rest = requests_in ids m in elim (lookup id m) [ none ↦ rest | some r ↦ r ∷ rest ]

  -- PendingRequests
  unfoldable pub pending_requests : Dispatcher F → List (ActionRequest F)
  unfolding requests_in
  pending_requests d = requests_in d.requests.order d.requests.entries

  -- PendingNPCIDs, the set as the test of a name.
  unfoldable pub npc_pending : String → Dict String (ActionRequest F) → Bool
  npc_pending npc [] = false
  npc_pending npc ((id, r) ∷ m) = (not (r.npc_id == "") && r.npc_id == npc) || npc_pending npc m

  abbrev pub pending_npc_ids : Dispatcher F → String → Bool
  pending_npc_ids d npc = npc_pending npc d.requests.entries
