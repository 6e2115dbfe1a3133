-- ===== src/Agent/Dispatcher/Pending.antt =====
-- What PendingRequests, FindPending and Pending of dispatcher.go report of the requests that wait.
use agent_rd.Common.{
  String, Option, none, some, List, [], ◌∷◌, ◌==◌, string_eq, if◌then◌else◌, ◌≡◌, refl, ap, ◌∙◌,
  length, Dict, arith,
}
use agent_rd.Common.Ordered.{IsOrdered, walk, walk-IsOrdered}
use agent_rd.Agent.Dispatcher.{
  ActionRequest, Dispatcher, pending, find_in, find_pending, requests_in, pending_requests,
}

module _ {F : Type 0} where
  abbrev pub values : Dict String (ActionRequest F) → List (ActionRequest F)
  values [] = []
  values ((id, r) ∷ m) = r ∷ values m

  abbrev pub first_of : String → List (ActionRequest F) → Option (ActionRequest F)
  first_of tool [] = none
  first_of tool (r ∷ rs) = if r.tool == tool then some r else first_of tool rs

  requests_in-walk :
      (ids : List String) (m : Dict String (ActionRequest F))
      → requests_in ids m ≡ values (walk ids m)
  unfolding requests_in walk
  requests_in-walk [] m = refl
  requests_in-walk (id ∷ ids) m = ground (arith, requests_in-walk ids m)

  find_in-first_of :
      (tool : String) (ids : List String) (m : Dict String (ActionRequest F))
      → find_in tool ids m ≡ first_of tool (requests_in ids m)
  unfolding find_in requests_in
  find_in-first_of tool [] m = refl
  find_in-first_of tool (id ∷ ids) m = ground (arith, find_in-first_of tool ids m)

  length-values : (m : Dict String (ActionRequest F)) → length (values m) ≡ length m
  length-values [] = refl
  length-values ((id, r) ∷ m) = ground (arith, length-values m)

  -- Where the slice of identifiers lists the keys of the map once each, PendingRequests returns
  -- every waiting request in the order of insertion, Pending counts them, and FindPending returns
  -- the first of them that names the tool.
  pub pending_requests_lem :
      (tool : String) (d : Dispatcher F)
      → IsOrdered d.requests
      → (pending_requests d ≡ values d.requests.entries)
        × ((length (pending_requests d) ≡ pending d)
            × (find_pending tool d ≡ first_of tool (pending_requests d)))
  unfolding pending_requests find_pending
  pending_requests_lem tool d h =
      let all : requests_in d.requests.order d.requests.entries ≡ values d.requests.entries =
        requests_in-walk d.requests.order d.requests.entries
        ∙ ap values (walk-IsOrdered d.requests h) in
      (
        all,
        (
          ap length all ∙ length-values d.requests.entries,
          find_in-first_of tool d.requests.order d.requests.entries,
        ),
      )
