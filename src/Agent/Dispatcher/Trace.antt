-- ===== src/Agent/Dispatcher/Trace.antt =====
-- The dispatcher of dispatcher.go over a sequence of calls.
use agent_rd.Common.{
  String, Bool, not, ◌&&◌, Option, none, some, List, [], ◌∷◌, ◌==◌, string_eq, if◌then◌else◌, ◌≡◌,
  refl, ap, sym, ◌∙◌, lookup, lookup-insert, Option-cases, Bool-cases, Distinct, subst, arith,
  Float64, inl, inr,
}
use agent_rd.Common.Ordered.{
  empty_ordered, IsOrdered, put, remove, put-IsOrdered, remove-IsOrdered, lookup-erase_self,
  lookup-erase_ne,
}
use agent_rd.Domain.Value.{Fields, get, string_from}
use agent_rd.Domain.Event.{Fresh}
use agent_rd.Timeline.Store.{Env, Store}
use agent_rd.Agent.Dispatcher.{
  ActionRequest, Dispatcher, new_dispatcher, set_send, is_transient, track, send, dispatch, resolve,
}

pub data Call (F : Type 0) : Type 0 where
  dispatched : Fresh F → Fresh F → ActionRequest F → Call F
  resolved : Fields F → Call F

module _ {F : Type 0} ⦃o : Float64 F⦄ (env : Env F) where
  unfoldable pub step : Call F → Dispatcher F × Store → Dispatcher F × Store
  unfolding dispatch resolve
  step (dispatched f g r) w = (dispatch env f g r w).1
  step (resolved raw) (d, s) = ((resolve env.numbers raw d).1, s)

  unfoldable pub run : List (Call F) → Dispatcher F × Store → Dispatcher F × Store
  unfolding step
  run [] w = w
  run (c ∷ cs) w = run cs (step c w)

  abbrev pub id_of : Fields F → String
  id_of raw = string_from env.numbers (get "request_id" raw)

  -- What waits under an identifier after one call, by what waited before.
  abbrev pub after : String → Option (ActionRequest F) → Call F → Option (ActionRequest F)
  after id now (dispatched f g r) =
      if not (is_transient r.tool) && id == r.request_id then some r else now
  after id now (resolved raw) = if id == id_of raw && not (id == "") then none else now

  abbrev pub waiting : String → Option (ActionRequest F) → List (Call F) → Option (ActionRequest F)
  waiting id now [] = now
  waiting id now (c ∷ cs) = waiting id (after id now c) cs

  track-requests :
      (r : ActionRequest F) (d : Dispatcher F)
      → (send r (track r d)).requests
        ≡ (if is_transient r.tool then d.requests else put r.request_id r d.requests)
  unfolding send track
  track-requests r d = ground arith

  resolve-requests :
      (raw : Fields F) (d : Dispatcher F)
      → (resolve env.numbers raw d).1.requests ≡ (
          if id_of raw == "" then d.requests else elim (lookup (id_of raw) d.requests.entries) [
            | none ↦ d.requests
            | some r ↦ remove (id_of raw) d.requests
          ])
  unfolding resolve
  resolve-requests raw d = ground arith

  resolve-answer :
      (raw : Fields F) (d : Dispatcher F)
      → (resolve env.numbers raw d).0
        ≡ (if id_of raw == "" then none else lookup (id_of raw) d.requests.entries)
  unfolding resolve
  resolve-answer raw d = ground arith

  step-IsOrdered :
      (c : Call F) (w : Dispatcher F × Store)
      → IsOrdered w.0.requests
      → IsOrdered (step c w).0.requests
  unfolding step dispatch
  step-IsOrdered (dispatched f g r) (d, s) h =
      subst IsOrdered (sym (track-requests r d)) (elim (Bool-cases (is_transient r.tool)) [
        | inl t ↦ rw t h
        | inr u ↦ rw u (put-IsOrdered r.request_id r d.requests h)
      ])
  step-IsOrdered (resolved raw) (d, s) h =
      subst IsOrdered (sym (resolve-requests raw d)) (elim (Bool-cases (id_of raw == "")) [
        | inl t ↦ rw t h
        | inr u ↦ elim (Option-cases (lookup (id_of raw) d.requests.entries)) [
          | inl n ↦ rw (u, n) h
          | inr (r, y) ↦ rw (u, y) (remove-IsOrdered (id_of raw) d.requests h)
        ]
      ])

  step-lookup :
      (id : String) (c : Call F) (w : Dispatcher F × Store)
      → IsOrdered w.0.requests
      → lookup id (step c w).0.requests.entries ≡ after id (lookup id w.0.requests.entries) c
  unfolding step dispatch put remove
  step-lookup id (dispatched f g r) (d, s) h =
      ap (λ q. lookup id q.entries) (track-requests r d)
      ∙ ground (arith, lookup-insert id r.request_id r d.requests.entries)
  step-lookup id (resolved raw) (d, s) h =
      ap (λ q. lookup id q.entries) (resolve-requests raw d) ∙ elim (Bool-cases (id == id_of raw)) [
        | inl hit ↦ ground (
          arith,
          (string_eq.decides id (id_of raw)).0 hit,
          lookup-erase_self id d.requests.entries (subst Distinct (sym h.listed) h.once),
        )
        | inr miss ↦ ground (
          arith,
          string_eq.decides id (id_of raw),
          lookup-erase_ne id (id_of raw) d.requests.entries,
        )
      ]

  new_IsOrdered : IsOrdered (empty_ordered {K = String} {V = ActionRequest F})
  new_IsOrdered = record { listed = refl; once = tt }

  run-waiting :
      (id : String) (cs : List (Call F)) (w : Dispatcher F × Store)
      → IsOrdered w.0.requests
      → IsOrdered (run cs w).0.requests
        × (lookup id (run cs w).0.requests.entries ≡ waiting id (lookup id w.0.requests.entries) cs)
  unfolding run
  run-waiting id [] w h = (h, refl)
  run-waiting id (c ∷ cs) w h =
      let (ok, same) = run-waiting id cs (step c w) (step-IsOrdered c w h) in
      (ok, same ∙ ap (λ now. waiting id now cs) (step-lookup id c w h))

  -- Over any sequence of calls from a new dispatcher, its slice lists the keys of its map once
  -- each, and the next Resolve with an identifier returns the request that was last dispatched
  -- under it as a tool that is not transient, unless a Resolve has returned it since; an empty
  -- identifier returns none.
  pub run-resolve :
      (raw : Fields F) (cs : List (Call F)) (has : Bool) (s : Store)
      → IsOrdered (run cs (set_send has new_dispatcher, s)).0.requests
        × ((resolve env.numbers raw (run cs (set_send has new_dispatcher, s)).0).0
            ≡ (if id_of raw == "" then none else waiting (id_of raw) none cs))
  unfolding lookup
  run-resolve raw cs has s =
      let (ok, same) = run-waiting (id_of raw) cs (set_send has new_dispatcher, s) new_IsOrdered in
      (
        ok,
        resolve-answer raw (run cs (set_send has new_dispatcher, s)).0
            ∙ ap (λ now. if id_of raw == "" then none else now) same,
      )
