-- ===== src/Timeline/Store/Shared.antt =====
-- About NPCs whose identifiers sanitise to one file name in store.go.
use agent_rd.Common.{
  ℕ, suc, ◌≡◌, refl, ◌∙◌, ◌≢◌, String, some, List, [], ◌∷◌, ◌++◌, arith, string_eq, list_eq, length,
  lookup, Float64,
}
use agent_rd.Domain.Event.{Event, EventOptions, Fresh, new_event}
use agent_rd.Timeline.Store.{Env, done, Store, path_for, next_seq, append_event, all_events}
use agent_rd.Timeline.Store.Linear.{
  JsonLaws, Stored, IsCached, IsWritable, as_read, append_event-Stored,
}

module _ {F : Type 0} ⦃o : Float64 F⦄ (env : Env F) (laws : JsonLaws env) where
  -- Of two NPCs whose identifiers sanitise to the same file name, one whose cached number is up to
  -- date does not see what is appended for the other: its next event gets the number that the event
  -- just written to the shared file has.
  pub next_seq-shared :
      (fresh : Fresh F) (id other name : String) (opts : EventOptions F) (line path : List ℕ)
      (ls : List (List ℕ)) (es : List (Event F)) (s : Store)
      → other ≢ id
      → path_for env id ≡ some path
      → path_for env other ≡ some path
      → Stored env laws path ls es s
      → IsCached env laws id (length es) s
      → lookup other s.last_seq ≡ some (length es)
      → IsWritable env laws (new_event fresh (suc (length es)) name id opts) line
      → let (r, s') = append_event env fresh id name opts s in
        (r ≡ done (new_event fresh (suc (length es)) name id opts))
        × (all_events env other s'
            ≡ done (
                es
                ++ as_read env laws
                    (suc (length es))
                    (new_event fresh (suc (length es)) name id opts)
                  ∷ []))
        × ((next_seq env other s').0 ≡ done (suc (length es)))
  unfolding next_seq all_events
  next_seq-shared fresh id other name opts line path ls es s ne p p' st c stale w =
      let (s', appended, st', all, cached', others) =
        append_event-Stored env laws fresh id other name opts line path ls es s ne p st c w in
      let known : lookup other s'.last_seq ≡ some (length es) = others ∙ stale in
      let same : all_events env other s' ≡ all_events env id s' = ground arith in
      rw appended (refl, same ∙ all, rw (known, next_seq))
