-- ===== src/World/Recent.antt =====
-- About the recent events of world.go.
use agent_rd.Common.{
  ℕ, suc, ◌-◌, ◌≤◌, min, subst, String, true, List, [], ◌∷◌, ◌++◌, ◌≡◌, refl, sym, ap, ◌∙◌, inl,
  inr, ◌==◌, string_eq, arith, if◌then◌else◌, Bool-cases, length, length-append, length-drop,
  drop_all, drop, ltb, last_n, last_n-append, lookup, insert, lookup-insert, take, take-append-drop,
}
use mathlib.Core.List.{append_assoc}
use agent_rd.Domain.Value.{Fields, pos}
use agent_rd.Domain.Event.{Event, to_map}
use agent_rd.World.{
  WorldStore, new_world_store, bucket_of, recent_events, slice_recent, trim_recent, apply_event,
}

-- Keeping the last elements as each one comes keeps the last elements of all.
last_n-snoc {ℓ} :
    {A : Type ℓ} (n : ℕ) (xs : List A) (y : A)
    → last_n (suc n) (last_n (suc n) xs ++ y ∷ []) ≡ last_n (suc n) (xs ++ y ∷ [])
last_n-snoc n xs y = elim (Bool-cases (ltb n (length xs))) [
  | inl many ↦
      let k = length xs - suc n in
      let split : xs ++ y ∷ [] ≡ take k xs ++ drop k xs ++ y ∷ [] =
        ap (λ l. l ++ y ∷ []) (sym (take-append-drop k xs)) in
      let enough : suc n ≤ length (drop k xs ++ y ∷ []) =
        ground (arith, length-append (drop k xs) (y ∷ []), length-drop k xs) in
      sym (
        ap (last_n (suc n)) (split ∙ append_assoc (take k xs) (drop k xs) (y ∷ []))
        ∙ last_n-append (suc n) (take k xs) (drop k xs ++ y ∷ []) enough)
  | inr few ↦ let none_cut : length xs - suc n ≡ 0 = ground arith in rw (none_cut, last_n) refl
]

module _ {F : Type 0} where
  trim_recent-last_n :
      (n : ℕ) (bucket : List (Fields F)) → trim_recent (pos (suc n)) bucket ≡ last_n (suc n) bucket
  unfolding trim_recent
  trim_recent-last_n n bucket = elim (Bool-cases (ltb (suc n) (length bucket))) [
    | inl many ↦ let cut : ltb 0 (suc n) ≡ true = ground arith in rw (many, cut) refl
    | inr few ↦ let none_cut : length bucket - suc n ≡ 0 = ground arith in rw few (rw none_cut refl)
  ]

  unfoldable pub apply_events : ℕ → List (Event F) → WorldStore F → WorldStore F
  unfolding apply_event
  apply_events limit [] w = w
  apply_events limit (e ∷ es) w = apply_events limit es (apply_event (pos limit) e w)

  -- The specification: the maps of the events of one NPC, after those that it had.
  abbrev pub events_of : String → List (Fields F) → List (Event F) → List (Fields F)
  events_of id seen [] = seen
  events_of id seen (e ∷ es) =
      events_of id (if id == e.npc_id then seen ++ to_map e ∷ [] else seen) es

  bucket-insert :
      (id npc : String) (bucket : List (Fields F)) (w : WorldStore F)
      → bucket_of id (record w { recent = insert npc bucket w.recent })
        ≡ (if id == npc then bucket else bucket_of id w)
  bucket-insert id npc bucket w = ground (arith, lookup-insert id npc bucket w.recent)

  bucket-apply_event :
      (n : ℕ) (id : String) (seen : List (Fields F)) (e : Event F) (w : WorldStore F)
      → bucket_of id w ≡ last_n (suc n) seen
      → bucket_of id (apply_event (pos (suc n)) e w)
        ≡ last_n (suc n) (if id == e.npc_id then seen ++ to_map e ∷ [] else seen)
  unfolding apply_event
  bucket-apply_event n id seen e w h =
      bucket-insert id e.npc_id _ w ∙ elim (Bool-cases (id == e.npc_id)) [
        | inl own ↦
            let mine : bucket_of e.npc_id w ≡ last_n (suc n) seen =
              subst (λ k. bucket_of k w ≡ last_n (suc n) seen)
                ((string_eq.decides id e.npc_id).0 own) h in
            rw own (
              trim_recent-last_n n (bucket_of e.npc_id w ++ to_map e ∷ [])
              ∙ ap (λ l. last_n (suc n) (l ++ to_map e ∷ [])) mine
              ∙ last_n-snoc n seen (to_map e))
        | inr other ↦ rw other h
      ]

  pub bucket-apply_events :
      (n : ℕ) (id : String) (es : List (Event F)) (w : WorldStore F) (seen : List (Fields F))
      → bucket_of id w ≡ last_n (suc n) seen
      → bucket_of id (apply_events (suc n) es w) ≡ last_n (suc n) (events_of id seen es)
  unfolding apply_events
  bucket-apply_events n id [] w seen h = h
  bucket-apply_events n id (e ∷ es) w seen h =
      bucket-apply_events n id es (apply_event (pos (suc n)) e w)
        (if id == e.npc_id then seen ++ to_map e ∷ [] else seen)
        (bucket-apply_event n id seen e w h)

  pub recent_events-last_n :
      (id : String) (k : ℕ) (w : WorldStore F)
      → recent_events id (pos (suc k)) w ≡ last_n (suc k) (bucket_of id w)
  unfolding recent_events slice_recent
  recent_events-last_n id k w = refl

  -- After any events are applied to an empty store with a positive limit, RecentGameEvents with a
  -- positive limit of its own returns the last ones, at most as many as each of the limits says, of
  -- the maps of the events that name the NPC, oldest first; events of other NPCs are not among them.
  pub recent_events-apply_events :
      (n k : ℕ) (id : String) (es : List (Event F))
      → (recent_events id (pos (suc k)) (apply_events (suc n) es new_world_store)
          ≡ last_n (suc k) (last_n (suc n) (events_of id [] es)))
        × (length (recent_events id (pos (suc k)) (apply_events (suc n) es new_world_store))
            ≤ min (suc k) (suc n))
  unfolding lookup
  recent_events-apply_events n k id es =
      let known =
        recent_events-last_n id k (apply_events (suc n) es new_world_store)
        ∙ ap (last_n (suc k)) (
            bucket-apply_events n id es new_world_store []
              (sym (drop_all (0 - suc n) [] (omega arith)))) in
      let all = events_of id [] es in
      (
        known,
        omega (
          arith,
          ap length known,
          length-drop (length (last_n (suc n) all) - suc k) (last_n (suc n) all),
          length-drop (length all - suc n) all,
        ),
      )
