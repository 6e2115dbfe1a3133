-- ===== src/World/Snapshot.antt =====
-- The snapshots of world.go, and what GetMap merges into one.
use agent_rd.Common.{
  String, Bool, true, false, not, ◌&&◌, none, some, List, [], ◌∷◌, ◌≡◌, refl, ap, ◌∙◌, ◌==◌,
  string_eq, arith, if◌then◌else◌, lookup,
}
use agent_rd.Domain.Value.{Value, Fields, arr, done, field, get}
use agent_rd.World.{
  WorldState, WorldStore, merge_limit, items_of_maps, world_map, set_field, state_or_new,
  recent_events, slice_recent, merge, get_map,
}

module _ {F : Type 0} where
  pub get-set_field :
      (j k : String) (v : Value F) (m : Fields F)
      → get j (set_field k v m) ≡ (if j == k then v else get j m)
  unfolding get set_field
  get-set_field j k v done = refl
  get-set_field j k v (field i w m) = ground (
    arith,
    string_eq.decides k i,
    string_eq.decides j i,
    string_eq.decides j k,
    get-set_field j k v m,
  )

  -- What Get returns for an NPC.
  abbrev pub snapshot : String → F → WorldStore F → WorldState F
  snapshot id now w = (state_or_new id now w).0

  abbrev pub is_nil : List (Fields F) → Bool
  is_nil [] = true
  is_nil (m ∷ ms) = false

  state_or_new-recent :
      (id : String) (now : F) (w : WorldStore F) → (state_or_new id now w).1.recent ≡ w.recent
  unfolding state_or_new
  state_or_new-recent id now w = ground arith

  -- The value of a key after the merge, where it was `old`.
  abbrev merged : String → Value F → List (Fields F) → Value F
  merged key old events =
      if key == "recent_game_events" && not (is_nil events) then arr (items_of_maps events) else old

  get-merge :
      (key : String) (events : List (Fields F)) (m : Fields F)
      → get key (merge events m) ≡ merged key (get key m) events
  get-merge key [] m = ground arith
  get-merge key (e ∷ es) m =
      ground (arith, get-set_field key "recent_game_events" (arr (items_of_maps (e ∷ es))) m)

  pub get-get_map :
      (key id : String) (now : F) (w : WorldStore F)
      → get key (get_map id now w).0 ≡ (
          if key == "recent_game_events" && not (is_nil (recent_events id merge_limit w))
          then arr (items_of_maps (recent_events id merge_limit w))
          else get key (world_map (snapshot id now w)))
  unfolding get_map recent_events
  get-get_map key id now w =
      let same : recent_events id merge_limit (state_or_new id now w).1
          ≡ recent_events id merge_limit w =
        ap (λ r. slice_recent merge_limit (elim (lookup id r) [ none ↦ [] | some bucket ↦ bucket ]))
          (state_or_new-recent id now w) in
      get-merge key (recent_events id merge_limit (state_or_new id now w).1)
        (world_map (snapshot id now w))
      ∙ ap (merged key (get key (world_map (snapshot id now w)))) same
