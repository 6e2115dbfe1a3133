-- ===== src/World/Merged.antt =====
-- What GetMap of world.go gives after events were applied.
use agent_rd.Common.{
  ℕ, suc, ◌-◌, String, not, ◌&&◌, List, [], ◌∷◌, ◌≡◌, refl, sym, ap, ◌∙◌, ◌==◌, string_eq, arith,
  if◌then◌else◌, Dict, lookup, last_n, drop_all,
}
use agent_rd.Domain.Value.{arr, get, pos}
use agent_rd.Domain.Event.{Event}
use agent_rd.World.{
  WorldState, WorldStore, items_of_maps, world_map, recent_events, apply_event, get_map,
  state_or_new,
}
use agent_rd.World.Snapshot.{snapshot, is_nil, get-get_map}
use agent_rd.World.Recent.{apply_events, events_of, bucket-apply_events, recent_events-last_n}

module _ {F : Type 0} where
  -- A store that has these snapshots and no applied events.
  abbrev pub store_of : Dict String (WorldState F) → WorldStore F
  store_of states = record { states = states; recent = [] }

  snapshot-apply_event :
      (limit : ℕ) (id : String) (now : F) (e : Event F) (w : WorldStore F)
      → snapshot id now (apply_event (pos limit) e w) ≡ snapshot id now w
  unfolding apply_event state_or_new
  snapshot-apply_event limit id now e w = ground arith

  snapshot-apply_events :
      (limit : ℕ) (id : String) (now : F) (es : List (Event F)) (w : WorldStore F)
      → snapshot id now (apply_events limit es w) ≡ snapshot id now w
  unfolding apply_events
  snapshot-apply_events limit id now [] w = refl
  snapshot-apply_events limit id now (e ∷ es) w =
      snapshot-apply_events limit id now es (apply_event (pos limit) e w)
      ∙ snapshot-apply_event limit id now e w

  -- After any events are applied with a positive limit to a store of any snapshots, GetMap gives under
  -- "recent_game_events" the last twenty of that NPC's last events within the limit, oldest first, if
  -- there are any. Under every other key, and where no event names the NPC, it gives what the snapshot
  -- has.
  pub get_map-apply_events :
      (n : ℕ) (key id : String) (now : F) (es : List (Event F))
      (states : Dict String (WorldState F))
      → get key (get_map id now (apply_events (suc n) es (store_of states))).0 ≡ (
          if key == "recent_game_events"
            && not (is_nil (last_n 20 (last_n (suc n) (events_of id [] es))))
          then arr (items_of_maps (last_n 20 (last_n (suc n) (events_of id [] es))))
          else get key (world_map (snapshot id now (store_of states))))
  unfolding lookup
  get_map-apply_events n key id now es states =
      let after = apply_events (suc n) es (store_of states) in
      let known : recent_events id (pos 20) after
          ≡ last_n 20 (last_n (suc n) (events_of id [] es)) =
        recent_events-last_n id 19 after
        ∙ ap (last_n 20) (
            bucket-apply_events n id es (store_of states) []
              (sym (drop_all (0 - suc n) [] (omega arith)))) in
      get-get_map key id now after
      ∙ rw (known, snapshot-apply_events (suc n) id now es (store_of states)) refl
