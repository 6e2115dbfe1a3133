-- ===== src/Samples/Worlds.antt =====
-- The world store, the queue of deferred NPCs and the thinking policy on concrete inputs.
use agent_rd.Common.{
  ℕ, min, ◌≤◌, String, true, not, ◌&&◌, ◌⊎◌, ◌↔◌, some, List, [], ◌∷◌, ◌≡◌, refl, ◌==◌, string_eq,
  if◌then◌else◌, last_n, length, keys,
}
use agent_rd.Common.Ordered.{empty_ordered, IsOrdered}
use agent_rd.Domain.Value.{Fields, pos, arr, get}
use agent_rd.Domain.Event.{Event}
use agent_rd.World.{new_world_store, items_of_maps, world_map, recent_events, get_map}
use agent_rd.World.Recent.{apply_events, events_of, recent_events-apply_events}
use agent_rd.World.Snapshot.{snapshot, is_nil}
use agent_rd.World.Merged.{store_of, get_map-apply_events}
use agent_rd.Agent.Deferred.{
  Change, deferring, forgetting, changes, pop_deferred, first, later, pop_deferred-changes,
}
use agent_rd.Agent.Thinking.{
  ThinkingPolicy, thinking_mode_for, wait_gesture_style, event_name_of_trigger,
}
use agent_rd.Agent.Thinking.Mode.{IsDisabled, thinking_mode_for_lem}
use agent_rd.Samples.Events.{gunshot}

abbrev three_events : List (Event ℕ)
three_events = gunshot ∷ record gunshot { npc_id = "ped_2" } ∷ record gunshot { seq = 4 } ∷ []

recent_events-apply_events_example :
    (recent_events "ped_1" (pos 1) (apply_events 50 three_events new_world_store)
      ≡ last_n 1 (last_n 50 (events_of "ped_1" [] three_events)))
    × (length (recent_events "ped_1" (pos 1) (apply_events 50 three_events new_world_store))
        ≤ min 1 50)
recent_events-apply_events_example = recent_events-apply_events 49 0 "ped_1" three_events

abbrev events_key : String
events_key = "recent_game_events"

abbrev told : List (Fields ℕ)
told = last_n 20 (last_n 50 (events_of "ped_1" [] three_events))

get_map-apply_events_example :
    get events_key (get_map "ped_1" 9000 (apply_events 50 three_events (store_of []))).0 ≡ (
      if events_key == "recent_game_events" && not (is_nil told)
      then arr (items_of_maps told)
      else get events_key (world_map (snapshot "ped_1" 9000 (store_of []))))
get_map-apply_events_example = get_map-apply_events 49 events_key "ped_1" 9000 three_events []

-- Two NPCs wait, the first is deferred again, and keeps its place.
abbrev waits : List Change
waits =
    deferring "ped_1" "gunshot"
    ∷ deferring "ped_2" "fight"
    ∷ deferring "ped_1" "attack"
    ∷ forgetting "ped_3"
    ∷ []

pop_deferred-changes_example :
    let q = changes waits empty_ordered in
    IsOrdered q
    × ((pop_deferred q).0 ≡ first q.entries)
    × ((pop_deferred q).1.entries ≡ later q.entries)
    × ((pop_deferred q).1.order ≡ keys (later q.entries))
pop_deferred-changes_example = pop_deferred-changes waits

abbrev policy : ThinkingPolicy
policy = record {
  default_mode = "low";
  wait_gestures = true;
  disabled_for_events = "PLAYER_APPROACHED" ∷ [];
  disabled_for_reasons = "idle" ∷ "pass_by" ∷ [];
}

thinking_mode_for_lem_example :
    ((thinking_mode_for policy "idle_autonomous" (some gunshot) ≡ "disabled")
      ↔ IsDisabled policy "idle_autonomous" (event_name_of_trigger (some gunshot)))
    × ((thinking_mode_for policy "idle_autonomous" (some gunshot) ≡ "disabled")
        ⊎ (thinking_mode_for policy "idle_autonomous" (some gunshot) ≡ "low"))
thinking_mode_for_lem_example = thinking_mode_for_lem policy "idle_autonomous" (some gunshot)

idle_disabled : thinking_mode_for policy "idle_autonomous" (some gunshot) ≡ "disabled"
unfolding thinking_mode_for
idle_disabled = refl

gunshot_alerts : wait_gesture_style "meaningful_event" (some gunshot) ≡ "alert"
unfolding wait_gesture_style
gunshot_alerts = refl
