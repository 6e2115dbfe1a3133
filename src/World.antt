-- ===== src/World.antt =====
-- WorldStore of runtime-go/internal/state/world.go and WorldState of
-- runtime-go/internal/domain/world.go: the latest snapshot of each NPC with its recent events.
pub mod Recent
pub mod Snapshot
pub mod Merged
use agent_rd.Common.{
  ℕ, zero, suc, ◌-◌, min, String, Bool, true, false, Option, none, some, List, [], ◌∷◌, ◌++◌, ◌==◌,
  string_eq, if◌then◌else◌, length, drop, ltb, Dict, lookup, insert, erase, Float64, feq, lit,
}
use agent_rd.Domain.Value.{
  ℤ, pos, negsuc, Value, Items, Fields, nil, cons, num, arr, obj, done, field, get, map_from,
  float_from, NumberText,
}
use agent_rd.Domain.Event.{Event, to_map}

-- A nil map and a nil list are the empty ones, so normalizeWorldState changes nothing.
pub record WorldState (F : Type 0) : Type 0 where
  pub npc_id : String
  pub self_state : Fields F
  pub player : Fields F
  pub nearby_peds : List (Fields F)
  pub nearby_horses : List (Fields F)
  pub recent_game_events : List (Fields F)
  pub timestamp : F
  pub raw : Fields F

-- The snapshots are values here: what a caller writes to a map that Get handed out is not followed.
pub record WorldStore (F : Type 0) : Type 0 where
  pub states : Dict String (WorldState F)
  pub recent : Dict String (List (Fields F))

abbrev pub merge_limit : ℤ
merge_limit = pos 20

module _ {F : Type 0} where
  abbrev pub new_world_store : WorldStore F
  new_world_store = record { states = []; recent = [] }

  abbrev pub new_world_state : String → F → WorldState F
  new_world_state id now = record {
    npc_id = id;
    self_state = done;
    player = done;
    nearby_peds = [];
    nearby_horses = [];
    recent_game_events = [];
    timestamp = now;
    raw = done;
  }

  -- MapsFrom
  unfoldable pub maps_of_items : Items F → List (Fields F)
  unfolding map_from
  maps_of_items nil = []
  maps_of_items (cons v xs) = map_from v ∷ maps_of_items xs

  unfoldable pub maps_from : Value F → List (Fields F)
  unfolding maps_of_items
  maps_from (arr xs) = maps_of_items xs
  maps_from _ = []

  unfoldable pub items_of_maps : List (Fields F) → Items F
  items_of_maps [] = nil
  items_of_maps (m ∷ ms) = cons (obj m) (items_of_maps ms)

  -- WorldState.ToMap. A []map[string]any is a list of objects.
  unfoldable pub world_map : WorldState F → Fields F
  unfolding items_of_maps
  world_map s = field "self" (obj s.self_state) (
      field "player" (obj s.player) (
        field "nearby_peds" (arr (items_of_maps s.nearby_peds)) (
          field "nearby_horses" (arr (items_of_maps s.nearby_horses)) (
            field "recent_game_events" (arr (items_of_maps s.recent_game_events))
              (field "timestamp" (num s.timestamp) done)))))

  -- `m[key] = value`
  unfoldable pub set_field : String → Value F → Fields F → Fields F
  set_field k v done = field k v done
  set_field k v (field j w m) = if k == j then field k v m else field j w (set_field k v m)

  -- Update
  unfoldable pub update : WorldState F → WorldStore F → WorldStore F
  update s w = record w { states = insert s.npc_id s w.states }

  -- get, with the time of the clock for a first sight
  unfoldable pub state_or_new : String → F → WorldStore F → WorldState F × WorldStore F
  state_or_new id now w = elim (lookup id w.states) [
    | some s ↦ (s, w)
    | none ↦
        (new_world_state id now, record w { states = insert id (new_world_state id now) w.states })
  ]

  abbrev pub bucket_of : String → WorldStore F → List (Fields F)
  bucket_of id w = elim (lookup id w.recent) [ none ↦ [] | some bucket ↦ bucket ]

  -- recentEvents: Python's bucket[-limit:]
  unfoldable pub slice_recent : ℤ → List (Fields F) → List (Fields F)
  slice_recent (pos zero) bucket = bucket
  slice_recent (pos (suc n)) bucket = drop (length bucket - suc n) bucket
  slice_recent (negsuc n) bucket = drop (min (suc n) (length bucket)) bucket

  unfoldable pub recent_events : String → ℤ → WorldStore F → List (Fields F)
  unfolding slice_recent
  recent_events id limit w = slice_recent limit (bucket_of id w)

  -- The merge in GetMap: applied events stand in place of the snapshot's, if there are any.
  abbrev pub merge : List (Fields F) → Fields F → Fields F
  merge [] payload = payload
  merge (e ∷ es) payload = set_field "recent_game_events" (arr (items_of_maps (e ∷ es))) payload

  -- GetMap. A deep copy is the same value.
  unfoldable pub get_map : String → F → WorldStore F → Fields F × WorldStore F
  unfolding state_or_new world_map recent_events items_of_maps set_field
  get_map id now w =
      let (s, w') = state_or_new id now w in
      (merge (recent_events id merge_limit w') (world_map s), w')

  -- The trim of ApplyEvent: Python's del bucket[:-max_recent]
  unfoldable pub trim_recent : ℤ → List (Fields F) → List (Fields F)
  trim_recent (pos n) bucket =
      if ltb n (length bucket)
      then (if ltb 0 n then drop (length bucket - n) bucket else bucket)
      else bucket
  trim_recent (negsuc n) bucket = drop (min (suc n) (length bucket)) bucket

  -- ApplyEvent
  unfoldable pub apply_event : ℤ → Event F → WorldStore F → WorldStore F
  unfolding trim_recent to_map
  apply_event max_recent e w =
      let bucket = trim_recent max_recent (bucket_of e.npc_id w ++ to_map e ∷ []) in
      record w { recent = insert e.npc_id bucket w.recent }

  -- SetSelfField
  unfoldable pub set_self_field : String → String → Value F → F → WorldStore F → WorldStore F
  unfolding state_or_new set_field
  set_self_field id key value now w =
      let (s, w') = state_or_new id now w in
      record w' {
        states = insert id (record s { self_state = set_field key value s.self_state }) w'.states;
      }

  -- SetPlayerField
  unfoldable pub set_player_field : String → String → Value F → F → WorldStore F → WorldStore F
  unfolding state_or_new set_field
  set_player_field id key value now w =
      let (s, w') = state_or_new id now w in
      record w' {
        states = insert id (record s { player = set_field key value s.player }) w'.states;
      }

  -- Remove
  unfoldable pub remove_npc : String → WorldStore F → WorldStore F
  remove_npc id w = record w { states = erase id w.states; recent = erase id w.recent }

module _ {F : Type 0} ⦃o : Float64 F⦄ (numbers : NumberText F) where
  -- WorldStateFromBridgePayload
  unfoldable pub world_state_from_payload : String → F → Fields F → WorldState F
  unfolding get map_from maps_from float_from
  world_state_from_payload id now payload =
      let state = map_from (get "state" payload) in
      let timestamp = float_from numbers (get "timestamp" payload) in
      record {
        npc_id = id;
        self_state = map_from (get "self" state);
        player = map_from (get "player" state);
        nearby_peds = maps_from (get "nearby_peds" state);
        nearby_horses = maps_from (get "nearby_horses" state);
        recent_game_events = maps_from (get "recent_game_events" state);
        timestamp = if feq timestamp (lit 0 0) then now else timestamp;
        raw = payload;
      }
