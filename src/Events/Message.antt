-- ===== src/Events/Message.antt =====
-- WorldStateFromMessage and EventFromMessage.
pub mod Steps
pub mod Forms
pub mod Accepted
use Prim.Native.Char.{Char}
use agent_rd.Common.{
  ℕ, zero, suc, String, Bool, true, false, Option, none, some, List, [], ◌==◌, string_eq,
  if◌then◌else◌, Float64,
}
use agent_rd.Domain.Value.{
  ℤ, pos, negsuc, Value, Fields, NumberText, null, bool, num, int, str, strings, floats, arr, obj,
  done, get, string_from, float_from,
}
use agent_rd.Domain.Event.{
  Event, EventOptions, Fresh, GameTime, Location, new_event, game_time_from_map, location_from_map,
}
use agent_rd.Eligibility.Gate.{codes}
use agent_rd.World.{WorldState, world_state_from_payload}
use agent_rd.Events.Readers.{
  Parsed, ok, err, MessageError, missing_npc_id, missing_event_name, data_not_object,
  game_time_not_object, location_not_object, seq_too_small, invalid_event_name, to_upper,
  is_event_name, truthy, string_list, summary_from, importance_from,
}

infixl 5 ◌>>=◌
abbrev pub ◌>>=◌ : {A B : Type 0} → Parsed A → (A → Parsed B) → Parsed B
ok a >>= next = next a
err x >>= next = err x

-- An early return with an error unless the test holds.
abbrev pub require : Bool → MessageError → Parsed (Unit {0})
require true x = ok tt
require false x = err x

-- `int` below 1 is an error; the number else.
abbrev pub valid_seq : ℤ → Parsed ℕ
valid_seq (pos zero) = err seq_too_small
valid_seq (pos (suc n)) = ok (suc n)
valid_seq (negsuc n) = err seq_too_small

module _ {F : Type 0} where
  -- `x or default` of Python
  abbrev pub first_truthy : Bool → Value F → Value F → Value F
  first_truthy b v fallback = if b then v else fallback

  -- The identifier that NewEvent takes: a fresh one where the payload has none.
  abbrev pub with_id : String → Fresh F → Fresh F
  with_id id fresh = record fresh { new_id = if id == "" then fresh.new_id else id }

  -- `value.(map[string]any)`
  abbrev pub object : MessageError → Value F → Parsed (Fields F)
  object x (obj m) = ok m
  object x _ = err x

module _ {F : Type 0} ⦃o : Float64 F⦄ where
  -- An optional object of the payload: absent where the value is falsy.
  unfoldable pub optional_object : MessageError → Value F → Parsed (Fields F)
  unfolding truthy
  optional_object x v = if truthy v then object x v else ok done

  abbrev pub npc_value : Fields F → String → Value F
  npc_value raw fallback =
      first_truthy (truthy (get "npc_id" raw)) (get "npc_id" raw) (str fallback)

  abbrev pub name_value : Fields F → Value F
  name_value raw =
      first_truthy (truthy (get "event_name" raw)) (get "event_name" raw) (get "name" raw)

module _ {F : Type 0} ⦃o : Float64 F⦄ (numbers : NumberText F) where
  -- requireNPCID
  unfoldable pub require_npc_id : Fields F → Parsed String
  unfolding truthy get string_from
  require_npc_id raw =
      if truthy (get "npc_id" raw)
      then ok (string_from numbers (get "npc_id" raw))
      else err missing_npc_id

  -- WorldStateFromMessage, with the time of the clock.
  unfoldable pub world_state_from_message : F → Fields F → Parsed (WorldState F)
  unfolding require_npc_id world_state_from_payload
  world_state_from_message now raw =
      require_npc_id raw >>= (λ id. ok (world_state_from_payload numbers id now raw))

  unfoldable pub timestamp_from : Value F → Option F
  unfolding float_from
  timestamp_from null = none
  timestamp_from v = some (float_from numbers v)

module _ {F : Type 0} ⦃o : Float64 F⦄ (numbers : NumberText F) (trim_space : String → String)
    (upper : Char → Char) where
  abbrev pub message_name : Fields F → String
  message_name raw = to_upper upper (string_from numbers (name_value raw))

  -- EventFromMessage
  unfoldable pub event_from_message : Fresh F → Fields F → ℤ → String → Parsed (Event F)
  unfolding truthy get string_from string_list importance_from optional_object game_time_from_map
      location_from_map timestamp_from summary_from new_event
  event_from_message fresh raw seq fallback = do
    npc_given ← require (truthy (npc_value raw fallback)) missing_npc_id
    name_given ← require (truthy (name_value raw)) missing_event_name
    let name = message_name raw
    name_valid ← require (is_event_name (codes name)) (invalid_event_name name)
    payload ← optional_object data_not_object (get "data" raw)
    entities ← string_list numbers (get "entities" raw) "entities"
    tags ← string_list numbers (get "tags" raw) "tags"
    game_time ← optional_object game_time_not_object (get "game_time" raw)
    location ← optional_object location_not_object (get "location" raw)
    importance ← importance_from numbers trim_space (get "importance" raw)
    n ← valid_seq seq
    ok (
        new_event (with_id (string_from numbers (get "event_id" raw)) fresh) n name
          (string_from numbers (npc_value raw fallback))
          (record {
            payload = payload;
            entities = entities;
            tags = tags;
            summary = summary_from numbers (get "summary" raw);
            importance = importance;
            game_time = game_time_from_map numbers game_time;
            location = location_from_map numbers location;
            timestamp = timestamp_from numbers (get "timestamp" raw);
          }))
