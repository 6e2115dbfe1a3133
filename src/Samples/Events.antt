-- ===== src/Samples/Events.antt =====
-- An event of event.go, written and read back.
use agent_rd.Common.{ℕ, none, some, [], ◌∷◌, ◌≡◌, refl, milli_float}
use agent_rd.Domain.Value.{pos, null, str, done, field}
use agent_rd.Domain.Event.{Event, Fresh, validate, to_map, event_from_map}
use agent_rd.Domain.Event.RoundTrip.{event_from_map-to_map, restored}
use agent_rd.Domain.Event.Json.{json_map, event_from_map-json, reread}
use agent_rd.Samples.{milli_numbers}

abbrev pub fresh : Fresh ℕ
fresh = record { new_id = "evt_new"; now = 5000 }

abbrev pub gunshot : Event ℕ
gunshot = record {
  seq = 3;
  event_name = "GUNSHOT_HEARD";
  npc_id = "ped_1";
  event_id = "evt_3";
  timestamp = 4000;
  game_time = some (record { day = pos 1; hour = pos 13; minute = pos 5 });
  location = some (record { region = some "Valentine"; position = some (1000 ∷ 2000 ∷ 3000 ∷ []) });
  entities = "player" ∷ [];
  payload = field "weapon" (str "revolver") (field "target" null done);
  summary = none;
  importance = some 1500;
  tags = "combat" ∷ [];
}

event_from_map-to_map_example :
    event_from_map milli_numbers fresh (to_map gunshot)
    ≡ validate (restored milli_numbers fresh gunshot)
event_from_map-to_map_example = event_from_map-to_map milli_numbers fresh gunshot

event_from_map-json_example :
    event_from_map milli_numbers fresh (json_map milli_numbers (to_map gunshot))
    ≡ validate (reread milli_numbers fresh gunshot)
event_from_map-json_example =
    event_from_map-json milli_numbers fresh gunshot refl (refl, refl, refl)
