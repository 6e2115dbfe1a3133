-- ===== src/Samples/Facts.antt =====
-- Messages of the bridge, and the events that they become.
use Prim.Native.Char.{Char}
use agent_rd.Common.{
  ℕ, String, true, none, [], ◌∷◌, ◌≡◌, ◌≢◌, ◌↔◌, refl, ◌==◌, string_eq, milli_float,
}
use agent_rd.Domain.Value.{
  ℤ, pos, Fields, str, num, arr, obj, nil, cons, done, field, get, string_from,
}
use agent_rd.Domain.Event.{Event}
use agent_rd.Events.Readers.{
  Parsed, ok, err, seq_too_small, invalid_event_name, data_not_object, truthy,
}
use agent_rd.Eligibility.Gate.{codes, to_lower}
use agent_rd.Events.Message.{event_from_message}
use agent_rd.Events.Message.Forms.{is_score}
use agent_rd.Events.Message.Accepted.{IsAcceptable, event_from_message-IsAcceptable}
use agent_rd.Events.Facts.{player_spoke, npc_spoke, action_result, result_event}
use agent_rd.Events.Facts.Copies.{kept_result}
use agent_rd.Events.Facts.Spoken.{IsSpeech, event_from_message-spoke}
use agent_rd.Events.Facts.Results.{IsReportedAs, event_from_message-action_result}
use agent_rd.Samples.Events.{fresh}
use agent_rd.Samples.{milli_numbers}

abbrev same_text : String → String
same_text s = s

abbrev same_char : Char → Char
same_char c = c

abbrev same_code : ℕ → ℕ
same_code c = c

-- A shot, named in lower case, that gives its tag as a text.
abbrev shot : Fields ℕ
shot =
    field "name" (str "gunshot_heard")
      (field "tags" (str "danger") (field "data" (obj (field "distance" (num 12000) done)) done))

abbrev read_message : Fields ℕ → ℤ → Parsed (Event ℕ)
read_message raw seq = event_from_message milli_numbers same_text same_char fresh raw seq "ped_1"

shot_refused : read_message shot (pos 0) ≡ err seq_too_small
unfolding event_from_message
shot_refused = refl

-- The data are tested before the number.
list_refused : read_message (field "data" (str "x") shot) (pos 0) ≡ err data_not_object
unfolding event_from_message
list_refused = refl

spaced_refused :
    read_message (field "event_name" (str "gun shot") done) (pos 1)
    ≡ err (invalid_event_name "GUN SHOT")
unfolding event_from_message
spaced_refused = refl

abbrev shot_event : Event ℕ
shot_event = record {
  seq = 3;
  event_name = "GUNSHOT_HEARD";
  npc_id = "ped_1";
  event_id = fresh.new_id;
  timestamp = fresh.now;
  game_time = none;
  location = none;
  entities = [];
  payload = field "distance" (num 12000) done;
  summary = none;
  importance = none;
  tags = "danger" ∷ [];
}

event_from_message-IsAcceptable_example :
    ((e : Event ℕ) × (event_from_message milli_numbers same_text same_char fresh shot
          (pos 3)
          "ped_1"
        ≡ ok e))
    ↔ IsAcceptable milli_numbers same_text same_char shot (pos 3) "ped_1"
event_from_message-IsAcceptable_example =
    event_from_message-IsAcceptable milli_numbers same_text same_char fresh shot (pos 3) "ped_1"

-- An array as the identifier passes the test for a missing one, and the event belongs to nobody.
abbrev nobody : Fields ℕ
nobody = field "npc_id" (arr (cons (str "ped_1") nil)) (field "name" (str "gunshot_heard") done)

nobody_read :
    read_message nobody (pos 3) ≡ ok (record shot_event { npc_id = ""; payload = done; tags = [] })
unfolding event_from_message
nobody_read = refl

abbrev heard : Fields ℕ
heard = field "mode" (str "voice") done

abbrev somebody : String
somebody = "ped_1"

somebody-some : somebody ≢ ""
somebody-some e =
    let hit : (somebody == "") ≡ true = (string_eq.decides somebody "").1 e in absurd (cc)

event_from_message-spoke_example :
    ((e : Event ℕ) × (event_from_message milli_numbers same_text same_char fresh
          (player_spoke "ped_1" "howdy" heard)
          (pos 1)
          "ped_2"
        ≡ ok e)
      × IsSpeech "PLAYER_SPOKE" "ped_1" "player" "howdy" heard e)
    × ((e : Event ℕ) × (event_from_message milli_numbers same_text same_char fresh
            (npc_spoke "ped_1" "howdy" heard)
            (pos 1)
            "ped_2"
          ≡ ok e)
        × IsSpeech "NPC_SPOKE" "ped_1" "ped_1" "howdy" heard e)
event_from_message-spoke_example =
    event_from_message-spoke milli_numbers same_text same_char "ped_1" "howdy" "ped_2" heard fresh 0
      somebody-some

abbrev walked : Fields ℕ
walked =
    field "npc_id" (str "ped_1")
      (field "status" (str "Completed") (field "tool" (str "go_to") (field "took" (num 2000) done)))

walked_completed : result_event milli_numbers same_code (get "status" walked) ≡ "ACTION_COMPLETED"
unfolding result_event get
walked_completed = refl

walked_owned : truthy (get "npc_id" walked) ≡ true
unfolding truthy get
walked_owned = refl

walked_scored : is_score milli_numbers same_text (get "importance" walked) ≡ true
unfolding get
walked_scored = refl

event_from_message-action_result_example :
    (e : Event ℕ) × (event_from_message milli_numbers same_text same_char fresh
        (action_result milli_numbers same_code walked)
        (pos 1)
        "ped_2"
      ≡ ok e)
    × IsReportedAs
        (to_lower same_code (codes (string_from milli_numbers (get "status" walked))))
        e.event_name
    × (e.npc_id ≡ string_from milli_numbers (get "npc_id" walked))
    × ((k : String) → get k e.payload ≡ kept_result k walked)
event_from_message-action_result_example =
    event_from_message-action_result milli_numbers same_text same_char same_code walked "ped_2"
      fresh 0 walked_owned walked_scored
