-- ===== src/Samples/Json.antt =====
-- A JSON writer and reader for one event, as the store of store.go calls them.
use agent_rd.Common.{
  ℕ, String, Bool, true, false, ◌&&◌, Option, none, some, List, [], ◌≡◌, refl, arith, ◌==◌,
  string_eq, nat_eq, list_eq, if◌then◌else◌, milli_float, nat_beq,
}
use agent_rd.Domain.Value.{Fields, pos, num, int, str, strings, obj, done, field}
use agent_rd.Domain.Event.{Event, EventOptions, to_map, new_event}
use agent_rd.Domain.Event.Json.{json_map}
use agent_rd.Timeline.Lines.{newlines}
use agent_rd.Timeline.Store.{Env, codes}
use agent_rd.Timeline.Store.Linear.{JsonLaws}
use agent_rd.Samples.{milli_numbers}
use agent_rd.Samples.Events.{fresh}

abbrev pub no_trim : List ℕ → List ℕ
no_trim l = l

-- An event with nothing but a name.
abbrev pub plain : EventOptions ℕ
plain = record {
  payload = done;
  entities = [];
  tags = [];
  summary = none;
  importance = none;
  game_time = none;
  location = none;
  timestamp = none;
}

abbrev pub first_event : Event ℕ
first_event = new_event fresh 1 "NPC_ACTIVATED" "ped 1" plain

-- The map of that event, told from others by the fields that it has.
abbrev same_text : String → String → Bool
same_text a b = a == b

abbrev is_target : Fields ℕ → Bool
is_target
      (field k₁ (int (pos n)) (
        field k₂ (str s₂) (
          field k₃ (str s₃) (
            field k₄ (num x) (
              field k₅
                (str s₅)
                (field k₆ (strings []) (field k₇ (obj done) (field k₈ (strings []) done)))))))) =
    (same_text k₁ "seq" && nat_beq n 1)
    && ((same_text k₂ "event_id" && same_text s₂ "evt_new")
        && ((same_text k₃ "event_name" && same_text s₃ "NPC_ACTIVATED")
            && ((same_text k₄ "timestamp" && nat_beq x 5000)
                && ((same_text k₅ "npc_id" && same_text s₅ "ped 1")
                    && (same_text k₆ "entities" && (same_text k₇ "data" && same_text k₈ "tags"))))))
is_target _ = false

is_target_sound : (m : Fields ℕ) → is_target m ≡ true → m ≡ to_map first_event
unfolding to_map new_event
is_target_sound
      (field k₁ (int (pos n)) (
        field k₂ (str s₂) (
          field k₃ (str s₃) (
            field k₄ (num x) (
              field k₅
                (str s₅)
                (field k₆ (strings []) (field k₇ (obj done) (field k₈ (strings []) done))))))))
      h =
    ground (
      arith,
      string_eq.decides k₁ "seq",
      string_eq.decides k₂ "event_id",
      string_eq.decides s₂ "evt_new",
      string_eq.decides k₃ "event_name",
      string_eq.decides s₃ "NPC_ACTIVATED",
      string_eq.decides k₄ "timestamp",
      string_eq.decides k₅ "npc_id",
      string_eq.decides s₅ "ped 1",
      string_eq.decides k₆ "entities",
      string_eq.decides k₇ "data",
      string_eq.decides k₈ "tags",
    )
is_target_sound _ h = absurd (cc)

abbrev pub first_line : List ℕ
first_line = codes "{seq:1}"

abbrev marshal_first : Fields ℕ → Option (List ℕ)
marshal_first m = if is_target m then some first_line else none

abbrev unmarshal_first : List ℕ → Option (Fields ℕ)
unmarshal_first l =
    if l == first_line then some (json_map milli_numbers (to_map first_event)) else none

abbrev pub one_event_env : Env ℕ
one_event_env = record {
  numbers = milli_numbers;
  marshal = marshal_first;
  unmarshal = unmarshal_first;
  trim = no_trim;
  alphanumeric = λ c. false;
  fresh_at = λ n. fresh;
}

marshal_first-line : (m : Fields ℕ) (l : List ℕ) → marshal_first m ≡ some l → l ≡ first_line
marshal_first-line m l h = ground arith

marshal_first-map : (m : Fields ℕ) (l : List ℕ) → marshal_first m ≡ some l → m ≡ to_map first_event
marshal_first-map m l h = is_target_sound m (ground arith)

pub one_event_laws : JsonLaws one_event_env
unfolding newlines
one_event_laws = record {
  trim_nil = refl;
  one_line = λ m l h. rw (marshal_first-line m l h) refl;
  trimmed = λ m l h. refl;
  filled = λ m l h. rw (marshal_first-line m l h) refl;
  reads_back = λ m l h. rw (marshal_first-line m l h, marshal_first-map m l h) refl;
}
