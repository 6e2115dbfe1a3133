-- ===== src/Domain/Event.antt =====
-- Event, GameTime and Location of runtime-go/internal/domain/event.go, and their map forms.
pub mod RoundTrip
pub mod Json
use agent_rd.Common.{
  ℕ, zero, suc, String, Bool, true, false, not, ◌&&◌, Option, none, some, List, [], ◌∷◌,
  if◌then◌else◌, ◌==◌, string_eq, Float64, flt, fle, feq, lit,
}
use agent_rd.Domain.Value.{
  ℤ, pos, negsuc, Value, Items, Fields, NumberText, null, bool, num, int, str, strings, floats, arr,
  obj, done, field, get, has, map_from, clean_map, int_from, string_from, float_from, strings_from,
  floats_of_items,
}

pub record GameTime : Type 0 where
  pub day : ℤ
  pub hour : ℤ
  pub minute : ℤ

pub record Location (F : Type 0) : Type 0 where
  pub region : Option String
  pub position : Option (List F)

-- `seq` 0 stands for every number below 1: Validate refuses them alike.
pub record Event (F : Type 0) : Type 0 where
  pub seq : ℕ
  pub event_name : String
  pub npc_id : String
  pub event_id : String
  pub timestamp : F
  pub game_time : Option GameTime
  pub location : Option (Location F)
  pub entities : List String
  pub payload : Fields F
  pub summary : Option String
  pub importance : Option F
  pub tags : List String

pub data Invalid : Type 0 where
  event_name_required npc_id_required seq_too_small : Invalid

-- What a new event draws from outside: a random identifier and the clock.
pub record Fresh (F : Type 0) : Type 0 where
  pub new_id : String
  pub now : F

abbrev pub at_least_zero : ℤ → ℕ
at_least_zero (pos n) = n
at_least_zero (negsuc n) = 0

pub data Checked (A : Type 0) : Type 0 where
  ok : A → Checked A
  err : Invalid → Checked A

module _ {F : Type 0} where
  abbrev pub is_empty : Fields F → Bool
  is_empty done = true
  is_empty (field k v m) = false

  unfoldable pub game_time_to_map : GameTime → Fields F
  game_time_to_map g =
      field "day" (int g.day) (field "hour" (int g.hour) (field "minute" (int g.minute) done))

  unfoldable pub put_optional : String → Option (Value F) → Fields F → Fields F
  put_optional k none m = m
  put_optional k (some v) m = field k v m

  unfoldable pub location_to_map : Location F → Fields F
  unfolding put_optional
  location_to_map l =
      put_optional "region" (elim l.region [ none ↦ none | some r ↦ some (str r) ])
        (put_optional "position" (elim l.position [ none ↦ none | some p ↦ some (floats p) ]) done)

  -- Event.ToMap. The optional fields come first here; a map has no order.
  unfoldable pub to_map : Event F → Fields F
  unfolding game_time_to_map location_to_map put_optional clean_map
  to_map e =
      put_optional "game_time"
        (elim e.game_time [ none ↦ none | some g ↦ some (obj (game_time_to_map g)) ])
        (put_optional "location"
          (elim e.location [ none ↦ none | some l ↦ some (obj (location_to_map l)) ])
          (put_optional "summary" (elim e.summary [ none ↦ none | some s ↦ some (str s) ])
            (put_optional "importance" (elim e.importance [ none ↦ none | some x ↦ some (num x) ])
              (field "seq" (int (pos e.seq)) (
                field "event_id" (str e.event_id) (
                  field "event_name" (str e.event_name) (
                    field "timestamp" (num e.timestamp) (
                      field "npc_id" (str e.npc_id) (
                        field "entities" (strings e.entities) (
                          field "data" (obj (clean_map e.payload))
                            (field "tags" (strings e.tags) done)))))))))))

module _ {F : Type 0} ⦃o : Float64 F⦄ where
  -- math.Max(0, math.Min(1, x)), where x is a number.
  unfoldable pub clamp : F → F
  clamp x = if flt (lit 1 0) x then lit 1 0 else if fle x (lit 0 0) then lit 0 0 else x

  unfoldable pub clamp_importance : Option F → Option F
  unfolding clamp
  clamp_importance none = none
  clamp_importance (some x) = some (clamp x)

  -- Validate: the first failure, or the event with its importance clamped.
  unfoldable pub validate : Event F → Checked (Event F)
  unfolding clamp_importance
  validate e =
      if e.event_name == ""
      then err event_name_required
      else if e.npc_id == ""
      then err npc_id_required
      else elim e.seq [
        | zero ↦ err seq_too_small
        | suc n ↦ ok (record e { importance = clamp_importance e.importance })
      ]

module _ {F : Type 0} ⦃o : Float64 F⦄ (numbers : NumberText F) where
  unfoldable pub game_time_from_map : Fields F → Option GameTime
  unfolding int_from get
  game_time_from_map m =
      if is_empty m
      then none
      else some (record {
        day = int_from numbers (get "day" m);
        hour = int_from numbers (get "hour" m);
        minute = int_from numbers (get "minute" m);
      })

  abbrev pub as_string : Value F → Option String
  as_string (str s) = some s
  as_string _ = none

  abbrev pub as_map : Value F → Option (Fields F)
  as_map (obj m) = some m
  as_map _ = none

  -- `value["position"].([]any)`: a []float64 is not one.
  unfoldable pub as_floats : Value F → Option (List F)
  unfolding floats_of_items
  as_floats (arr xs) = some (floats_of_items numbers xs)
  as_floats _ = none

  unfoldable pub location_from_map : Fields F → Option (Location F)
  unfolding as_floats get
  location_from_map m =
      if is_empty m
      then none
      else some
          (record { region = as_string (get "region" m); position = as_floats (get "position" m) })

  -- Before Validate: the fields that EventFromMap reads.
  unfoldable pub read_event : Fresh F → Fields F → Event F
  unfolding get int_from string_from float_from strings_from game_time_from_map location_from_map
  read_event fresh m =
      let id = string_from numbers (get "event_id" m) in
      let stamp = float_from numbers (get "timestamp" m) in
      record {
        seq = at_least_zero (int_from numbers (get "seq" m));
        event_name = string_from numbers (get "event_name" m);
        npc_id = string_from numbers (get "npc_id" m);
        event_id = if id == "" then fresh.new_id else id;
        timestamp = if feq stamp (lit 0 0) then fresh.now else stamp;
        game_time = elim (as_map (get "game_time" m)) [
          | none ↦ none
          | some g ↦ game_time_from_map g
        ];
        location = elim (as_map (get "location" m)) [ none ↦ none | some l ↦ location_from_map l ];
        entities = strings_from numbers (get "entities" m);
        payload = elim (as_map (get "data" m)) [ none ↦ done | some d ↦ d ];
        summary = as_string (get "summary" m);
        importance = elim (get "importance" m) [ null ↦ none | v ↦ some (float_from numbers v) ];
        tags = strings_from numbers (get "tags" m);
      }

  -- EventFromMap
  unfoldable pub event_from_map : Fresh F → Fields F → Checked (Event F)
  unfolding read_event validate
  event_from_map fresh m = validate (read_event fresh m)

-- NewEventOptions
pub record EventOptions (F : Type 0) : Type 0 where
  pub payload : Fields F
  pub entities : List String
  pub tags : List String
  pub summary : Option String
  pub importance : Option F
  pub game_time : Option GameTime
  pub location : Option (Location F)
  pub timestamp : Option F

module _ {F : Type 0} ⦃o : Float64 F⦄ where
  -- NewEvent. Validate's error is dropped, and with it the clamping that comes after the checks.
  unfoldable pub new_event : Fresh F → ℕ → String → String → EventOptions F → Event F
  unfolding validate
  new_event fresh seq name npc opts =
      let e : Event F = record {
        seq = seq;
        event_name = name;
        npc_id = npc;
        event_id = fresh.new_id;
        timestamp = elim opts.timestamp [ none ↦ fresh.now | some t ↦ t ];
        game_time = opts.game_time;
        location = opts.location;
        entities = opts.entities;
        payload = opts.payload;
        summary = opts.summary;
        importance = opts.importance;
        tags = opts.tags;
      } in
      elim (validate e) [ ok v ↦ v | err x ↦ e ]
