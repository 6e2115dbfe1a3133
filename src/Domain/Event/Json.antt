-- ===== src/Domain/Event/Json.antt =====
-- What becomes of an event that is written as JSON and read back, as a timeline line is.
use agent_rd.Common.{
  ◌≡◌, refl, String, Option, none, some, List, [], ◌∷◌, if◌then◌else◌, ◌==◌, string_eq, Float64,
  feq, lit, ap,
}
use agent_rd.Domain.Value.{
  ℤ, pos, Value, Items, Fields, NumberText, null, bool, num, int, str, strings, floats, arr, obj,
  nil, cons, done, field, clean_map, string_from, float_from, strings_of_items, floats_of_items,
}
use agent_rd.Domain.Event.{
  Event, GameTime, Location, Fresh, to_map, read_event, event_from_map, validate, location_to_map,
  location_from_map, game_time_from_map, game_time_to_map,
}

module _ {F : Type 0} (numbers : NumberText F) where
  unfoldable pub items_of_strings : List String → Items F
  items_of_strings [] = nil
  items_of_strings (s ∷ ss) = cons (str s) (items_of_strings ss)

  unfoldable pub items_of_floats : List F → Items F
  items_of_floats [] = nil
  items_of_floats (x ∷ xs) = cons (num x) (items_of_floats xs)

  -- What encoding/json reads back of a value that it wrote: numbers are float64 and slices are []any.
  unfoldable mutual
    unfolding items_of_strings items_of_floats

    pub json_of : Value F → Value F
    json_of null = null
    json_of (bool b) = bool b
    json_of (num x) = num x
    json_of (int n) = num (numbers.of_int n)
    json_of (str s) = str s
    json_of (strings ss) = arr (items_of_strings ss)
    json_of (floats xs) = arr (items_of_floats xs)
    json_of (arr xs) = arr (json_items xs)
    json_of (obj m) = obj (json_map m)

    pub json_items : Items F → Items F
    json_items nil = nil
    json_items (cons v xs) = cons (json_of v) (json_items xs)

    pub json_map : Fields F → Fields F
    json_map done = done
    json_map (field k v m) = field k (json_of v) (json_map m)

module _ {F : Type 0} ⦃o : Float64 F⦄ (numbers : NumberText F) where
  -- An integer that float64 holds exactly.
  abbrev pub IsExact : ℤ → Type 0
  IsExact n = numbers.to_int (numbers.of_int n) ≡ n

  abbrev pub IsExactTime : Option GameTime → Type 0
  IsExactTime none = Unit
  IsExactTime (some g) = IsExact g.day × IsExact g.hour × IsExact g.minute

  strings_back : (ss : List String) → strings_of_items numbers (items_of_strings numbers ss) ≡ ss
  unfolding strings_of_items items_of_strings string_from
  strings_back [] = refl
  strings_back (s ∷ ss) = ap (λ l. s ∷ l) (strings_back ss)

  floats_back : (xs : List F) → floats_of_items numbers (items_of_floats numbers xs) ≡ xs
  unfolding floats_of_items items_of_floats float_from
  floats_back [] = refl
  floats_back (x ∷ xs) = ap (λ l. x ∷ l) (floats_back xs)

  -- A location without a region and a position is written as an empty map, and not read back.
  abbrev pub non_empty_location : Option (Location F) → Option (Location F)
  non_empty_location none = none
  non_empty_location (some l) = elim l.region [
    | some r ↦ some l
    | none ↦ elim l.position [ none ↦ none | some p ↦ some l ]
  ]

  location_back :
      (r : Option String) (p : Option (List F))
      → location_from_map numbers
          (json_map numbers (location_to_map (record { region = r; position = p })))
        ≡ non_empty_location (some (record { region = r; position = p }))
  unfolding location_from_map location_to_map json_map
  location_back none none = refl
  location_back none (some p) = rw floats_back
  location_back (some r) none = refl
  location_back (some r) (some p) = rw floats_back

  game_time_back :
      (g : GameTime)
      → IsExactTime (some g)
      → game_time_from_map numbers (json_map numbers (game_time_to_map g)) ≡ some g
  unfolding game_time_from_map game_time_to_map json_map
  game_time_back g h = rw (h.0, h.1, h.2)

  -- The event as it is read back.
  abbrev pub reread : Fresh F → Event F → Event F
  reread fresh e = record e {
    event_id = if e.event_id == "" then fresh.new_id else e.event_id;
    timestamp = if feq e.timestamp (lit 0 0) then fresh.now else e.timestamp;
    location = non_empty_location e.location;
    payload = json_map numbers (clean_map e.payload);
  }

  abbrev with_options :
      Event F → Option GameTime → Option (Location F) → Option String → Option F → Event F
  with_options e g l s i = record e { game_time = g; location = l; summary = s; importance = i }

  -- What the clauses below share, for the fields that every event has.
  read_json :
      (fresh : Fresh F) (e : Event F) (g : Option GameTime) (l : Option (Location F))
      (s : Option String) (i : Option F)
      → IsExact (pos e.seq)
      → IsExactTime g
      → read_event numbers fresh (json_map numbers (to_map (with_options e g l s i)))
        ≡ reread fresh (with_options e g l s i)
  unfolding read_event to_map json_map
  read_json fresh e none none none none q h = rw (q, strings_back e.entities, strings_back e.tags)
  read_json fresh e none none none _ q h = rw (q, strings_back e.entities, strings_back e.tags)
  read_json fresh e none none _ none q h = rw (q, strings_back e.entities, strings_back e.tags)
  read_json fresh e none none _ _ q h = rw (q, strings_back e.entities, strings_back e.tags)
  read_json fresh e none (some l) none none q h =
      rw (q, strings_back e.entities, strings_back e.tags, location_back l.region l.position)
  read_json fresh e none (some l) none _ q h =
      rw (q, strings_back e.entities, strings_back e.tags, location_back l.region l.position)
  read_json fresh e none (some l) _ none q h =
      rw (q, strings_back e.entities, strings_back e.tags, location_back l.region l.position)
  read_json fresh e none (some l) _ _ q h =
      rw (q, strings_back e.entities, strings_back e.tags, location_back l.region l.position)
  read_json fresh e (some g) none none none q h =
      rw (q, strings_back e.entities, strings_back e.tags, game_time_back g h)
  read_json fresh e (some g) none none _ q h =
      rw (q, strings_back e.entities, strings_back e.tags, game_time_back g h)
  read_json fresh e (some g) none _ none q h =
      rw (q, strings_back e.entities, strings_back e.tags, game_time_back g h)
  read_json fresh e (some g) none _ _ q h =
      rw (q, strings_back e.entities, strings_back e.tags, game_time_back g h)
  read_json fresh e (some g) (some l) none none q h = rw (
    q,
    strings_back e.entities,
    strings_back e.tags,
    game_time_back g h,
    location_back l.region l.position,
  )
  read_json fresh e (some g) (some l) none _ q h = rw (
    q,
    strings_back e.entities,
    strings_back e.tags,
    game_time_back g h,
    location_back l.region l.position,
  )
  read_json fresh e (some g) (some l) _ none q h = rw (
    q,
    strings_back e.entities,
    strings_back e.tags,
    game_time_back g h,
    location_back l.region l.position,
  )
  read_json fresh e (some g) (some l) _ _ q h = rw (
    q,
    strings_back e.entities,
    strings_back e.tags,
    game_time_back g h,
    location_back l.region l.position,
  )

  -- An event that is written as JSON and read back, as a timeline line is, is the event that was
  -- written, its position included, except as follows. Its payload is as JSON holds it: nil entries of
  -- maps are gone, every int is its float64, and every typed slice is a []any. An empty identifier or
  -- zero timestamp is drawn anew, and an empty location is no location. The sequence number and the
  -- game time must be ones that float64 holds exactly. The result passes the same validation as the
  -- event itself.
  pub event_from_map-json :
      (fresh : Fresh F) (e : Event F)
      → IsExact (pos e.seq)
      → IsExactTime e.game_time
      → event_from_map numbers fresh (json_map numbers (to_map e)) ≡ validate (reread fresh e)
  unfolding event_from_map
  event_from_map-json fresh e q h =
      ap validate (read_json fresh e e.game_time e.location e.summary e.importance q h)
