-- ===== src/Domain/Event/RoundTrip.antt =====
-- What becomes of an event that is turned into a map and back without JSON in between, as the timeline
-- store's repair does.
use agent_rd.Common.{
  ◌≡◌, refl, String, Option, none, some, List, if◌then◌else◌, ◌==◌, string_eq, Float64, feq, lit,
  ap,
}
use agent_rd.Domain.Value.{Value, Fields, NumberText, get, clean_map}
use agent_rd.Domain.Event.{
  Event, GameTime, Location, Fresh, put_optional, to_map, read_event, event_from_map, validate,
  location_to_map, location_from_map,
}

module _ {F : Type 0} where
  get-put_optional :
      (k j : String) (v : Option (Value F)) (m : Fields F)
      → get k (put_optional j v m)
        ≡ elim v [ none ↦ get k m | some x ↦ if k == j then x else get k m ]
  unfolding get put_optional
  get-put_optional k j none m = refl
  get-put_optional k j (some x) m = refl

  -- The location that comes back: its position is lost, and with no region it is lost altogether,
  -- but for one that had a position.
  abbrev pub without_position : Option (Location F) → Option (Location F)
  without_position none = none
  without_position (some l) = elim l.region [
    | some r ↦ some (record { region = some r; position = none })
    | none ↦ elim l.position [
      | none ↦ none
      | some p ↦ some (record { region = none; position = none })
    ]
  ]

module _ {F : Type 0} ⦃o : Float64 F⦄ (numbers : NumberText F) where
  abbrev pub restored : Fresh F → Event F → Event F
  restored fresh e = record e {
    event_id = if e.event_id == "" then fresh.new_id else e.event_id;
    timestamp = if feq e.timestamp (lit 0 0) then fresh.now else e.timestamp;
    location = without_position e.location;
    payload = clean_map e.payload;
  }

  location_back :
      (r : Option String) (p : Option (List F))
      → location_from_map numbers (location_to_map (record { region = r; position = p }))
        ≡ without_position (some (record { region = r; position = p }))
  unfolding location_from_map location_to_map
  location_back none none = refl
  location_back none (some p) = refl
  location_back (some r) none = refl
  location_back (some r) (some p) = refl

  -- The event with its four optional fields given.
  abbrev with_options :
      Event F → Option GameTime → Option (Location F) → Option String → Option F → Event F
  with_options e g l s i = record e { game_time = g; location = l; summary = s; importance = i }

  read_back :
      (fresh : Fresh F) (e : Event F) (g : Option GameTime) (l : Option (Location F))
      (s : Option String) (i : Option F)
      → read_event numbers fresh (to_map (with_options e g l s i))
        ≡ restored fresh (with_options e g l s i)
  unfolding read_event to_map
  read_back fresh e none none none none = refl
  read_back fresh e none none none _ = refl
  read_back fresh e none none _ none = refl
  read_back fresh e none none _ _ = refl
  read_back fresh e _ none none none = refl
  read_back fresh e _ none none _ = refl
  read_back fresh e _ none _ none = refl
  read_back fresh e _ none _ _ = refl
  read_back fresh e none (some l) none none = rw (location_back l.region l.position)
  read_back fresh e none (some l) none _ = rw (location_back l.region l.position)
  read_back fresh e none (some l) _ none = rw (location_back l.region l.position)
  read_back fresh e none (some l) _ _ = rw (location_back l.region l.position)
  read_back fresh e _ (some l) none none = rw (location_back l.region l.position)
  read_back fresh e _ (some l) none _ = rw (location_back l.region l.position)
  read_back fresh e _ (some l) _ none = rw (location_back l.region l.position)
  read_back fresh e _ (some l) _ _ = rw (location_back l.region l.position)

  read-to_map :
      (fresh : Fresh F) (e : Event F) → read_event numbers fresh (to_map e) ≡ restored fresh e
  read-to_map fresh e = read_back fresh e e.game_time e.location e.summary e.importance

  -- Turning a valid event into a map and reading it back in memory keeps its name, NPC, sequence
  -- number, clock, entities, summary and tags; the payload loses its nil entries, an empty identifier
  -- and a zero timestamp are replaced, the importance is clamped, and the location loses its position:
  -- a []float64 in the map is not the []any that the reader asks for.
  pub event_from_map-to_map :
      (fresh : Fresh F) (e : Event F)
      → event_from_map numbers fresh (to_map e) ≡ validate (restored fresh e)
  unfolding event_from_map
  event_from_map-to_map fresh e = ap validate (read-to_map fresh e)
