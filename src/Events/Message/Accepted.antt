-- ===== src/Events/Message/Accepted.antt =====
-- When EventFromMessage accepts a payload, and what the event then is.
use Prim.Native.Char.{Char}
use agent_rd.Common.{
  ℕ, ◌≤◌, String, true, Option, none, List, [], ◌≡◌, refl, subst, ◌∙◌, ◌⊎◌, inl, inr, ◌↔◌, ◌≢◌,
  ◌==◌, string_eq, arith, Bool-cases, Float64,
}
use agent_rd.Domain.Value.{ℤ, pos, Fields, NumberText, get, string_from}
use agent_rd.Domain.Event.{Event, Fresh, clamp_importance}
use agent_rd.Eligibility.Gate.{codes}
use agent_rd.Events.Readers.{
  ok, err, data_not_object, game_time_not_object, location_not_object, is_event_name, truthy,
  string_list, importance_from,
}
use agent_rd.Events.Message.{npc_value, name_value, with_id, message_name, event_from_message}
use agent_rd.Events.Message.Steps.{
  valid_seq-ok, valid_seq-pos, Steps, options_of, event_of, event_from_message-Steps,
  Steps-event_from_message, importance_clamped, new_event-fields,
}
use agent_rd.Events.Message.Forms.{
  is_object, is_listable, is_score, falsy_or, object_in, optional_object-ok, is_object-optional,
  string_list-ok, is_listable-list, importance_from-ok, is_score-importance,
}

module _ {F : Type 0} ⦃o : Float64 F⦄ (numbers : NumberText F) (trim_space : String → String)
    (upper : Char → Char) where
  -- What a payload needs to become an event.
  pub record IsAcceptable (raw : Fields F) (seq : ℤ) (fallback : String) : Type 0 where
    pub npc_given : truthy (npc_value raw fallback) ≡ true
    pub name_given : truthy (name_value raw) ≡ true
    pub name_valid : is_event_name (codes (message_name numbers trim_space upper raw)) ≡ true
    pub data_object : falsy_or is_object (get "data" raw) ≡ true
    pub entities_listable : falsy_or is_listable (get "entities" raw) ≡ true
    pub tags_listable : falsy_or is_listable (get "tags" raw) ≡ true
    pub game_time_object : falsy_or is_object (get "game_time" raw) ≡ true
    pub location_object : falsy_or is_object (get "location" raw) ≡ true
    pub importance_score : is_score numbers trim_space (get "importance" raw) ≡ true
    pub positive : (n : ℕ) × (1 ≤ n) × (seq ≡ pos n)

  abbrev acceptable :
      {raw : Fields F} {seq : ℤ} {fallback : String}
      → Steps numbers trim_space upper raw seq fallback
      → IsAcceptable raw seq fallback
  acceptable {seq} s = record {
    npc_given = s.npc_given;
    name_given = s.name_given;
    name_valid = s.name_valid;
    data_object = (optional_object-ok _ _ s.payload_read).0;
    entities_listable = string_list-ok numbers _ _ s.entities_read;
    tags_listable = string_list-ok numbers _ _ s.tags_read;
    game_time_object = (optional_object-ok _ _ s.game_time_read).0;
    location_object = (optional_object-ok _ _ s.location_read).0;
    importance_score = importance_from-ok numbers trim_space _ s.importance_read;
    positive = let (e, p) = valid_seq-ok seq s.number_read in (s.number, p, e);
  }

  steps :
      {raw : Fields F} {seq : ℤ} {fallback : String}
      → IsAcceptable raw seq fallback
      → Steps numbers trim_space upper raw seq fallback
  steps {seq} a =
      let (entities, entities_read) = is_listable-list numbers _ "entities" a.entities_listable in
      let (tags, tags_read) = is_listable-list numbers _ "tags" a.tags_listable in
      let (importance, importance_read) =
        is_score-importance numbers trim_space _ a.importance_score in
      record {
        npc_given = a.npc_given;
        name_given = a.name_given;
        name_valid = a.name_valid;
        payload = _;
        payload_read = is_object-optional data_not_object _ a.data_object;
        entities = entities;
        entities_read = entities_read;
        tags = tags;
        tags_read = tags_read;
        game_time = _;
        game_time_read = is_object-optional game_time_not_object _ a.game_time_object;
        location = _;
        location_read = is_object-optional location_not_object _ a.location_object;
        importance = importance;
        importance_read = importance_read;
        number = a.positive.0;
        number_read = valid_seq-pos seq a.positive.0 a.positive.1 a.positive.2;
      }

  -- EventFromMessage accepts a payload exactly if: the payload or the default names an NPC, the
  -- payload names an event and the upper-cased name matches the pattern, the data, game time and
  -- location are objects or falsy, the entities and tags are falsy or a text, list or object, the
  -- importance is no list, no object and no text but a number, and the sequence number is positive.
  pub event_from_message-IsAcceptable :
      (fresh : Fresh F) (raw : Fields F) (seq : ℤ) (fallback : String)
      → ((e : Event F) × (event_from_message numbers trim_space upper fresh raw seq fallback
            ≡ ok e))
        ↔ IsAcceptable raw seq fallback
  event_from_message-IsAcceptable fresh raw seq fallback = (
    (λ (e, h).
        acceptable (event_from_message-Steps numbers trim_space upper fresh raw seq fallback h).0),
    (λ a. (_, Steps-event_from_message numbers trim_space upper fresh raw seq fallback (steps a))),
  )

  -- The importance that a payload carries.
  abbrev pub score_in : Fields F → Option F
  score_in raw = elim (importance_from numbers trim_space (get "importance" raw)) [
    | ok x ↦ x
    | err x ↦ none
  ]

  abbrev pub list_in : String → Fields F → List String
  list_in name raw = elim (string_list numbers (get name raw) name) [ ok l ↦ l | err x ↦ [] ]

  -- The event that an accepted message becomes.
  pub record IsReadFrom (raw : Fields F) (seq : ℤ) (fallback : String) (e : Event F) : Type 0 where
    pub valid_name : is_event_name (codes e.event_name) ≡ true
    pub name : e.event_name ≡ message_name numbers trim_space upper raw
    pub number : (1 ≤ e.seq) × (seq ≡ pos e.seq)
    pub owner : e.npc_id ≡ string_from numbers (npc_value raw fallback)
    pub payload : e.payload ≡ object_in (get "data" raw)
    pub entities : e.entities ≡ list_in "entities" raw
    pub tags : e.tags ≡ list_in "tags" raw
    pub importance : (e.npc_id ≡ "") ⊎ (e.importance ≡ clamp_importance (score_in raw))

  event_name_some : (name : String) → is_event_name (codes name) ≡ true → name ≢ ""
  event_name_some name h e =
      let no : is_event_name (codes "") ≡ true = subst (λ n. is_event_name (codes n) ≡ true) e h in
      absurd (cc)

  event_of-IsReadFrom :
      (fresh : Fresh F) {raw : Fields F} {seq : ℤ} {fallback : String}
      → (s : Steps numbers trim_space upper raw seq fallback)
      → IsReadFrom raw seq fallback (event_of numbers trim_space upper fresh s)
  event_of-IsReadFrom fresh {raw} {seq} {fallback} s =
      let fresh' = with_id (string_from numbers (get "event_id" raw)) fresh in
      let opts = options_of numbers trim_space upper s in
      let npc = string_from numbers (npc_value raw fallback) in
      let (name, number, owner, payload, entities, tags) =
        new_event-fields fresh' s.number (message_name numbers trim_space upper raw) npc opts in
      let (is_seq, positive) = valid_seq-ok seq s.number_read in
      record {
        valid_name = rw name s.name_valid;
        name = name;
        number = (rw number positive, rw number is_seq);
        owner = owner;
        payload = payload ∙ (optional_object-ok _ _ s.payload_read).1;
        entities = entities ∙ rw (s.entities_read, list_in) refl;
        tags = tags ∙ rw (s.tags_read, list_in) refl;
        importance = elim (Bool-cases (npc == "")) [
          | inl none_given ↦ inl (owner ∙ (string_eq.decides npc "").0 none_given)
          | inr given ↦ inr (
              importance_clamped fresh' s.number (message_name numbers trim_space upper raw) npc
                opts (event_name_some _ s.name_valid)
                (λ p. absurd (ground (arith, (string_eq.decides npc "").1 p))) positive
              ∙ rw (s.importance_read, score_in) refl)
        ];
      }

  pub event_from_message-IsReadFrom :
      (fresh : Fresh F) (raw : Fields F) (seq : ℤ) (fallback : String) (e : Event F)
      → event_from_message numbers trim_space upper fresh raw seq fallback ≡ ok e
      → IsReadFrom raw seq fallback e
  event_from_message-IsReadFrom fresh raw seq fallback e h =
      let (s, same) = event_from_message-Steps numbers trim_space upper fresh raw seq fallback h in
      subst (IsReadFrom raw seq fallback) same (event_of-IsReadFrom fresh s)
