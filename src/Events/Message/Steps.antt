-- ===== src/Events/Message/Steps.antt =====
-- The steps of EventFromMessage where it accepts a payload.
use Prim.Native.Char.{Char}
use agent_rd.Common.{
  ℕ, zero, suc, ◌≤◌, String, Bool, true, false, Option, List, ◌≡◌, refl, ap, ◌≢◌, string_eq, arith,
  Float64,
}
use agent_rd.Domain.Value.{ℤ, pos, negsuc, Fields, NumberText, get, string_from}
use agent_rd.Domain.Event.{
  Event, EventOptions, Fresh, new_event, validate, clamp_importance, game_time_from_map,
  location_from_map,
}
use agent_rd.Eligibility.Gate.{codes}
use agent_rd.Events.Readers.{
  Parsed, ok, err, MessageError, missing_npc_id, missing_event_name, data_not_object,
  game_time_not_object, location_not_object, is_event_name, truthy, string_list, summary_from,
  importance_from,
}
use agent_rd.Events.Message.{
  ◌>>=◌, require, optional_object, npc_value, name_value, timestamp_from, valid_seq, with_id,
  message_name, event_from_message,
}

-- The parts of a chain that gives a result.
bind-ok :
    {A B : Type 0} (p : Parsed A) (next : A → Parsed B) {b : B}
    → (p >>= next) ≡ ok b
    → (a : A) × (p ≡ ok a) × (next a ≡ ok b)
bind-ok (ok a) next h = (a, refl, h)
bind-ok (err x) next h = absurd (cc)

pub ok_inj : {A : Type 0} {a b : A} → ok a ≡ ok b → a ≡ b
ok_inj h = cc

require-ok : (b : Bool) (x : MessageError) {u : Unit {0}} → require b x ≡ ok u → b ≡ true
require-ok true x h = refl
require-ok false x h = absurd (cc)

pub valid_seq-ok : (seq : ℤ) {n : ℕ} → valid_seq seq ≡ ok n → (seq ≡ pos n) × (1 ≤ n)
valid_seq-ok (pos zero) h = absurd (cc)
valid_seq-ok (pos (suc m)) {n} h = let e : suc m ≡ n = cc in (ap pos e, omega arith)
valid_seq-ok (negsuc m) h = absurd (cc)

pub valid_seq-pos : (seq : ℤ) (n : ℕ) → 1 ≤ n → seq ≡ pos n → valid_seq seq ≡ ok n
valid_seq-pos seq zero p e = absurd (omega arith)
valid_seq-pos seq (suc n) p e = rw e refl

module _ {F : Type 0} ⦃o : Float64 F⦄ (numbers : NumberText F) (trim_space : String → String)
    (upper : Char → Char) where
  -- The steps of an accepted message, with what each gives.
  pub record Steps (raw : Fields F) (seq : ℤ) (fallback : String) : Type 0 where
    pub npc_given : truthy (npc_value raw fallback) ≡ true
    pub name_given : truthy (name_value raw) ≡ true
    pub name_valid : is_event_name (codes (message_name numbers trim_space upper raw)) ≡ true
    pub payload : Fields F
    pub payload_read : optional_object data_not_object (get "data" raw) ≡ ok payload
    pub entities : List String
    pub entities_read : string_list numbers (get "entities" raw) "entities" ≡ ok entities
    pub tags : List String
    pub tags_read : string_list numbers (get "tags" raw) "tags" ≡ ok tags
    pub game_time : Fields F
    pub game_time_read : optional_object game_time_not_object (get "game_time" raw) ≡ ok game_time
    pub location : Fields F
    pub location_read : optional_object location_not_object (get "location" raw) ≡ ok location
    pub importance : Option F
    pub importance_read : importance_from numbers trim_space (get "importance" raw) ≡ ok importance
    pub number : ℕ
    pub number_read : valid_seq seq ≡ ok number

  abbrev pub options_of :
      {raw : Fields F} {seq : ℤ} {fallback : String} → Steps raw seq fallback → EventOptions F
  options_of {raw} s = record {
    payload = s.payload;
    entities = s.entities;
    tags = s.tags;
    summary = summary_from numbers (get "summary" raw);
    importance = s.importance;
    game_time = game_time_from_map numbers s.game_time;
    location = location_from_map numbers s.location;
    timestamp = timestamp_from numbers (get "timestamp" raw);
  }

  abbrev pub event_of :
      {raw : Fields F} {seq : ℤ} {fallback : String} → Fresh F → Steps raw seq fallback → Event F
  event_of {raw} {fallback} fresh s =
      new_event (with_id (string_from numbers (get "event_id" raw)) fresh) s.number
        (message_name numbers trim_space upper raw) (string_from numbers (npc_value raw fallback))
        (options_of s)

  pub event_from_message-Steps :
      (fresh : Fresh F) (raw : Fields F) (seq : ℤ) (fallback : String) {e : Event F}
      → event_from_message numbers trim_space upper fresh raw seq fallback ≡ ok e
      → (s : Steps raw seq fallback) × (event_of fresh s ≡ e)
  unfolding event_from_message
  event_from_message-Steps fresh raw seq fallback h =
      let (u0, npc_given, h0) =
        bind-ok (require (truthy (npc_value raw fallback)) missing_npc_id) _ h in
      let (u1, name_given, h1) =
        bind-ok (require (truthy (name_value raw)) missing_event_name) _ h0 in
      let (u2, name_valid, h2) =
        bind-ok (require (is_event_name (codes (message_name numbers trim_space upper raw))) _) _
          h1 in
      let (payload, payload_read, h3) = bind-ok _ _ h2 in
      let (entities, entities_read, h4) = bind-ok _ _ h3 in
      let (tags, tags_read, h5) = bind-ok _ _ h4 in
      let (game_time, game_time_read, h6) = bind-ok _ _ h5 in
      let (location, location_read, h7) = bind-ok _ _ h6 in
      let (importance, importance_read, h8) = bind-ok _ _ h7 in
      let (number, number_read, h9) = bind-ok _ _ h8 in
      (
        record {
          npc_given = require-ok _ _ npc_given;
          name_given = require-ok _ _ name_given;
          name_valid = require-ok _ _ name_valid;
          payload = payload;
          payload_read = payload_read;
          entities = entities;
          entities_read = entities_read;
          tags = tags;
          tags_read = tags_read;
          game_time = game_time;
          game_time_read = game_time_read;
          location = location;
          location_read = location_read;
          importance = importance;
          importance_read = importance_read;
          number = number;
          number_read = number_read;
        },
        ok_inj h9,
      )

  pub Steps-event_from_message :
      (fresh : Fresh F) (raw : Fields F) (seq : ℤ) (fallback : String) (s : Steps raw seq fallback)
      → event_from_message numbers trim_space upper fresh raw seq fallback ≡ ok (event_of fresh s)
  unfolding event_from_message
  Steps-event_from_message fresh raw seq fallback s =
      rw
        (
          s.npc_given, s.name_given, s.name_valid, s.payload_read, s.entities_read, s.tags_read,
          s.game_time_read, s.location_read, s.importance_read, s.number_read,
        )
        refl

module _ {F : Type 0} ⦃o : Float64 F⦄ where
  pub importance_clamped :
      (fresh : Fresh F) (n : ℕ) (name npc : String) (opts : EventOptions F)
      → name ≢ ""
      → npc ≢ ""
      → 1 ≤ n
      → (new_event fresh n name npc opts).importance ≡ clamp_importance opts.importance
  unfolding new_event validate
  importance_clamped fresh zero name npc opts named some_npc positive = absurd (omega arith)
  importance_clamped fresh (suc n) name npc opts named some_npc positive =
      ground (arith, string_eq.decides name "", string_eq.decides npc "")

  -- The fields that NewEvent takes over, whether or not Validate accepts them.
  pub new_event-fields :
      (fresh : Fresh F) (n : ℕ) (name npc : String) (opts : EventOptions F)
      → let e = new_event fresh n name npc opts in
        (e.event_name ≡ name)
        × (e.seq ≡ n)
        × (e.npc_id ≡ npc)
        × (e.payload ≡ opts.payload)
        × (e.entities ≡ opts.entities)
        × (e.tags ≡ opts.tags)
  unfolding new_event validate
  new_event-fields fresh zero name npc opts = ground arith
  new_event-fields fresh (suc n) name npc opts = ground arith
