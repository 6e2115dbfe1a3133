-- ===== src/Events/Facts/Spoken.antt =====
-- Speech facts, taken through EventFromMessage.
use Prim.Native.Char.{Char}
use agent_rd.Common.{
  ℕ, suc, String, true, [], ◌∷◌, ◌≡◌, ◌≢◌, refl, ap, ◌∙◌, string_eq, list_eq, nat_eq, arith,
  Float64,
}
use agent_rd.Domain.Value.{
  pos, Fields, NumberText, str, strings, obj, done, field, get, string_from,
}
use agent_rd.Domain.Event.{Event, Fresh}
use agent_rd.Eligibility.Gate.{codes}
use agent_rd.Events.Readers.{ok, truthy, string_list, listed, is_event_name, to_upper}
use agent_rd.Events.Message.{event_from_message}
use agent_rd.Events.Message.Forms.{is_object-falsy_or, object_in-obj}
use agent_rd.Events.Message.Accepted.{
  IsAcceptable, IsReadFrom, event_from_message-IsAcceptable, event_from_message-IsReadFrom,
}
use agent_rd.Events.Facts.{merge_text, player_spoke, npc_spoke}
use agent_rd.Events.Facts.Copies.{spoken, get-merge_text}

module _ {F : Type 0} where
  -- An event with this name, NPC, entity and text, and with the caller's entries.
  abbrev pub IsSpeech : String → String → String → String → Fields F → Event F → Type 0
  IsSpeech name npc who text extra e =
      (e.event_name ≡ name)
      × (e.npc_id ≡ npc)
      × (e.entities ≡ who ∷ [])
      × ((k : String) → get k e.payload ≡ spoken k text extra)

module _ {F : Type 0} ⦃o : Float64 F⦄ (numbers : NumberText F) (trim_space : String → String)
    (upper : Char → Char) where
  truthy_text : (s : String) → s ≢ "" → truthy {F = F} (str s) ≡ true
  unfolding truthy
  truthy_text s h = ground (arith, string_eq.decides s "")

  -- The payload of PlayerSpoke and NPCSpoke under any name, entity and tags.
  abbrev speech_named : String → String → String → String → Fields F → Fields F
  speech_named name npc who tag m = field "event_name" (str name) (
      field "npc_id" (str npc) (
        field "entities" (strings (who ∷ []))
          (field "tags" (strings (tag ∷ "speech" ∷ [])) (field "data" (obj m) done))))

  speech_named-IsAcceptable :
      (name npc who tag fallback : String) (m : Fields F) (n : ℕ)
      → npc ≢ ""
      → truthy {F = F} (str name) ≡ true
      → is_event_name (codes (to_upper upper name)) ≡ true
      → IsAcceptable numbers trim_space upper
          (speech_named name npc who tag m)
          (pos (suc n))
          fallback
  unfolding get string_from
  speech_named-IsAcceptable name npc who tag fallback m n h named valid = record {
    npc_given = rw (truthy_text npc h) (truthy_text npc h);
    name_given = rw named named;
    name_valid = rw named valid;
    data_object = is_object-falsy_or (obj m) refl;
    entities_listable = unfold truthy in refl;
    tags_listable = unfold truthy in refl;
    game_time_object = unfold truthy in refl;
    location_object = unfold truthy in refl;
    importance_score = refl;
    positive = (suc n, omega arith, refl);
  }

  speech_named-IsSpeech :
      (name npc who tag text fallback : String) (extra : Fields F) (n : ℕ) (e : Event F)
      → npc ≢ ""
      → truthy {F = F} (str name) ≡ true
      → to_upper upper name ≡ name
      → IsReadFrom numbers trim_space upper
          (speech_named name npc who tag (merge_text text extra))
          (pos (suc n))
          fallback
          e
      → IsSpeech name npc who text extra e
  unfolding get string_from string_list listed
  speech_named-IsSpeech name npc who tag text fallback extra n e h named same r = (
    r.name ∙ rw named same,
    r.owner ∙ rw (truthy_text npc h) refl,
    r.entities ∙ (unfold truthy in refl),
    (λ k.
        ap (get k) (r.payload ∙ object_in-obj (merge_text text extra))
        ∙ get-merge_text k text extra),
  )

  read-IsSpeech :
      (name npc who tag text fallback : String) (extra : Fields F) (fresh : Fresh F) (n : ℕ)
      → npc ≢ ""
      → truthy {F = F} (str name) ≡ true
      → to_upper upper name ≡ name
      → is_event_name (codes (to_upper upper name)) ≡ true
      → (e : Event F) × (event_from_message numbers trim_space upper fresh
            (speech_named name npc who tag (merge_text text extra))
            (pos (suc n))
            fallback
          ≡ ok e)
        × IsSpeech name npc who text extra e
  read-IsSpeech name npc who tag text fallback extra fresh n h named same valid =
      let m = merge_text text extra in
      let accepted = speech_named-IsAcceptable name npc who tag fallback m n h named valid in
      let raw = speech_named name npc who tag m in
      let (e, made) =
        (event_from_message-IsAcceptable numbers trim_space upper fresh raw (pos (suc n))
            fallback).1
          accepted in
      let read =
        event_from_message-IsReadFrom numbers trim_space upper fresh raw (pos (suc n)) fallback e
          made in
      (e, made, speech_named-IsSpeech name npc who tag text fallback extra n e h named same read)

  -- With an NPC's identifier that is not empty and a positive number, EventFromMessage accepts what
  -- PlayerSpoke and NPCSpoke give. The event is PLAYER_SPOKE about the player, or NPC_SPOKE about the
  -- NPC, and its payload has the caller's entries, and the text where the caller gives none.
  pub event_from_message-spoke :
      (npc text fallback : String) (extra : Fields F) (fresh : Fresh F) (n : ℕ)
      → npc ≢ ""
      → ((e : Event F) × (event_from_message numbers trim_space upper fresh
              (player_spoke npc text extra)
              (pos (suc n))
              fallback
            ≡ ok e)
          × IsSpeech "PLAYER_SPOKE" npc "player" text extra e)
        × ((e : Event F) × (event_from_message numbers trim_space upper fresh
                (npc_spoke npc text extra)
                (pos (suc n))
                fallback
              ≡ ok e)
            × IsSpeech "NPC_SPOKE" npc npc text extra e)
  unfolding truthy player_spoke npc_spoke
  event_from_message-spoke npc text fallback extra fresh n h = (
    read-IsSpeech "PLAYER_SPOKE" npc "player" "player" text fallback extra fresh n h refl refl refl,
    read-IsSpeech "NPC_SPOKE" npc npc "npc" text fallback extra fresh n h refl refl refl,
  )
