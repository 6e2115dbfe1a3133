-- ===== src/Events/Facts/Results.antt =====
-- Action results, taken through EventFromMessage.
use Prim.Native.Char.{Char}
use agent_rd.Common.{
  ℕ, suc, String, decided, apart, true, ◌≢◌, sym, subst, List, [], ◌∷◌, ◌≡◌, refl, ap, ◌∙◌, ◌⊎◌,
  inl, inr, ◌==◌, string_eq, list_eq, nat_eq, arith, Bool-cases, Float64,
}
use agent_rd.Domain.Value.{
  pos, Value, Fields, NumberText, str, strings, obj, done, field, get, string_from,
}
use agent_rd.Domain.Event.{Event, Fresh}
use agent_rd.Eligibility.Gate.{codes, to_lower}
use agent_rd.Events.Readers.{ok, truthy, is_event_name, to_upper}
use agent_rd.Events.Message.{event_from_message}
use agent_rd.Events.Message.Forms.{is_score, is_object-falsy_or, object_in-obj}
use agent_rd.Events.Message.Accepted.{
  IsAcceptable, event_from_message-IsAcceptable, event_from_message-IsReadFrom,
}
use agent_rd.Events.Facts.{copy_rest, result_event, action_result}
use agent_rd.Events.Facts.Copies.{kept_result, get-result}

-- The event that a status in lower case is reported as.
pub data IsReportedAs : List ℕ → String → Type 0 where
  completed : IsReportedAs (codes "completed") "ACTION_COMPLETED"
  failed : IsReportedAs (codes "failed") "ACTION_FAILED"
  started :
      (s : List ℕ) → s ≢ codes "completed" → s ≢ codes "failed" → IsReportedAs s "ACTION_STARTED"

module _ {F : Type 0} ⦃o : Float64 F⦄ (numbers : NumberText F) (trim_space : String → String)
    (upper : Char → Char) where
  -- The payload of ActionResult under any name of an event.
  abbrev result_named : String → Fields F → Fields F
  result_named name raw = field "event_name" (str name) (
      field "npc_id" (get "npc_id" raw) (
        field "tags" (strings ("action" ∷ [])) (
          field "data"
            (obj (
              copy_rest raw
                (field "tool" (get "tool" raw) (field "request_id" (get "request_id" raw) done))))
            (field "summary" (get "summary" raw)
              (field "importance" (get "importance" raw) done)))))

  abbrev IsResultName : String → Type 0
  IsResultName name =
      (name ≡ "ACTION_COMPLETED") ⊎ ((name ≡ "ACTION_FAILED") ⊎ (name ≡ "ACTION_STARTED"))

  result_event-IsResultName :
      (table : ℕ → ℕ) (v : Value F) → IsResultName (result_event numbers table v)
  unfolding result_event
  result_event-IsResultName table v =
      let lower = to_lower table (codes (string_from numbers v)) in
      elim (Bool-cases (lower == codes "completed")) [
        | inl hit ↦ rw hit (inl refl)
        | inr miss ↦ elim (Bool-cases (lower == codes "failed")) [
          | inl hit ↦ rw (miss, hit) (inr (inl refl))
          | inr miss' ↦ rw (miss, miss') (inr (inr refl))
        ]
      ]

  result_event-IsReportedAs :
      (table : ℕ → ℕ) (v : Value F)
      → IsReportedAs (to_lower table (codes (string_from numbers v))) (result_event numbers table v)
  unfolding result_event
  result_event-IsReportedAs table v =
      let lower = to_lower table (codes (string_from numbers v)) in
      elim (Bool-cases (lower == codes "completed")) [
        | inl hit ↦ rw hit (
            subst (λ s. IsReportedAs s "ACTION_COMPLETED")
              (sym (decided lower (codes "completed") hit)) completed)
        | inr miss ↦ elim (Bool-cases (lower == codes "failed")) [
          | inl hit ↦
              rw (miss, hit)
                (subst (λ s. IsReportedAs s "ACTION_FAILED")
                  (sym (decided lower (codes "failed") hit)) failed)
          | inr miss' ↦
              rw (miss, miss')
                (started lower (apart lower (codes "completed") miss)
                  (apart lower (codes "failed") miss'))
        ]
      ]

  result_named-IsAcceptable :
      (name : String) (raw : Fields F) (fallback : String) (n : ℕ)
      → truthy {F = F} (str name) ≡ true
      → is_event_name (codes (to_upper upper name)) ≡ true
      → truthy (get "npc_id" raw) ≡ true
      → is_score numbers trim_space (get "importance" raw) ≡ true
      → IsAcceptable numbers trim_space upper (result_named name raw) (pos (suc n)) fallback
  unfolding get string_from
  result_named-IsAcceptable name raw fallback n named valid h score = record {
    npc_given = rw h h;
    name_given = rw named named;
    name_valid = rw named valid;
    data_object = is_object-falsy_or (get "data" (result_named name raw)) refl;
    entities_listable = unfold truthy in refl;
    tags_listable = unfold truthy in refl;
    game_time_object = unfold truthy in refl;
    location_object = unfold truthy in refl;
    importance_score = score;
    positive = (suc n, omega arith, refl);
  }

  result_named-cases :
      (name : String)
      → IsResultName name
      → (truthy {F = F} (str name) ≡ true) × (is_event_name (codes (to_upper upper name)) ≡ true)
  unfolding truthy
  result_named-cases name (inl p) = rw p (refl, refl)
  result_named-cases name (inr (inl p)) = rw p (refl, refl)
  result_named-cases name (inr (inr p)) = rw p (refl, refl)

  upper-IsResultName : (name : String) → IsResultName name → to_upper upper name ≡ name
  upper-IsResultName name (inl p) = rw p refl
  upper-IsResultName name (inr (inl p)) = rw p refl
  upper-IsResultName name (inr (inr p)) = rw p refl

  -- Any name of a result gives an event of that name.
  result_read :
      (name : String) (raw : Fields F) (fallback : String) (fresh : Fresh F) (n : ℕ)
      → IsResultName name
      → truthy (get "npc_id" raw) ≡ true
      → is_score numbers trim_space (get "importance" raw) ≡ true
      → (e : Event F) × (event_from_message numbers trim_space upper fresh
            (result_named name raw)
            (pos (suc n))
            fallback
          ≡ ok e)
        × (e.event_name ≡ name)
        × (e.npc_id ≡ string_from numbers (get "npc_id" raw))
        × ((k : String) → get k e.payload ≡ kept_result k raw)
  unfolding get
  result_read name raw fallback fresh n cases h score =
      let (named, valid) = result_named-cases name cases in
      let accepted = result_named-IsAcceptable name raw fallback n named valid h score in
      let (e, made) =
        (event_from_message-IsAcceptable numbers trim_space upper fresh (result_named name raw)
            (pos (suc n)) fallback).1
          accepted in
      let read =
        event_from_message-IsReadFrom numbers trim_space upper fresh (result_named name raw)
          (pos (suc n)) fallback e made in
      (
        e,
        made,
        read.name ∙ rw named (unfold string_from in upper-IsResultName name cases),
        read.owner ∙ rw h refl,
        (λ k. ap (get k) (read.payload ∙ object_in-obj _) ∙ get-result k raw),
      )

  -- With a truthy NPC, an importance that is a number or absent, and a positive number,
  -- EventFromMessage accepts what ActionResult gives. The event is ACTION_COMPLETED where the reported
  -- status in lower case is "completed", ACTION_FAILED where it is "failed" and else ACTION_STARTED; it
  -- belongs to the NPC, and its payload has what was reported under every key but the type, the NPC
  -- and the status.
  pub event_from_message-action_result :
      (table : ℕ → ℕ) (raw : Fields F) (fallback : String) (fresh : Fresh F) (n : ℕ)
      → truthy (get "npc_id" raw) ≡ true
      → is_score numbers trim_space (get "importance" raw) ≡ true
      → (e : Event F) × (event_from_message numbers trim_space upper fresh
            (action_result numbers table raw)
            (pos (suc n))
            fallback
          ≡ ok e)
        × IsReportedAs
            (to_lower table (codes (string_from numbers (get "status" raw))))
            e.event_name
        × (e.npc_id ≡ string_from numbers (get "npc_id" raw))
        × ((k : String) → get k e.payload ≡ kept_result k raw)
  unfolding action_result
  event_from_message-action_result table raw fallback fresh n h score =
      let (e, made, name, owner, payload) =
        result_read (result_event numbers table (get "status" raw)) raw fallback fresh n
          (result_event-IsResultName table (get "status" raw)) h score in
      (
        e,
        made,
        subst (IsReportedAs (to_lower table (codes (string_from numbers (get "status" raw)))))
            (sym name) (result_event-IsReportedAs table (get "status" raw)),
        owner,
        payload,
      )
