-- ===== src/Events/Facts.antt =====
-- PlayerSpoke, NPCSpoke, ActionResult and GoalEvent: the payloads of the standard facts.
pub mod Copies
pub mod Spoken
pub mod Results
use agent_rd.Common.{
  ℕ, String, Bool, true, false, ◌||◌, List, [], ◌∷◌, ◌==◌, string_eq, list_eq, nat_eq,
  if◌then◌else◌, Float64,
}
use agent_rd.Domain.Value.{
  Value, Fields, NumberText, str, strings, obj, done, field, get, string_from,
}
use agent_rd.Eligibility.Gate.{codes, to_lower}
use agent_rd.World.{set_field}

-- The keys of a bridge result that are not copied.
unfoldable pub is_envelope : String → Bool
is_envelope k =
    k == "type" || (k == "npc_id" || (k == "status" || (k == "tool" || k == "request_id")))

module _ {F : Type 0} where
  -- The copy of a map into another, key by key.
  unfoldable pub copy_into : Fields F → Fields F → Fields F
  unfolding set_field
  copy_into done base = base
  copy_into (field k v m) base = set_field k v (copy_into m base)

  -- mergeText
  unfoldable pub merge_text : String → Fields F → Fields F
  unfolding copy_into
  merge_text text extra = copy_into extra (field "text" (str text) done)

  -- PlayerSpoke
  unfoldable pub player_spoke : String → String → Fields F → Fields F
  unfolding merge_text
  player_spoke npc text extra = field "event_name" (str "PLAYER_SPOKE") (
      field "npc_id" (str npc) (
        field "entities" (strings ("player" ∷ [])) (
          field "tags" (strings ("player" ∷ "speech" ∷ []))
            (field "data" (obj (merge_text text extra)) done))))

  -- NPCSpoke
  unfoldable pub npc_spoke : String → String → Fields F → Fields F
  unfolding merge_text
  npc_spoke npc text extra = field "event_name" (str "NPC_SPOKE") (
      field "npc_id" (str npc) (
        field "entities" (strings (npc ∷ [])) (
          field "tags" (strings ("npc" ∷ "speech" ∷ []))
            (field "data" (obj (merge_text text extra)) done))))

  -- GoalEvent
  unfoldable pub goal_event : String → String → Fields F → Fields F
  unfolding copy_into
  goal_event npc name payload = field "event_name" (str name) (
      field "npc_id" (str npc)
        (field "tags" (strings ("goal" ∷ [])) (field "data" (obj (copy_into payload done)) done)))

  -- The loop over the raw result.
  unfoldable pub copy_rest : Fields F → Fields F → Fields F
  unfolding set_field
  copy_rest done base = base
  copy_rest (field k v m) base =
      let rest = copy_rest m base in if is_envelope k then rest else set_field k v rest

module _ {F : Type 0} ⦃o : Float64 F⦄ (numbers : NumberText F) (table : ℕ → ℕ) where
  -- The switch over the status.
  unfoldable pub result_event : Value F → String
  unfolding string_from to_lower
  result_event status =
      let lower = to_lower table (codes (string_from numbers status)) in
      if lower == codes "completed"
      then "ACTION_COMPLETED"
      else if lower == codes "failed"
      then "ACTION_FAILED"
      else "ACTION_STARTED"

  -- ActionResult
  unfoldable pub action_result : Fields F → Fields F
  unfolding result_event get copy_rest
  action_result raw = field "event_name" (str (result_event (get "status" raw))) (
      field "npc_id" (get "npc_id" raw) (
        field "tags" (strings ("action" ∷ [])) (
          field "data"
            (obj (
              copy_rest raw
                (field "tool" (get "tool" raw) (field "request_id" (get "request_id" raw) done))))
            (field "summary" (get "summary" raw)
              (field "importance" (get "importance" raw) done)))))
