-- ===== src/Agent/Thinking.antt =====
-- How an NPC thinks before it answers: waitGestureStyle and thinkingModeFor of
-- runtime-go/internal/agent/scheduler.go, with ThinkingPolicy of runtime-go/internal/config/settings.go.
pub mod Mode
use agent_rd.Common.{
  ℕ, String, Bool, true, false, not, ◌&&◌, ◌||◌, Option, none, some, List, [], ◌∷◌, ◌++◌, ◌≡◌, ◌≢◌,
  ◌↔◌, ◌⊎◌, inl, inr, refl, sym, ◌∙◌, ◌==◌, string_eq, nat_beq, if◌then◌else◌, arith, Bool-cases,
}
use agent_rd.Domain.Event.{Event}
use agent_rd.Eligibility.Gate.{codes}

pub record ThinkingPolicy : Type 0 where
  pub default_mode : String
  pub wait_gestures : Bool
  pub disabled_for_events : List String
  pub disabled_for_reasons : List String

abbrev pub prefix_runes : List ℕ → List ℕ → Bool
prefix_runes [] s = true
prefix_runes (c ∷ p) [] = false
prefix_runes (c ∷ p) (d ∷ s) = nat_beq c d && prefix_runes p s

-- strings.Contains
unfoldable pub contains_runes : List ℕ → List ℕ → Bool
contains_runes p [] = prefix_runes p []
contains_runes p (c ∷ s) = prefix_runes p (c ∷ s) || contains_runes p s

-- strings.HasPrefix
abbrev pub has_prefix : String → String → Bool
has_prefix s prefix = prefix_runes (codes prefix) (codes s)

module _ {F : Type 0} where
  abbrev pub event_name_of_trigger : Option (Event F) → String
  event_name_of_trigger none = ""
  event_name_of_trigger (some e) = e.event_name

  -- waitGestureStyle
  unfoldable pub wait_gesture_style : String → Option (Event F) → String
  wait_gesture_style reason trigger =
      let name = event_name_of_trigger trigger in
      if name == "PLAYER_SPOKE" || (reason == "player_spoke" || reason == "push_to_talk")
      then "listen"
      else if name == "GUNSHOT_HEARD"
          || (name == "PLAYER_THREATENED_NPC"
              || (name == "PLAYER_ATTACKED_NPC"
                  || (name == "NPC_DAMAGED" || name == "FIGHT_STARTED")))
      then "alert"
      else if name == "PLAYER_APPROACHED" || name == "PLAYER_LOOKED_AT_NPC"
      then "think"
      else if has_prefix reason "action_failed" || has_prefix reason "idle"
      then "ponder"
      else "think"

-- The loops of thinkingModeFor.
unfoldable pub is_listed : String → List String → Bool
is_listed s [] = false
is_listed s (d ∷ ds) = s == d || is_listed s ds

unfoldable pub has_listed_prefix : String → List String → Bool
has_listed_prefix s [] = false
has_listed_prefix s (p ∷ ps) = (not (p == "") && has_prefix s p) || has_listed_prefix s ps

module _ {F : Type 0} where
  -- thinkingModeFor
  unfoldable pub thinking_mode_for : ThinkingPolicy → String → Option (Event F) → String
  unfolding is_listed has_listed_prefix
  thinking_mode_for policy reason trigger =
      if is_listed reason policy.disabled_for_reasons
      then "disabled"
      else if has_listed_prefix reason policy.disabled_for_reasons
      then "disabled"
      else if is_listed (event_name_of_trigger trigger) policy.disabled_for_events
      then "disabled"
      else if policy.default_mode == "low" || policy.default_mode == "disabled"
      then policy.default_mode
      else "low"
