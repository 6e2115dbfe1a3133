-- ===== src/Agent/Normalize.antt =====
-- normalizeAction and recentPosition of runtime-go/internal/agent/decision.go, with isTruthy of
-- runtime-go/internal/agent/helpers.go.
pub mod Ready
use agent_rd.Common.{
  ℕ, zero, suc, String, Bool, true, false, not, ◌&&◌, ◌||◌, Option, none, some, List, [], ◌∷◌, ◌==◌,
  string_eq, if◌then◌else◌, Float64, feq, lit,
}
use agent_rd.Domain.Value.{
  ℤ, pos, negsuc, Value, Fields, Items, null, nil, cons, bool, num, int, str, strings, floats, arr,
  obj, done, field, get, has, string_from,
}
use agent_rd.Domain.Event.{Event}
use agent_rd.Timeline.Store.{Env, Store, Outcome, done as returned, failed, recent_events}
use agent_rd.World.{set_field}
use agent_rd.Agent.Guardrails.{AgentAction, AgentDecision, coerce_float}

infixl 20 ◌>>=◌
abbrev ◌>>=◌ {ℓ κ} : {A : Type ℓ} {B : Type κ} → Option A → (A → Option B) → Option B
none >>= next = none
some a >>= next = next a

-- What becomes of an action: kept, or dropped with the reason for the timeline ("" for none).
pub data Normalized (F : Type 0) : Type 0 where
  kept : AgentAction F → Normalized F
  dropped : String → Normalized F

module _ {F : Type 0} where
  -- The copy of the arguments without nil values.
  unfoldable pub without_nil : Fields F → Fields F
  without_nil done = done
  without_nil (field k null m) = without_nil m
  without_nil (field k v m) = field k v (without_nil m)

  abbrev pub action : String → Fields F → Normalized F
  action tool args = kept (record { tool = tool; arguments = args })

module _ {F : Type 0} ⦃o : Float64 F⦄ where
  unfoldable pub is_truthy : Value F → Bool
  is_truthy null = false
  is_truthy (bool b) = b
  is_truthy (str s) = not (s == "")
  is_truthy (num x) = not (feq x (lit 0 0))
  is_truthy (int (pos zero)) = false
  is_truthy (int _) = true
  is_truthy (arr nil) = false
  is_truthy (arr _) = true
  is_truthy (strings []) = false
  is_truthy (strings _) = true
  is_truthy (floats []) = false
  is_truthy (floats _) = true
  is_truthy (obj done) = false
  is_truthy (obj _) = true

module _ {F : Type 0} ⦃o : Float64 F⦄ (env : Env F) (trim_space : String → String) where
  abbrev pub as_number : Value F → Option F
  as_number = coerce_float env.numbers trim_space

  -- floatOrDefault
  unfoldable pub float_or_default : Value F → F → F
  unfolding coerce_float
  float_or_default v fallback = elim (as_number v) [ none ↦ fallback | some x ↦ x ]

  -- coercePosition
  unfoldable pub coerce_position : Value F → Option (List F)
  unfolding coerce_float
  coerce_position (arr (cons a (cons b (cons c xs)))) = do
    x ← as_number a
    y ← as_number b
    z ← as_number c
    some (x ∷ y ∷ z ∷ [])
  coerce_position (floats (x ∷ y ∷ z ∷ xs)) = some (x ∷ y ∷ z ∷ [])
  coerce_position _ = none

  unfoldable pub position_in : List String → Fields F → Option (List F)
  unfolding get coerce_position
  position_in [] m = none
  position_in (k ∷ ks) m = elim (coerce_position (get k m)) [
    | some p ↦ some p
    | none ↦ position_in ks m
  ]

  -- The scan of the events from the newest back.
  unfoldable pub position_scan : List (Event F) → Option (List F)
  unfolding position_in
  position_scan [] = none
  position_scan (e ∷ es) =
      let newer = position_scan es in
      elim newer [
        | some p ↦ some p
        | none ↦
            position_in ("position" ∷ "target_position" ∷ "destination_position" ∷ []) e.payload
      ]

  -- recentPosition; [] is nil.
  unfoldable pub recent_position : String → Store → List F
  unfolding position_scan
  recent_position npc s = elim (recent_events env npc 30 s) [
    | failed x ↦ []
    | returned events ↦ elim (position_scan events) [ none ↦ [] | some p ↦ p ]
  ]

  abbrev pub has_text : Option String → Bool
  has_text none = false
  has_text (some s) = not (s == "")

  abbrev pub says_anyway : AgentDecision F → Bool
  says_anyway d = elim d.speech [ none ↦ false | some s ↦ not (s.text == "") ]

  abbrev pub with_default : String → Value F → Fields F → Fields F
  with_default k v args = if has k args then args else set_field k v args

  unfoldable pub normalize_go_to : Fields F → AgentDecision F → Normalized F
  unfolding get is_truthy set_field
  normalize_go_to args d =
      if is_truthy (get "destination" args)
      then action "go_to" args
      else if is_truthy (get "destination" d.internal)
      then action "go_to" (set_field "destination" (get "destination" d.internal) args)
      else if has_text d.goal
      then action "wander" (field "radius" (num (lit 8 0)) done)
      else dropped "go_to_missing_destination"

  unfoldable pub normalize_investigate : List F → Fields F → Normalized F
  unfolding get is_truthy set_field
  normalize_investigate recent args =
      let position =
        if is_truthy (get "position" args) then get "position" args else floats recent in
      if is_truthy position
      then action "investigate" (set_field "position" position args)
      else dropped "investigate_missing_position"

  -- The `switch` of normalizeAction, on the arguments without nil values.
  unfoldable pub normalize_args : String → Fields F → AgentDecision F → List F → Normalized F
  unfolding normalize_go_to normalize_investigate string_from float_or_default has
  normalize_args tool args d recent =
      if tool == "say"
      then if says_anyway d
        then dropped ""
        else if trim_space (string_from env.numbers (get "text" args)) == ""
        then dropped "say_missing_text"
        else action "say" args
      else if tool == "look_at" || (tool == "face" || (tool == "follow" || tool == "flee_from"))
      then action tool (with_default "entity" (str "player") args)
      else if tool == "wander"
      then action tool
          (set_field "radius" (num (float_or_default (get "radius" args) (lit 8 0))) args)
      else if tool == "go_to"
      then normalize_go_to args d
      else if tool == "investigate"
      then normalize_investigate recent args
      else if tool == "wait"
      then action tool
          (set_field "duration" (num (float_or_default (get "duration" args) (lit 2 0))) args)
      else if tool == "gesture"
      then action tool (with_default "type" (str "neutral") args)
      else if tool == "stop" || tool == "clear_attention"
      then action tool done
      else dropped "unsupported_tool"

  -- normalizeAction
  unfoldable pub normalize_action : String → AgentAction F → AgentDecision F → Store → Normalized F
  unfolding without_nil normalize_args recent_position
  normalize_action npc a d s =
      normalize_args a.tool (without_nil a.arguments) d (recent_position npc s)
