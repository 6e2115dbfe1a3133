-- ===== src/Agent/Normalize/Ready.antt =====
-- What every action that normalizeAction of decision.go keeps has for the bridge.
use agent_rd.Common.{
  String, Bool, true, false, not, ◌||◌, List, ◌≡◌, refl, sym, ap, ◌∙◌, subst, ◌==◌, string_eq,
  if◌then◌else◌, inl, inr, Bool-cases, arith, Float64, lit,
}
use agent_rd.Domain.Value.{Value, Fields, num, str, floats, done, field, get, has, string_from}
use agent_rd.Timeline.Store.{Env, Store}
use agent_rd.World.{set_field}
use agent_rd.World.Snapshot.{get-set_field}
use agent_rd.Agent.Guardrails.{AgentAction, AgentDecision}
use agent_rd.Agent.Normalize.{
  Normalized, kept, dropped, is_truthy, float_or_default, with_default, normalize_go_to,
  normalize_investigate, normalize_args, normalize_action, recent_position, without_nil,
}

module _ {F : Type 0} where
  abbrev pub is_number : Value F → Bool
  is_number (num x) = true
  is_number _ = false

  has-set_field : (k : String) (v : Value F) (m : Fields F) → has k (set_field k v m) ≡ true
  unfolding has set_field
  has-set_field k v done = ground (arith, string_eq.decides k k)
  has-set_field k v (field j w m) =
      ground (arith, string_eq.decides k j, string_eq.decides k k, has-set_field k v m)

module _ {F : Type 0} ⦃o : Float64 F⦄ (env : Env F) (trim_space : String → String) where
  -- The argument that each tool needs.
  abbrev pub is_ready : AgentAction F → Bool
  is_ready a =
      if a.tool == "say"
      then not (trim_space (string_from env.numbers (get "text" a.arguments)) == "")
      else if a.tool == "look_at"
          || (a.tool == "face" || (a.tool == "follow" || a.tool == "flee_from"))
      then has "entity" a.arguments
      else if a.tool == "wander"
      then is_number (get "radius" a.arguments)
      else if a.tool == "go_to"
      then is_truthy (get "destination" a.arguments)
      else if a.tool == "investigate"
      then is_truthy (get "position" a.arguments)
      else if a.tool == "wait"
      then is_number (get "duration" a.arguments)
      else if a.tool == "gesture"
      then has "type" a.arguments
      else a.tool == "stop" || a.tool == "clear_attention"

  abbrev pub is_ready_if_kept : Normalized F → Bool
  is_ready_if_kept (kept a) = is_ready a
  is_ready_if_kept (dropped reason) = true

  has-with_default :
      (k : String) (v : Value F) (args : Fields F)
      → has k (with_default env trim_space k v args) ≡ true
  has-with_default k v args = ground (arith, has-set_field k v args)

  go_to-ready :
      (args : Fields F) (d : AgentDecision F)
      → is_ready_if_kept (normalize_go_to env trim_space args d) ≡ true
  unfolding normalize_go_to get
  go_to-ready args d = elim (Bool-cases (is_truthy (get "destination" args))) [
    | inl t ↦ rw (t, normalize_go_to) t
    | inr u ↦ elim (Bool-cases (is_truthy (get "destination" d.internal))) [
      | inl t ↦
          rw (u, normalize_go_to)
            (rw t (
              ap is_truthy
                (get-set_field "destination" "destination" (get "destination" d.internal) args)
              ∙ t))
      | inr v ↦ rw (u, normalize_go_to) (rw v (ground arith))
    ]
  ]

  investigate-ready :
      (recent : List F) (args : Fields F)
      → is_ready_if_kept (normalize_investigate env trim_space recent args) ≡ true
  unfolding normalize_investigate
  investigate-ready recent args =
      let position =
        if is_truthy (get "position" args) then get "position" args else floats recent in
      elim (Bool-cases (is_truthy position)) [
        | inl t ↦
            rw (t, normalize_investigate)
              (ap is_truthy (get-set_field "position" "position" position args) ∙ t)
        | inr u ↦ rw (u, normalize_investigate) refl
      ]

  abbrev ReadyAt : String → Fields F → AgentDecision F → List F → Type 0
  ReadyAt tool args d recent =
      is_ready_if_kept (normalize_args env trim_space tool args d recent) ≡ true

  by_name :
      (tool name : String) (args : Fields F) (d : AgentDecision F) (recent : List F)
      → (tool == name) ≡ true
      → ReadyAt name args d recent
      → ReadyAt tool args d recent
  by_name tool name args d recent hit h =
      subst (λ t. ReadyAt t args d recent) (sym ((string_eq.decides tool name).0 hit)) h

  say-ready :
      (args : Fields F) (d : AgentDecision F) (recent : List F) → ReadyAt "say" args d recent
  unfolding normalize_args
  say-ready args d recent = ground arith

  unsupported-ready :
      (tool : String) (args : Fields F) (d : AgentDecision F) (recent : List F)
      → (tool == "say") ≡ false
      → (tool == "look_at") ≡ false
      → (tool == "face") ≡ false
      → (tool == "follow") ≡ false
      → (tool == "flee_from") ≡ false
      → (tool == "wander") ≡ false
      → (tool == "go_to") ≡ false
      → (tool == "investigate") ≡ false
      → (tool == "wait") ≡ false
      → (tool == "gesture") ≡ false
      → (tool == "stop") ≡ false
      → (tool == "clear_attention") ≡ false
      → ReadyAt tool args d recent
  unfolding normalize_args
  unsupported-ready tool args d recent n0 n1 n2 n3 n4 n5 n6 n7 n8 n9 n10 n11 =
      rw (n0, n1, n2, n3, n4, n5, n6, n7, n8, n9, n10, n11, normalize_args) refl

  args-ready :
      (tool : String) (args : Fields F) (d : AgentDecision F) (recent : List F)
      → ReadyAt tool args d recent
  unfolding normalize_args
  args-ready tool args d recent = elim (Bool-cases (tool == "say")) [
    | inl hit ↦ by_name tool "say" args d recent hit (say-ready args d recent)
    | inr n0 ↦ elim (Bool-cases (tool == "look_at")) [
      | inl hit ↦
          by_name tool "look_at" args d recent hit (has-with_default "entity" (str "player") args)
      | inr n1 ↦ elim (Bool-cases (tool == "face")) [
        | inl hit ↦
            by_name tool "face" args d recent hit (has-with_default "entity" (str "player") args)
        | inr n2 ↦ elim (Bool-cases (tool == "follow")) [
          | inl hit ↦
              by_name tool "follow" args d recent hit
                (has-with_default "entity" (str "player") args)
          | inr n3 ↦ elim (Bool-cases (tool == "flee_from")) [
            | inl hit ↦
                by_name tool "flee_from" args d recent hit
                  (has-with_default "entity" (str "player") args)
            | inr n4 ↦ elim (Bool-cases (tool == "wander")) [
              | inl hit ↦ by_name tool "wander" args d recent hit (
                  ap is_number (
                    get-set_field "radius" "radius"
                      (num (float_or_default env trim_space (get "radius" args) (lit 8 0))) args))
              | inr n5 ↦ elim (Bool-cases (tool == "go_to")) [
                | inl hit ↦ by_name tool "go_to" args d recent hit (go_to-ready args d)
                | inr n6 ↦ elim (Bool-cases (tool == "investigate")) [
                  | inl hit ↦
                      by_name tool "investigate" args d recent hit (investigate-ready recent args)
                  | inr n7 ↦ elim (Bool-cases (tool == "wait")) [
                    | inl hit ↦ by_name tool "wait" args d recent hit (
                        ap is_number (
                          get-set_field "duration" "duration"
                            (num (float_or_default env trim_space (get "duration" args) (lit 2 0)))
                            args))
                    | inr n8 ↦ elim (Bool-cases (tool == "gesture")) [
                      | inl hit ↦
                          by_name tool "gesture" args d recent hit
                            (has-with_default "type" (str "neutral") args)
                      | inr n9 ↦ elim (Bool-cases (tool == "stop")) [
                        | inl hit ↦ by_name tool "stop" args d recent hit (refl)
                        | inr n10 ↦ elim (Bool-cases (tool == "clear_attention")) [
                          | inl hit ↦ by_name tool "clear_attention" args d recent hit (refl)
                          | inr n11 ↦
                              unsupported-ready tool args d recent n0 n1 n2 n3 n4 n5 n6 n7 n8 n9 n10
                                n11
                        ]
                      ]
                    ]
                  ]
                ]
              ]
            ]
          ]
        ]
      ]
    ]
  ]

  -- An action that normalizeAction keeps has what its tool needs: say a text that is not blank, the
  -- tools aimed at an entity that entity, wander and wait a number, go_to a destination and
  -- investigate a position that are not empty, gesture a type, and there is no other tool but stop and
  -- clear_attention.
  pub normalize_action_lem :
      (npc : String) (a a' : AgentAction F) (d : AgentDecision F) (s : Store)
      → normalize_action env trim_space npc a d s ≡ kept a'
      → is_ready a' ≡ true
  unfolding normalize_action
  normalize_action_lem npc a a' d s h =
      sym (ap is_ready_if_kept h)
      ∙ args-ready a.tool (without_nil a.arguments) d (recent_position env trim_space npc s)
