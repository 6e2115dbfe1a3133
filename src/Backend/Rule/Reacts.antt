-- ===== src/Backend/Rule/Reacts.antt =====
-- The reactions of the rule backend to a threat, as applyBehaviorGuardrails takes them.
use agent_rd.Common.{
  ℕ, String, true, ◌≡◌, refl, sym, ◌∙◌, ◌==◌, string_eq, inl, inr, Bool-cases, arith, Float64, flt,
  lit,
}
use agent_rd.Domain.Value.{
  Fields, num, done, field, get, has, map_from, float_from, string_from, NumberText,
}
use agent_rd.Agent.Guardrails.{
  has_tool, filter_actions, set_mood_default, set_goal_default, is_attack, flee, guard_attack,
  guard, coerce_float, courage_of, apply_behavior_guardrails,
}
use agent_rd.Agent.Reasoning.{AgentContext}
use agent_rd.Backend.Rule.{on_threat, rule_find_recent, rule_trait, rule_ladder}

module _ {F : Type 0} where
  has-get : (k : String) (m : Fields F) (x : F) → get k m ≡ num x → has k m ≡ true
  unfolding get has
  has-get k done x e = absurd (cc)
  has-get k (field j v m) x e = elim (Bool-cases (k == j)) [
    | inl t ↦ ground (arith, t)
    | inr f ↦ ground (arith, f, has-get k m x (sym (rw (f, get) refl) ∙ e))
  ]

module _ {F : Type 0} ⦃o : Float64 F⦄ where
  guard_attack-on_threat :
      (courage aggression : F)
      → guard_attack courage (on_threat courage aggression) ≡ on_threat courage aggression
  unfolding guard_attack on_threat flee has_tool filter_actions set_mood_default set_goal_default
  guard_attack-on_threat courage aggression = elim (Bool-cases (flt courage (lit 48 2))) [
    | inl t ↦ rw t refl
    | inr f ↦ rw f refl
  ]

module _ {F : Type 0} ⦃o : Float64 F⦄ (numbers : NumberText F) (trim_space : String → String)
    (table : ℕ → ℕ) where
  courage_of-num :
      (profile : Fields F) (x : F)
      → get "courage" (map_from (get "personality" profile)) ≡ num x
      → courage_of numbers trim_space profile ≡ x
  unfolding courage_of coerce_float
  courage_of-num profile x e = rw (courage_of, e) refl

  rule_trait-num :
      (personality : Fields F) (k : String) (fallback x : F)
      → get k personality ≡ num x
      → rule_trait numbers table personality k fallback ≡ x
  unfolding rule_trait float_from
  rule_trait-num personality k fallback x e = rw (has-get k personality x e, e) refl

  -- Where the profile's courage is a number, a threat is among the recent events and the trigger is a
  -- threat, the guardrails leave what the rule backend decides as it is.
  pub apply_behavior_guardrails-rule_ladder :
      (silence : F) (rolls : ℕ → ℕ) (c : AgentContext F) (n : ℕ) (x : F)
      → get "courage" (map_from (get "personality" c.profile)) ≡ num x
      → rule_find_recent is_attack c.recent_events ≡ true
      → is_attack (string_from numbers (get "event_name" (map_from (get "trigger_event" c.flags))))
        ≡ true
      → apply_behavior_guardrails numbers trim_space c.profile c.flags
          (rule_ladder numbers table silence rolls c n).0
        ≡ (rule_ladder numbers table silence rolls c n).0
  unfolding rule_ladder apply_behavior_guardrails guard
  apply_behavior_guardrails-rule_ladder silence rolls c n x courage threat attack =
      rw
        (
          attack,
          threat,
          courage_of-num c.profile x courage,
          rule_trait-num (map_from (get "personality" c.profile)) "courage" (lit 5 1) x courage,
        )
        (guard_attack-on_threat x _)
