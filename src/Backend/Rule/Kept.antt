-- ===== src/Backend/Rule/Kept.antt =====
-- The actions of the rule backend, as normalizeAction takes them.
use agent_rd.Common.{
  zero, ◌≢◌, ℕ, String, Bool, true, false, ◌&&◌, ◌||◌, Option, List, ◌≡◌, refl, ◌==◌, string_eq,
  if◌then◌else◌, inl, inr, Bool-cases, Option-cases, All, arith, Float64, flt, fle, lit, [], ◌∷◌,
  suc,
}
use agent_rd.Domain.Value.{
  pos, negsuc, nil, cons, Value, Fields, null, bool, num, int, str, strings, floats, arr, obj, done,
  field, get, has, map_from, NumberText,
}
use agent_rd.Timeline.Store.{Env, Store}
use agent_rd.World.{set_field}
use agent_rd.Agent.Guardrails.{AgentAction, AgentDecision, at_player, is_attack, coerce_float}
use agent_rd.Agent.Normalize.{
  kept, is_truthy, float_or_default, without_nil, normalize_investigate, normalize_args,
  normalize_action, recent_position,
}
use agent_rd.Agent.Reasoning.{AgentContext}
use agent_rd.Backend.Reply.{rule_reply_to}
use agent_rd.Backend.Rule.{
  is_friendly, rule_event_name, rule_find_recent, latest_event, wander, rule_truthy, on_threat,
  on_gunshot, rule_data_text, rule_trait, should_speak, on_speech, on_approach, fallback_for,
  on_failure, on_event, rule_ladder,
}

module _ {F : Type 0} ⦃o : Float64 F⦄ (env : Env F) (trim_space : String → String) (npc : String)
    (d : AgentDecision F) (s : Store) where
  -- normalizeAction keeps the action as it is.
  abbrev pub IsKept : AgentAction F → Type 0
  IsKept a = normalize_action env trim_space npc a d s ≡ kept a

  look_at-IsKept : IsKept (at_player "look_at")
  unfolding normalize_action has
  look_at-IsKept = refl

  flee_from-IsKept : IsKept (at_player "flee_from")
  unfolding normalize_action has
  flee_from-IsKept = refl

  wander-IsKept : (radius : ℕ) → IsKept (wander radius)
  unfolding normalize_action has get float_or_default coerce_float set_field
  wander-IsKept radius = refl

  truthy-without_nil :
      (k : String) (v : Value F)
      → is_truthy v ≡ true
      → without_nil (field k v done) ≡ field k v done
  unfolding without_nil is_truthy
  truthy-without_nil k null t = absurd (cc)
  truthy-without_nil k (bool b) t = refl
  truthy-without_nil k (num x) t = refl
  truthy-without_nil k (int n) t = refl
  truthy-without_nil k (str x) t = refl
  truthy-without_nil k (strings xs) t = refl
  truthy-without_nil k (floats xs) t = refl
  truthy-without_nil k (arr xs) t = refl
  truthy-without_nil k (obj m) t = refl

  investigate_truthy :
      (recent : List F) (position : Value F)
      → is_truthy position ≡ true
      → normalize_investigate env trim_space recent (field "position" position done)
        ≡ kept (record { tool = "investigate"; arguments = field "position" position done })
  unfolding normalize_investigate get set_field
  investigate_truthy recent position t = rw (t, t) refl

  investigate-IsKept :
      (position : Value F)
      → is_truthy position ≡ true
      → IsKept (record { tool = "investigate"; arguments = field "position" position done })
  unfolding normalize_action normalize_args
  investigate-IsKept position t =
      rw (truthy-without_nil "position" position t)
        (investigate_truthy (recent_position env trim_space npc s) position t)

  abbrev pub AllKept : AgentDecision F → Type 0
  AllKept decision = All IsKept decision.actions

  if-AllKept :
      (b : Bool) (x y : AgentDecision F) → AllKept x → AllKept y → AllKept (if b then x else y)
  if-AllKept true x y p q = p
  if-AllKept false x y p q = q

  if-AllKept_pair :
      (b : Bool) (x y : AgentDecision F × ℕ)
      → AllKept x.0
      → AllKept y.0
      → AllKept (if b then x else y).0
  if-AllKept_pair true x y p q = p
  if-AllKept_pair false x y p q = q

  on_threat-AllKept : (courage aggression : F) → AllKept (on_threat courage aggression)
  unfolding on_threat
  on_threat-AllKept courage aggression =
      if-AllKept (flt courage (lit 48 2)) _ _ (flee_from-IsKept, tt) (look_at-IsKept, tt)

  -- The two tests of truth differ on the empty []string only.
  truthy_alike : (v : Value F) → v ≢ strings [] → rule_truthy v ≡ true → is_truthy v ≡ true
  unfolding rule_truthy is_truthy
  truthy_alike null n t = t
  truthy_alike (bool b) n t = t
  truthy_alike (num x) n t = t
  truthy_alike (int (pos zero)) n t = t
  truthy_alike (int (pos (suc m))) n t = t
  truthy_alike (int (negsuc m)) n t = t
  truthy_alike (str x) n t = t
  truthy_alike (strings []) n t = absurd (n refl)
  truthy_alike (strings (x ∷ xs)) n t = t
  truthy_alike (floats []) n t = t
  truthy_alike (floats (x ∷ xs)) n t = t
  truthy_alike (arr nil) n t = t
  truthy_alike (arr (cons v xs)) n t = t
  truthy_alike (obj done) n t = t
  truthy_alike (obj (field k v m)) n t = t

  on_gunshot-AllKept :
      (courage : F) (position : Value F) (goal : Option String) (mood : String)
      → position ≢ strings []
      → AllKept (on_gunshot courage position goal mood)
  unfolding on_gunshot
  on_gunshot-AllKept courage position goal mood n =
      elim (Bool-cases (fle (lit 55 2) courage && rule_truthy position)) [
        | inl t ↦ rw t (investigate-IsKept position (truthy_alike position n (ground arith)), tt)
        | inr f ↦ rw f (if-AllKept (flt courage (lit 40 2)) _ _ (wander-IsKept 12, tt) tt)
      ]

  fallback_for-IsKept : (v : Value F) → All IsKept (fallback_for v)
  unfolding fallback_for
  fallback_for-IsKept null = tt
  fallback_for-IsKept (bool b) = tt
  fallback_for-IsKept (num x) = tt
  fallback_for-IsKept (int n) = tt
  fallback_for-IsKept (strings xs) = tt
  fallback_for-IsKept (floats xs) = tt
  fallback_for-IsKept (arr xs) = tt
  fallback_for-IsKept (obj m) = tt
  fallback_for-IsKept (str tool) = elim (Bool-cases (tool == "go_to")) [
    | inl t ↦ rw t (wander-IsKept 8, tt)
    | inr f ↦ rw f tt
  ]

  on_failure-AllKept : (event : Fields F) (goal : Option String) → AllKept (on_failure event goal)
  unfolding on_failure
  on_failure-AllKept event goal = fallback_for-IsKept (get "tool" (map_from (get "data" event)))

  module _ (numbers : NumberText F) (table : ℕ → ℕ) (silence : F) (rolls : ℕ → ℕ) where
    on_speech-AllKept :
        (sociability : F) (event : Fields F) (goal : Option String) (mood : String) (n : ℕ)
        → AllKept (on_speech numbers table silence rolls sociability event goal mood n).0
    unfolding on_speech
    on_speech-AllKept sociability event goal mood n =
        if-AllKept_pair (should_speak numbers table silence rolls true n).0 _ _
          (elim (Option-cases
            (rule_reply_to table (rule_data_text numbers table (map_from (get "data" event))))) [
              | inl none_said ↦ rw none_said tt
              | inr (reply, said) ↦ rw said (look_at-IsKept, tt)
            ])
          tt

    on_approach-AllKept :
        (sociability : F) (goal : Option String) (mood : String) (n : ℕ)
        → AllKept (on_approach numbers table silence rolls sociability goal mood n).0
    unfolding on_approach
    on_approach-AllKept sociability goal mood n =
        if-AllKept_pair (fle (lit 62 2) sociability) _ _
          (if-AllKept_pair (should_speak numbers table silence rolls false n).0 _ _
            (look_at-IsKept, tt) tt)
          tt

    on_event-AllKept :
        (event : Fields F) (sociability courage : F) (goal : Option String) (mood : String) (n : ℕ)
        → get "position" (map_from (get "data" event)) ≢ strings []
        → AllKept (on_event numbers table silence rolls event sociability courage goal mood n).0
    unfolding on_event
    on_event-AllKept event sociability courage goal mood n listed =
        let name = rule_event_name event in
        if-AllKept_pair (name == "GUNSHOT_HEARD") _ _
          (on_gunshot-AllKept courage _ goal mood listed)
          (if-AllKept_pair (name == "PLAYER_SPOKE") _ _
            (on_speech-AllKept sociability event goal mood n)
            (if-AllKept_pair (name == "PLAYER_APPROACHED" || name == "PLAYER_LOOKED_AT_NPC") _ _
              (on_approach-AllKept sociability goal mood n)
              (if-AllKept_pair (name == "ACTION_FAILED") _ _ (on_failure-AllKept event goal) tt)))

    -- Whatever the NPC, the store and the rest of the decision, normalizeAction keeps every action that
    -- the rule backend decides for a context, as it is, unless the position of the newest event is an
    -- empty []string, which only the backend takes for a position.
    pub rule_ladder-AllKept :
        (c : AgentContext F) (n : ℕ)
        → get "position" (map_from (get "data" (latest_event c))) ≢ strings []
        → All IsKept (rule_ladder numbers table silence rolls c n).0.actions
    unfolding rule_ladder
    rule_ladder-AllKept c n listed =
        let personality = map_from (get "personality" c.profile) in
        let courage = rule_trait numbers table personality "courage" (lit 5 1) in
        if-AllKept_pair (rule_find_recent is_attack c.recent_events) _ _
          (on_threat-AllKept courage _)
          (if-AllKept_pair (rule_find_recent is_friendly c.recent_events) _ _ (look_at-IsKept, tt)
            (on_event-AllKept (latest_event c) _ courage c.current_goal _ n listed))
