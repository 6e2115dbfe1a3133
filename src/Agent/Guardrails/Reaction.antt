-- ===== src/Agent/Guardrails/Reaction.antt =====
-- What the guardrails of decision.go promise of the actions after an urgent event.
use agent_rd.Common.{
  String, Bool, true, false, not, ◌&&◌, ◌||◌, List, [], ◌∷◌, ◌++◌, ◌≡◌, refl, ap, ◌∙◌, ◌==◌,
  string_eq, if◌then◌else◌, inl, inr, Bool-cases, arith, Float64, flt, fle, lit,
}
use agent_rd.Domain.Value.{Value, Fields, done, field, num, get, map_from, string_from, NumberText}
use agent_rd.Agent.Thinking.{is_listed}
use agent_rd.Agent.Guardrails.{
  AgentAction, AgentDecision, has_tool, has_any_tool, filter_actions, set_mood_default,
  set_goal_default, is_position_value, at_player, away_tools, is_attack, flee, investigate,
  guard_attack, guard_gunshot, guard, courage_of, apply_behavior_guardrails,
}

module _ {F : Type 0} where
  has_tool-filter_actions :
      (name : String) (blocked : List String) (actions : List (AgentAction F))
      → is_listed name blocked ≡ true
      → has_tool name (filter_actions blocked actions) ≡ false
  unfolding has_tool filter_actions
  has_tool-filter_actions name blocked [] h = refl
  has_tool-filter_actions name blocked (a ∷ actions) h =
      ground (arith, string_eq.decides a.tool name, has_tool-filter_actions name blocked actions h)

  has_tool-append :
      (name : String) (actions : List (AgentAction F)) (a : AgentAction F)
      → has_tool name (actions ++ a ∷ []) ≡ (has_tool name actions || a.tool == name)
  unfolding has_tool
  has_tool-append name [] a = ground arith
  has_tool-append name (b ∷ actions) a = ground (arith, has_tool-append name actions a)

  no_away :
      (actions : List (AgentAction F))
      → has_any_tool (filter_actions away_tools actions) away_tools ≡ false
  unfolding has_any_tool is_listed
  no_away actions = ground (
    arith,
    has_tool-filter_actions "go_to" away_tools actions refl,
    has_tool-filter_actions "follow" away_tools actions refl,
    has_tool-filter_actions "wander" away_tools actions refl,
    has_tool-filter_actions "investigate" away_tools actions refl,
  )

module _ {F : Type 0} ⦃o : Float64 F⦄ where
  -- The reaction that each urgent event asks for.
  abbrev pub reacts_to_attack : F → List (AgentAction F) → Bool
  reacts_to_attack courage actions =
      if flt courage (lit 48 2)
      then has_tool "flee_from" actions && not (has_any_tool actions away_tools)
      else has_tool "face" actions || has_tool "look_at" actions

  abbrev pub reacts_to_gunshot : F → Value F → List (AgentAction F) → Bool
  reacts_to_gunshot courage position actions =
      if fle (lit 55 2) courage && is_position_value position
      then has_tool "investigate" actions
      else if flt courage (lit 40 2)
      then has_any_tool actions ("wander" ∷ "go_to" ∷ "flee_from" ∷ [])
      else true

  abbrev pub reacts : String → F → Value F → List (AgentAction F) → Bool
  reacts name courage position actions =
      if is_attack name
      then reacts_to_attack courage actions
      else if name == "GUNSHOT_HEARD"
      then reacts_to_gunshot courage position actions
      else true

  flee-reacts :
      (actions : List (AgentAction F))
      → (has_tool "flee_from" (flee actions) && not (has_any_tool (flee actions) away_tools)) ≡ true
  unfolding flee has_any_tool
  flee-reacts actions =
      elim (Bool-cases (has_tool "flee_from" (filter_actions away_tools actions))) [
        | inl t ↦ rw (t, flee) (rw (t, no_away actions) refl)
        | inr u ↦ rw (u, flee) (ap not (no_away actions))
      ]

  investigate-reacts :
      (position : Value F) (actions : List (AgentAction F))
      → has_tool "investigate" (investigate position actions) ≡ true
  unfolding investigate
  investigate-reacts position actions = elim (Bool-cases (has_tool "investigate" actions)) [
    | inl t ↦ rw (t, investigate) t
    | inr u ↦
        rw (u, investigate)
          (has_tool-append "investigate"
              (filter_actions ("wander" ∷ "go_to" ∷ "follow" ∷ "flee_from" ∷ []) actions)
              (record { tool = "investigate"; arguments = field "position" position done })
            ∙ ground arith)
  ]

  speech-mood : (mood : String) (d : AgentDecision F) → (set_mood_default mood d).speech ≡ d.speech
  unfolding set_mood_default
  speech-mood mood d = ground arith

  speech-goal : (goal : String) (d : AgentDecision F) → (set_goal_default goal d).speech ≡ d.speech
  unfolding set_goal_default
  speech-goal goal d = ground arith

  guard_attack-reacts :
      (courage : F) (d : AgentDecision F)
      → (reacts_to_attack courage (guard_attack courage d).actions ≡ true)
        × ((guard_attack courage d).speech ≡ d.speech)
  unfolding guard_attack
  guard_attack-reacts courage d = elim (Bool-cases (flt courage (lit 48 2))) [
    | inl low ↦
        rw (low, guard_attack)
          (
            flee-reacts d.actions,
            speech-goal "get away from the player" (set_mood_default "afraid" d)
                ∙ speech-mood "afraid" d,
          )
    | inr brave ↦
        elim (Bool-cases (not (has_tool "face" d.actions) && not (has_tool "look_at" d.actions))) [
          | inl off ↦
              rw (brave, guard_attack)
                (rw off (ground (arith, has_tool-append "face" d.actions (at_player "face")), refl))
          | inr on ↦ rw (brave, guard_attack) (rw on (ground arith, refl))
        ]
  ]

  abbrev wandering : AgentAction F
  wandering = record { tool = "wander"; arguments = field "radius" (num (lit 12 0)) done }

  guard_gunshot-reacts :
      (courage : F) (position : Value F) (d : AgentDecision F)
      → (reacts_to_gunshot courage position (guard_gunshot courage position d).actions ≡ true)
        × ((guard_gunshot courage position d).speech ≡ d.speech)
  unfolding guard_gunshot
  guard_gunshot-reacts courage position d =
      elim (Bool-cases (fle (lit 55 2) courage && is_position_value position)) [
        | inl bold ↦
            rw (bold, guard_gunshot)
              (
                investigate-reacts position d.actions,
                speech-goal "investigate the gunshot" (set_mood_default "alert" d)
                    ∙ speech-mood "alert" d,
              )
        | inr not_bold ↦ elim (Bool-cases (flt courage (lit 40 2))) [
          | inr calm ↦ rw (not_bold, guard_gunshot) (rw calm (refl, refl))
          | inl timid ↦
              elim (Bool-cases (has_any_tool d.actions ("wander" ∷ "go_to" ∷ "flee_from" ∷ []))) [
                | inl leaving ↦ rw (not_bold, guard_gunshot) (rw timid (rw leaving (leaving, refl)))
                | inr idle ↦
                    rw (not_bold, guard_gunshot)
                      (rw timid (
                        rw idle (
                          ground (arith, has_tool-append "wander" d.actions wandering),
                          speech-mood "afraid" d,
                        )))
              ]
        ]
      ]

  guard-reacts :
      (name : String) (courage : F) (position : Value F) (d : AgentDecision F)
      → (reacts name courage position (guard name courage position d).actions ≡ true)
        × ((guard name courage position d).speech ≡ d.speech)
        × ((if is_attack name || name == "GUNSHOT_HEARD" then d else guard name courage position d)
            ≡ d)
  unfolding guard
  guard-reacts name courage position d = elim (Bool-cases (is_attack name)) [
    | inl attack ↦
        let (r, same) = guard_attack-reacts courage d in rw (attack, guard) (r, same, refl)
    | inr other ↦ elim (Bool-cases (name == "GUNSHOT_HEARD")) [
      | inl shot ↦
          let (r, same) = guard_gunshot-reacts courage position d in
          rw (other, guard) (rw shot (r, same, refl))
      | inr calm ↦ rw (other, guard) (rw calm (refl, refl, refl))
    ]
  ]

  -- After an urgent event the actions hold the reaction that it asks for, and the speech is the
  -- backend's. After a threat, an attack or damage an NPC of courage below 0.48 flees and does not go,
  -- follow, wander or investigate, and any other faces or looks. After a gunshot one of courage 0.55
  -- or more that knows a position investigates, and otherwise one below 0.40 wanders, goes or flees.
  -- For every other event the decision is as it was.
  pub apply_behavior_guardrails_lem :
      (numbers : NumberText F) (trim_space : String → String) (profile flags : Fields F)
      (d : AgentDecision F)
      → let trigger = map_from (get "trigger_event" flags) in
        let name = string_from numbers (get "event_name" trigger) in
        let after = apply_behavior_guardrails numbers trim_space profile flags d in
        (reacts name
            (courage_of numbers trim_space profile)
            (get "position" (map_from (get "data" trigger)))
            after.actions
          ≡ true)
        × (after.speech ≡ d.speech)
        × ((if is_attack name || name == "GUNSHOT_HEARD" then d else after) ≡ d)
  unfolding apply_behavior_guardrails
  apply_behavior_guardrails_lem numbers trim_space profile flags d =
      guard-reacts (string_from numbers (get "event_name" (map_from (get "trigger_event" flags))))
        (courage_of numbers trim_space profile)
        (get "position" (map_from (get "data" (map_from (get "trigger_event" flags))))) d
