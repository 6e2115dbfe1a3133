-- ===== src/Agent/Decision/Overlay.antt =====
-- The dialogue overlay in executeDecision: an NPC that Rockstar still drives only speaks.
use agent_rd.Common.{
  ℕ, String, Bool, true, false, ◌&&◌, Option, none, some, List, [], ◌∷◌, ◌≡◌, refl, sym, ◌∙◌, ap,
  subst, inl, inr, ◌==◌, string_eq, All, Bool-cases, Float64,
}
use agent_rd.Domain.Value.{Fields}
use agent_rd.Domain.Event.{Fresh}
use agent_rd.Ownership.Manager.{can_speak}
use agent_rd.Timeline.Store.{Env, Outcome, done as returned, failed}
use agent_rd.Agent.Dispatcher.{ToolResult}
use agent_rd.Agent.Thinking.{is_listed}
use agent_rd.Agent.Guardrails.{AgentAction, AgentDecision, AgentSpeech}
use agent_rd.Agent.Normalize.{without_nil}
use agent_rd.Agent.Runtime.{Runtime, agent_state, append_fact, and_then}
use agent_rd.Agent.Decision.{
  Called, replied, panicked, ToolContext, tool_context, reached, Tools, fail_tool, registry_call,
  call_tool, only_speech, blocked_action, change_goal, change_mood, speak, has_speech, run_actions,
  note_speech, carry_out, execute_decision, say_arguments,
}

returned_inj : {A : Type 0} {a b : A} → returned a ≡ returned b → a ≡ b
returned_inj h = cc

module _ {F : Type 0} ⦃o : Float64 F⦄ (env : Env F) (draw : ℕ → Fresh F)
    (trim_space : String → String) where
  and_then-congr :
      {A B : Type 0} (x y : Outcome A × Runtime F)
      → (f g : A → Runtime F → Outcome B × Runtime F) → x ≡ y
      → ((a : A) (r : Runtime F) → x ≡ (returned a, r) → f a r ≡ g a r)
      → and_then env draw x f ≡ and_then env draw y g
  unfolding and_then
  and_then-congr (failed e, r) y f g p h = subst (λ z. (failed e, r) ≡ and_then env draw z g) p refl
  and_then-congr (returned a, r) y f g p h =
      h a r refl ∙ subst (λ z. g a r ≡ and_then env draw z g) p refl

  and_then-returned :
      {A B : Type 0} (x : Outcome A × Runtime F) (f : A → Runtime F → Outcome B × Runtime F)
      → {b : B} {r : Runtime F} → and_then env draw x f ≡ (returned b, r)
      → (a : A) × (s : Runtime F) × (x ≡ (returned a, s)) × (f a s ≡ (returned b, r))
  unfolding and_then
  and_then-returned (failed e, s) f h = absurd (let no = ap (λ z. z.0) h in cc)
  and_then-returned (returned a, s) f h = (a, s, refl, h)

  -- Two registries with the same names whose say handlers do the same.
  pub record SaysAlike (t u : Tools F) : Type 0 where
    pub names : t.names ≡ u.names
    pub say : (args : Fields F) (c : ToolContext F) → t.call "say" args c ≡ u.call "say" args c

  abbrev IsSay : AgentAction F → Type 0
  IsSay a = a.tool ≡ "say"

  only_speech-IsSay :
      (t : Tools F) (npc : String) (actions : List (AgentAction F)) (rt : Runtime F)
      → {l : List (AgentAction F)} {r : Runtime F}
      → only_speech env draw trim_space t npc actions rt ≡ (returned l, r)
      → All IsSay l
  unfolding only_speech
  only_speech-IsSay t npc [] rt {l} h =
      let e = ap (λ z. z.0) h in let same : [] ≡ l = cc in subst (All IsSay) same tt
  only_speech-IsSay t npc (a ∷ actions) rt {l} {r} h = elim (Bool-cases (a.tool == "say")) [
    | inl y ↦
        let (rest, s, e, f) =
          and_then-returned (only_speech env draw trim_space t npc actions rt)
            (λ others rt'. (returned (a ∷ others), rt')) (sym (rw (y, only_speech) refl) ∙ h) in
        let g : returned (a ∷ rest) ≡ returned l = ap (λ z. z.0) f in
        let same : a ∷ rest ≡ l = cc in
        subst (All IsSay) same
          ((string_eq.decides a.tool "say").0 y, only_speech-IsSay t npc actions rt e)
    | inr n ↦
        let (e, s, p, q) =
          and_then-returned
            (append_fact env draw npc "ACTION_FAILED" (blocked_action env draw trim_space t a) rt)
            (λ e rt'. only_speech env draw trim_space t npc actions rt')
            (sym (rw (n, only_speech) refl) ∙ h) in
        only_speech-IsSay t npc actions s q
  ]

  module _ (t u : Tools F) (h : SaysAlike t u) where
    registry_call-SaysAlike :
        (npc : String) (args : Fields F) (rt : Runtime F)
        → registry_call env draw trim_space t "say" npc args rt
          ≡ registry_call env draw trim_space u "say" npc args rt
    unfolding registry_call fail_tool
    registry_call-SaysAlike npc args rt =
        ap (λ x. reply (reached x rt)) (h.say args (tool_context npc rt))
      where
        reply : Called F × Runtime F → Outcome (ToolResult F) × Runtime F
        reply x = elim x.0 as (λ c. Outcome (ToolResult F) × Runtime F) [
          | replied r ↦ (returned r, x.1)
          | panicked m ↦ fail_tool env draw trim_space u "panic" m "say" npc x.1
        ]

    call_tool-SaysAlike :
        (npc : String) (args : Fields F) (rt : Runtime F)
        → call_tool env draw trim_space t "say" npc args rt
          ≡ call_tool env draw trim_space u "say" npc args rt
    unfolding call_tool fail_tool
    call_tool-SaysAlike npc args rt = elim (Bool-cases (is_listed "say" t.names)) [
      | inl y ↦
          let y' = subst (λ names. is_listed "say" names ≡ true) h.names y in
          rw (y, y', call_tool) (registry_call-SaysAlike npc (without_nil args) rt)
      | inr n ↦
          let n' = subst (λ names. is_listed "say" names ≡ false) h.names n in
          rw (n, n', call_tool) refl
    ]

    only_speech-SaysAlike :
        (npc : String) (actions : List (AgentAction F)) (rt : Runtime F)
        → only_speech env draw trim_space t npc actions rt
          ≡ only_speech env draw trim_space u npc actions rt
    unfolding only_speech
    only_speech-SaysAlike npc [] rt = refl
    only_speech-SaysAlike npc (a ∷ actions) rt = elim (Bool-cases (a.tool == "say")) [
      | inl y ↦
          rw (y, only_speech)
            (and_then-congr _ _ _ _ (only_speech-SaysAlike npc actions rt) (λ l r e. refl))
      | inr n ↦
          rw (n, only_speech)
            (and_then-congr _ _ _ _ refl (λ l r e. only_speech-SaysAlike npc actions r))
    ]

    run_actions-SaysAlike :
        (npc : String) (spoke : Bool) (actions : List (AgentAction F)) (rt : Runtime F)
        → All IsSay actions
        → run_actions env draw trim_space t npc spoke actions rt
          ≡ run_actions env draw trim_space u npc spoke actions rt
    unfolding run_actions
    run_actions-SaysAlike npc spoke [] rt s = refl
    run_actions-SaysAlike npc spoke (a ∷ actions) rt (says, rest) =
        elim (Bool-cases (a.tool == "say" && spoke)) [
          | inl y ↦ rw (y, run_actions) (run_actions-SaysAlike npc spoke actions rt rest)
          | inr n ↦
              rw (n, run_actions)
                (and_then-congr _ _ _ _ (rw says (call_tool-SaysAlike npc a.arguments rt)) (λ l r e.
                  and_then-congr _ _ _ _ (run_actions-SaysAlike npc spoke actions r rest)
                    (λ m s f. refl)))
        ]

    speak-SaysAlike :
        (npc : String) (s : Option AgentSpeech) (rt : Runtime F)
        → speak env draw trim_space t npc s rt ≡ speak env draw trim_space u npc s rt
    unfolding speak
    speak-SaysAlike npc none rt = refl
    speak-SaysAlike npc (some s) rt = elim (Bool-cases (can_speak npc rt.manager).1) [
      | inl y ↦
          rw (y, speak)
            (and_then-congr _ _ _ _ (call_tool-SaysAlike npc (say_arguments s) _) (λ r s e. refl))
      | inr n ↦ rw (n, speak) refl
    ]

    carry_out-SaysAlike :
        (npc : String) (d : AgentDecision F) (rt : Runtime F)
        → All IsSay d.actions
        → carry_out env draw trim_space t npc d rt ≡ carry_out env draw trim_space u npc d rt
    unfolding carry_out change_goal change_mood note_speech
    carry_out-SaysAlike npc d rt says = and_then-congr _ _ _ _ refl (λ v r1 e1.
        and_then-congr _ _ _ _ (speak-SaysAlike npc d.speech _) (λ said r2 e2.
          and_then-congr _ _ _ _ (run_actions-SaysAlike npc (has_speech d.speech) d.actions r2 says)
            (λ acted r3 e3. refl)))

    -- Of an NPC in the dialogue overlay executeDecision reaches no handler of a tool but say: with
    -- any other registry of the same names and the same say, everything is the same.
    pub execute_decision-SaysAlike :
        (npc : String) (d : AgentDecision F) (rt : Runtime F)
        → (agent_state env draw npc rt).0.dialogue_only ≡ true
        → execute_decision env draw trim_space t npc d rt
          ≡ execute_decision env draw trim_space u npc d rt
    unfolding execute_decision
    execute_decision-SaysAlike npc d rt overlay =
        rw (overlay, execute_decision)
          (and_then-congr _ _ _ _
            (and_then-congr _ _ _ _ (only_speech-SaysAlike npc d.actions _) (λ l r e. refl))
            (λ checked r2 e2.
              and_then-congr _ _ _ _ (carry_out-SaysAlike npc checked r2 (checked_says e2))
                (λ x r3 e3. refl)))
      where
        checked_says :
            {checked : AgentDecision F} {r : Runtime F}
            → and_then env draw
                (only_speech env draw trim_space t npc d.actions (agent_state env draw npc rt).1)
                (λ l rt'. (returned (record d { actions = l }), rt'))
              ≡ (returned checked, r)
            → All IsSay checked.actions
        checked_says {checked} e =
            let (l, s, p, q) =
              and_then-returned
                (only_speech env draw trim_space t npc d.actions (agent_state env draw npc rt).1)
                (λ l rt'. (returned (record d { actions = l }), rt')) e in
            let g : returned (record d { actions = l }) ≡ returned checked = ap (λ z. z.0) q in
            let same : record d { actions = l } ≡ checked = returned_inj g in
            subst (λ c. All IsSay c.actions) same (only_speech-IsSay t npc d.actions _ p)
