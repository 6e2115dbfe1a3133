-- ===== src/Agent/Thinking/Mode.antt =====
-- When thinkingModeFor of scheduler.go turns thinking off.
use agent_rd.Common.{
  ℕ, String, true, not, ◌&&◌, ◌||◌, Option, List, [], ◌∷◌, ◌++◌, ◌≡◌, ◌≢◌, ◌↔◌, ◌⊎◌, inl, inr, refl,
  sym, ◌∙◌, ◌==◌, string_eq, if◌then◌else◌, arith, Bool-cases,
}
use agent_rd.Domain.Event.{Event}
use agent_rd.Eligibility.Gate.{codes}
use agent_rd.Agent.Thinking.{
  ThinkingPolicy, prefix_runes, has_prefix, event_name_of_trigger, is_listed, has_listed_prefix,
  thinking_mode_for,
}

-- Of some element.
abbrev pub Exists : (String → Type 0) → List String → Type 0
Exists P [] = ⊥
Exists P (x ∷ xs) = P x ⊎ Exists P xs

-- A non-empty prefix of the runes.
abbrev pub IsPrefix : String → String → Type 0
IsPrefix s p = (p ≢ "") × (rest : List ℕ) × (codes s ≡ codes p ++ rest)

abbrev pub IsDisabled : ThinkingPolicy → String → String → Type 0
IsDisabled policy reason name =
    Exists (λ d. reason ≡ d) policy.disabled_for_reasons
    ⊎ (Exists (IsPrefix reason) policy.disabled_for_reasons
        ⊎ (Exists (λ d. name ≡ d) policy.disabled_for_events ⊎ (policy.default_mode ≡ "disabled")))

is_listed_iff : (s : String) (ds : List String) → (is_listed s ds ≡ true) ↔ Exists (λ d. s ≡ d) ds
unfolding is_listed
is_listed_iff s [] = ((λ h. absurd (cc)), (λ h. absurd h))
is_listed_iff s (d ∷ ds) = (
  (λ h. elim (Bool-cases (s == d)) [
    | inl hit ↦ inl ((string_eq.decides s d).0 hit)
    | inr miss ↦ inr ((is_listed_iff s ds).0 (ground arith))
  ]),
  (λ w. elim w [
    | inl same ↦ ground (arith, (string_eq.decides s d).1 same)
    | inr more ↦ ground (arith, (is_listed_iff s ds).1 more)
  ]),
)

prefix_runes_iff : (p s : List ℕ) → (prefix_runes p s ≡ true) ↔ ((rest : List ℕ) × (s ≡ p ++ rest))
prefix_runes_iff [] s = ((λ h. (s, refl)), (λ h. refl))
prefix_runes_iff (c ∷ p) [] = ((λ h. absurd (cc)), (λ h. absurd (cc)))
prefix_runes_iff (c ∷ p) (d ∷ s) = (
  (λ h.
      let same : c ≡ d = ground arith in
      let (rest, e) = (prefix_runes_iff p s).0 (ground arith) in (rest, rw (same, e))),
  (λ w.
      let (rest, e) = w in
      let same : d ≡ c = cc in
      let after : s ≡ p ++ rest = cc in ground (arith, (prefix_runes_iff p s).1 (rest, after))),
)

has_listed_prefix_iff :
    (s : String) (ps : List String) → (has_listed_prefix s ps ≡ true) ↔ Exists (IsPrefix s) ps
unfolding has_listed_prefix
has_listed_prefix_iff s [] = ((λ h. absurd (cc)), (λ h. absurd h))
has_listed_prefix_iff s (p ∷ ps) = (
  (λ h. elim (Bool-cases (not (p == "") && has_prefix s p)) [
    | inl hit ↦ inl (
      (λ e. ground (arith, (string_eq.decides p "").1 e)),
      ((prefix_runes_iff (codes p) (codes s)).0 (ground arith)).0,
      ((prefix_runes_iff (codes p) (codes s)).0 (ground arith)).1,
    )
    | inr miss ↦ inr ((has_listed_prefix_iff s ps).0 (ground arith))
  ]),
  (λ w. elim w [
    | inl (filled, rest, begins) ↦ ground (
      arith,
      (string_eq.decides p "").0,
      (prefix_runes_iff (codes p) (codes s)).1 (rest, begins),
      filled,
    )
    | inr more ↦ ground (arith, (has_listed_prefix_iff s ps).1 more)
  ]),
)

-- The mode where nothing disables thinking.
abbrev fallback_mode : String → String
fallback_mode mode = if mode == "low" || mode == "disabled" then mode else "low"

low_is_not_disabled : (mode : String) → mode ≡ "low" → mode ≢ "disabled"
low_is_not_disabled mode low off =
    let hit : string_eq.same "low" "disabled" ≡ true =
      (string_eq.decides "low" "disabled").1 (sym low ∙ off) in
    absurd (cc)

fallback_mode_cases :
    (mode : String) → (fallback_mode mode ≡ "disabled") ⊎ (fallback_mode mode ≡ "low")
fallback_mode_cases mode =
    ground (arith, string_eq.decides mode "low", string_eq.decides mode "disabled")

fallback_mode_iff : (mode : String) → (fallback_mode mode ≡ "disabled") ↔ (mode ≡ "disabled")
fallback_mode_iff mode = (
  (λ h. elim (Bool-cases (mode == "disabled")) [
    | inl off ↦ (string_eq.decides mode "disabled").0 off
    | inr other ↦
        absurd (
          low_is_not_disabled (fallback_mode mode) (ground (arith, string_eq.decides mode "low")) h)
  ]),
  (λ e. ground (arith, (string_eq.decides mode "disabled").1 e)),
)

module _ {F : Type 0} where
  -- The mode is "disabled" exactly if the reason is listed, a listed non-empty text begins it, the
  -- trigger's event name (empty without a trigger) is listed, or "disabled" is the default; else it
  -- is "low".
  pub thinking_mode_for_lem :
      (policy : ThinkingPolicy) (reason : String) (trigger : Option (Event F))
      → ((thinking_mode_for policy reason trigger ≡ "disabled")
          ↔ IsDisabled policy reason (event_name_of_trigger trigger))
        × ((thinking_mode_for policy reason trigger ≡ "disabled")
            ⊎ (thinking_mode_for policy reason trigger ≡ "low"))
  unfolding thinking_mode_for
  thinking_mode_for_lem policy reason trigger =
      let name = event_name_of_trigger trigger in
      elim (Bool-cases (is_listed reason policy.disabled_for_reasons)) [
        | inl off ↦ rw off (
          ((λ h. inl ((is_listed_iff reason policy.disabled_for_reasons).0 off)), (λ w. refl)),
          inl refl,
        )
        | inr a ↦ elim (Bool-cases (has_listed_prefix reason policy.disabled_for_reasons)) [
          | inl off ↦
              rw (a, off)
                (
                  (
                    (λ h.
                        inr
                          (inl ((has_listed_prefix_iff reason policy.disabled_for_reasons).0 off))),
                    (λ w. refl),
                  ),
                  inl refl,
                )
          | inr b ↦ elim (Bool-cases (is_listed name policy.disabled_for_events)) [
            | inl off ↦
                rw (a, b, off)
                  (
                    (
                      (λ h.
                          inr (inr (inl ((is_listed_iff name policy.disabled_for_events).0 off)))),
                      (λ w. refl),
                    ),
                    inl refl,
                  )
            | inr c ↦
                rw (a, b, c)
                  (
                    (
                      (λ h. inr (inr (inr ((fallback_mode_iff policy.default_mode).0 h)))),
                      (λ w. elim w [
                        | inl x ↦
                            ground (arith, (is_listed_iff reason policy.disabled_for_reasons).1 x)
                        | inr (inl x) ↦
                            ground (
                              arith,
                              (has_listed_prefix_iff reason policy.disabled_for_reasons).1 x,
                            )
                        | inr (inr (inl x)) ↦
                            ground (arith, (is_listed_iff name policy.disabled_for_events).1 x)
                        | inr (inr (inr x)) ↦ (fallback_mode_iff policy.default_mode).1 x
                      ]),
                    ),
                    fallback_mode_cases policy.default_mode,
                  )
          ]
        ]
      ]
