-- ===== src/Lore/Quest/Overrides.antt =====
-- What the state of a quest overrides in the context that ContextFor gives.
use agent_rd.Common.{
  sym, nat_eq, list_eq, ◌⊎◌, decided, apart, String, Bool, true, false, ◌&&◌, List, [], ◌∷◌, ◌≡◌,
  refl, subst, ◌∙◌, ◌==◌, string_eq, if◌then◌else◌, inl, inr, Bool-cases,
}
use agent_rd.Domain.Value.{
  Value, Fields, null, bool, num, int, str, strings, floats, arr, obj, nil, cons, done, field, get,
  has,
}
use agent_rd.World.{set_field}
use agent_rd.World.Snapshot.{get-set_field}
use agent_rd.Agent.Thinking.{is_listed}
use agent_rd.Lore.Quest.{present_state_value, override_keys, override_with}

module _ {F : Type 0} where
  has-present :
      (k : String) (m : Fields F)
      → (has k m && present_state_value (get k m)) ≡ present_state_value (get k m)
  unfolding has get present_state_value
  has-present k done = refl
  has-present k (field j v m) = elim (Bool-cases (k == j)) [
    | inl t ↦ rw t refl
    | inr f ↦ rw f (has-present k m)
  ]

  override_same :
      (k : String) (state context : Fields F)
      → get k (
          if has k state && present_state_value (get k state)
          then set_field k (get k state) context
          else context)
        ≡ (if present_state_value (get k state) then get k state else get k context)
  override_same k state context =
      rw (has-present k state) (elim (Bool-cases (present_state_value (get k state))) [
        | inl t ↦
            rw t
              (get-set_field k k (get k state) context ∙ (rw ((string_eq.decides k k).1 refl) refl))
        | inr f ↦ rw f refl
      ])

  override_other :
      (k j : String) (b : Bool) (v : Value F) (context : Fields F)
      → (k == j) ≡ false
      → get k (if b then set_field j v context else context) ≡ get k context
  override_other k j true v context f = get-set_field k j v context ∙ rw f refl
  override_other k j false v context f = refl

  chosen_twice :
      (b p : Bool) (x y : Value F)
      → (if b && p then x else if p then x else y) ≡ (if p then x else y)
  chosen_twice true true x y = refl
  chosen_twice true false x y = refl
  chosen_twice false p x y = refl

  -- One key of the loop.
  abbrev overridden : Fields F → Fields F → String → Fields F
  overridden state context k =
      if has k state && present_state_value (get k state)
      then set_field k (get k state) context
      else context

  get-override_with :
      (k : String) (state : Fields F) (ks : List String) (context : Fields F)
      → get k (override_with state ks context) ≡ (
          if is_listed k ks && present_state_value (get k state)
          then get k state
          else get k context)
  unfolding override_with is_listed
  get-override_with k state [] context = refl
  get-override_with k state (j ∷ ks) context =
      get-override_with k state ks _ ∙ elim (Bool-cases (k == j)) [
        | inl t ↦
            let same =
              subst
                (λ i.
                  get k (overridden state context i)
                  ≡ (if present_state_value (get k state) then get k state else get k context))
                ((string_eq.decides k j).0 t) (override_same k state context) in
            rw (t, same) (chosen_twice (is_listed k ks) (present_state_value (get k state)) _ _)
        | inr f ↦
            rw
              (
                f,
                override_other k j (has j state && present_state_value (get j state)) (get j state)
                    context f,
              )
              refl
      ]

-- The values of a state that override nothing: Python's None, "" and [].
pub data IsBlank {F : Type 0} : Value F → Type 0 where
  nothing : IsBlank null
  no_text : IsBlank (str "")
  no_items : IsBlank (arr nil)
  no_strings : IsBlank (strings [])

-- Under this key the state's value stands, unless it is blank and the quest's does.
abbrev pub Overrides : {F : Type 0} → Fields F → Value F → String → Fields F → Type 0
Overrides state old k context =
    (IsBlank (get k state) × (get k context ≡ old))
    ⊎ ((¬ IsBlank (get k state)) × (get k context ≡ get k state))

module _ {F : Type 0} where
  no_text_only : (s : String) → IsBlank {F = F} (str s) → s ≡ ""
  no_text_only s no_text = refl

  filled_or_not : (v : Value F) → IsBlank v ⊎ ((present_state_value v ≡ true) × (¬ IsBlank v))
  unfolding present_state_value
  filled_or_not null = inl nothing
  filled_or_not (bool b) = inr (refl, λ x. elim x [ ])
  filled_or_not (num x) = inr (refl, λ x. elim x [ ])
  filled_or_not (int n) = inr (refl, λ x. elim x [ ])
  filled_or_not (str s) = elim (Bool-cases (s == "")) [
    | inl empty ↦ inl (subst (λ t. IsBlank {F = F} (str t)) (sym (decided s "" empty)) no_text)
    | inr given ↦ inr (rw given refl, λ x. absurd (apart s "" given (no_text_only s x)))
  ]
  filled_or_not (strings []) = inl no_strings
  filled_or_not (strings (s ∷ ss)) = inr (refl, λ x. elim x [ ])
  filled_or_not (floats xs) = inr (refl, λ x. elim x [ ])
  filled_or_not (arr nil) = inl no_items
  filled_or_not (arr (cons v xs)) = inr (refl, λ x. elim x [ ])
  filled_or_not (obj m) = inr (refl, λ x. elim x [ ])

  IsBlank-present_state_value : (v : Value F) → IsBlank v → present_state_value v ≡ false
  unfolding present_state_value
  IsBlank-present_state_value _ nothing = refl
  IsBlank-present_state_value _ no_text = refl
  IsBlank-present_state_value _ no_items = refl
  IsBlank-present_state_value _ no_strings = refl

  -- The loop of ContextFor, at a key that it knows.
  pub Overrides-override_with :
      (k : String) (state context : Fields F)
      → is_listed k override_keys ≡ true
      → Overrides state (get k context) k (override_with state override_keys context)
  Overrides-override_with k state context known = elim (filled_or_not (get k state)) [
    | inl blank ↦ inl (
      blank,
      get-override_with k state override_keys context
          ∙ rw (known, IsBlank-present_state_value (get k state) blank) refl,
    )
    | inr (present, full) ↦
        inr (full, get-override_with k state override_keys context ∙ rw (known, present) refl)
  ]

  -- And at any other.
  pub override_with-other :
      (k : String) (state context : Fields F)
      → is_listed k override_keys ≡ false
      → get k (override_with state override_keys context) ≡ get k context
  override_with-other k state context other =
      get-override_with k state override_keys context ∙ rw other refl
