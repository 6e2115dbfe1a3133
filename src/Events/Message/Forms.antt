-- ===== src/Events/Message/Forms.antt =====
-- The values that the readers of normalizer.go accept.
use agent_rd.Common.{
  String, Bool, true, false, not, ◌||◌, Option, none, some, List, [], ◌≡◌, refl, sym, subst, inl,
  inr, string_eq, if◌then◌else◌, arith, Bool-cases, Option-cases, Float64,
}
use agent_rd.Domain.Value.{
  field, field, Value, Fields, NumberText, null, bool, num, int, str, strings, floats, arr, obj,
  done, map_from,
}
use agent_rd.Events.Readers.{ok, MessageError, truthy, string_list, listed, importance_from}
use agent_rd.Events.Message.{object, optional_object}
use agent_rd.Events.Message.Steps.{ok_inj}

module _ {F : Type 0} where
  -- What a field may hold, apart from a falsy value: an object, or what makes a list of strings.
  abbrev pub is_object : Value F → Bool
  is_object (obj m) = true
  is_object _ = false

  abbrev pub is_listable : Value F → Bool
  is_listable (str s) = true
  is_listable (strings ss) = true
  is_listable (arr xs) = true
  is_listable (obj m) = true
  is_listable _ = false

  -- What an importance may be: no list, no object, and no text that is not a number.
  abbrev pub is_score : NumberText F → (String → String) → Value F → Bool
  is_score numbers trim_space (arr xs) = false
  is_score numbers trim_space (obj m) = false
  is_score numbers trim_space (str s) = elim (numbers.parse (trim_space s)) [
    | none ↦ false
    | some x ↦ true
  ]
  is_score numbers trim_space _ = true

  object-ok :
      (x : MessageError) (v : Value F) {m : Fields F}
      → object x v ≡ ok m
      → (is_object v ≡ true) × (m ≡ map_from v)
  unfolding map_from
  object-ok x v h = ground arith

  is_object-object :
      (x : MessageError) (v : Value F) → is_object v ≡ true → object x v ≡ ok (map_from v)
  unfolding map_from
  is_object-object x v h = ground arith

module _ {F : Type 0} ⦃o : Float64 F⦄ where
  abbrev pub falsy_or : (Value F → Bool) → Value F → Bool
  falsy_or test v = not (truthy v) || test v

  -- The object that a falsy value stands for is empty.
  abbrev pub object_in : Value F → Fields F
  object_in v = if truthy v then map_from v else done

  pub optional_object-ok :
      (x : MessageError) (v : Value F) {m : Fields F}
      → optional_object x v ≡ ok m
      → (falsy_or is_object v ≡ true) × (m ≡ object_in v)
  unfolding optional_object
  optional_object-ok x v {m} h = elim (Bool-cases (truthy v)) [
    | inl t ↦ rw t (object-ok x v (subst (λ b. (if b then object x v else ok done) ≡ ok m) t h))
    | inr f ↦
        rw f (refl, sym (ok_inj (subst (λ b. (if b then object x v else ok done) ≡ ok m) f h)))
  ]

  pub is_object-optional :
      (x : MessageError) (v : Value F)
      → falsy_or is_object v ≡ true
      → optional_object x v ≡ ok (object_in v)
  unfolding optional_object
  is_object-optional x v h = ground (arith, is_object-object x v)

module _ {F : Type 0} ⦃o : Float64 F⦄ (numbers : NumberText F) where
  listed-ok :
      (v : Value F) (name : String) {l : List String}
      → listed numbers v name ≡ ok l
      → is_listable v ≡ true
  unfolding listed
  listed-ok v name h = ground arith

  is_listable-listed :
      (v : Value F) (name : String)
      → is_listable v ≡ true
      → (l : List String) × (listed numbers v name ≡ ok l)
  unfolding listed
  is_listable-listed (str s) name h = (_, refl)
  is_listable-listed (strings ss) name h = (_, refl)
  is_listable-listed (arr xs) name h = (_, refl)
  is_listable-listed (obj m) name h = (_, refl)
  is_listable-listed _ name h = absurd (cc)

  pub string_list-ok :
      (v : Value F) (name : String) {l : List String}
      → string_list numbers v name ≡ ok l
      → falsy_or is_listable v ≡ true
  unfolding string_list
  string_list-ok v name h = ground (arith, listed-ok v name)

  pub is_listable-list :
      (v : Value F) (name : String)
      → falsy_or is_listable v ≡ true
      → (l : List String) × (string_list numbers v name ≡ ok l)
  unfolding string_list
  is_listable-list v name h = elim (Bool-cases (truthy v)) [
    | inl t ↦ rw t (is_listable-listed v name (subst (λ b. (not b || is_listable v) ≡ true) t h))
    | inr f ↦ rw f ([], refl)
  ]

  pub importance_from-ok :
      (trim_space : String → String) (v : Value F) {x : Option F}
      → importance_from numbers trim_space v ≡ ok x
      → is_score numbers trim_space v ≡ true
  unfolding importance_from
  importance_from-ok trim_space v h = ground arith

  pub is_score-importance :
      (trim_space : String → String) (v : Value F)
      → is_score numbers trim_space v ≡ true
      → (x : Option F) × (importance_from numbers trim_space v ≡ ok x)
  unfolding importance_from
  is_score-importance trim_space null h = (_, refl)
  is_score-importance trim_space (bool true) h = (_, refl)
  is_score-importance trim_space (bool false) h = (_, refl)
  is_score-importance trim_space (num x) h = (_, refl)
  is_score-importance trim_space (int n) h = (_, refl)
  is_score-importance trim_space (strings ss) h = (_, refl)
  is_score-importance trim_space (floats xs) h = (_, refl)
  is_score-importance trim_space (arr xs) h = absurd (cc)
  is_score-importance trim_space (obj m) h = absurd (cc)
  is_score-importance trim_space (str s) h = elim (Option-cases (numbers.parse (trim_space s))) [
    | inl gone ↦ absurd (ground arith)
    | inr (x, there) ↦ rw there (some x, refl)
  ]

module _ {F : Type 0} ⦃o : Float64 F⦄ where
  pub is_object-falsy_or : (v : Value F) → is_object v ≡ true → falsy_or is_object v ≡ true
  is_object-falsy_or v h = ground arith

  pub object_in-obj : (m : Fields F) → object_in (obj m) ≡ m
  unfolding truthy map_from
  object_in-obj done = refl
  object_in-obj (field k v m) = refl
