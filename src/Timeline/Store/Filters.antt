-- ===== src/Timeline/Store/Filters.antt =====
-- What the filters of GrabTimeline ask of an event, said apart from its tests.
use mathlib.Core.List.{Memᴰ}
use agent_rd.Common.{
  ℕ, ◌<◌, ◌≡◌, ◌≢◌, refl, sym, subst, ◌⊎◌, inl, inr, ◌∙◌, String, Bool, true, false, not, ◌&&◌,
  ◌||◌, Option, none, some, List, [], ◌∷◌, arith, ◌==◌, Bool-cases, string_eq, ltb, decided, apart,
  Float64, flt, ◌↔◌,
}
use agent_rd.Domain.Event.{Event}
use agent_rd.Timeline.Store.{GrabFilter, contains, intersects, with_name, is_nil, accepts, select}

-- A filter of one name and a list of names asks for nothing, or for this name.
abbrev pub IsUnasked : String → List String → Type 0
IsUnasked one many = (one ≡ "") × (many ≡ [])

abbrev pub IsAsked : String → List String → String → Type 0
IsAsked one many x = ((one ≢ "") × (x ≡ one)) ⊎ Memᴰ x many

-- An event passes every filter.
pub record IsMatch {F : Type 0} ⦃o : Float64 F⦄ (f : GrabFilter F) (e : Event F) : Type 0 where
  pub named : IsUnasked f.event_name f.event_names ⊎ IsAsked f.event_name f.event_names e.event_name
  pub tagged : IsUnasked f.tag f.tags ⊎ ((t : String) × Memᴰ t e.tags × IsAsked f.tag f.tags t)
  pub involved : (f.entity ≡ "") ⊎ Memᴰ f.entity e.entities
  pub important :
      (f.minimum_importance ≡ none)
      ⊎ ((least x : F) × (f.minimum_importance ≡ some least)
          × (e.importance ≡ some x)
          × (flt x least ≡ false))
  pub later : (f.since_seq ≡ none) ⊎ ((n : ℕ) × (f.since_seq ≡ some n) × (n < e.seq))
  pub earlier : (f.before_seq ≡ none) ⊎ ((n : ℕ) × (f.before_seq ≡ some n) × (e.seq < n))

-- The events that match, in their order, and no other.
pub data Picks {F : Type 0} ⦃o : Float64 F⦄ (f : GrabFilter F)
    : List (Event F) → List (Event F) → Type 0 where
  nothing : Picks f [] []
  takes :
      (e : Event F) (es rs : List (Event F))
      → IsMatch f e
      → Picks f es rs
      → Picks f (e ∷ es) (e ∷ rs)
  skips :
      (e : Event F) (es rs : List (Event F)) → ¬ IsMatch f e → Picks f es rs → Picks f (e ∷ es) rs

contains-Mem : (x : String) (xs : List String) → (contains xs x ≡ true) ↔ Memᴰ x xs
unfolding contains
contains-Mem x xs = (there xs, back xs)
  where
    there : (l : List String) → contains l x ≡ true → Memᴰ x l
    there [] h = absurd (cc)
    there (y ∷ l) h = elim (Bool-cases (y == x)) [
      | inl hit ↦ Memᴰ.head (sym (decided y x hit))
      | inr miss ↦ Memᴰ.tail (there l (ground (arith, h, miss)))
    ]

    back : (l : List String) → Memᴰ x l → contains l x ≡ true
    back [] m = elim m [ ]
    back (y ∷ l) (Memᴰ.head e) = ground (arith, string_eq.decides y x, sym e)
    back (y ∷ l) (Memᴰ.tail m) = ground (arith, back l m)

is_nil-nil : (xs : List String) → is_nil xs ≡ true → xs ≡ []
is_nil-nil [] h = refl
is_nil-nil (x ∷ xs) h = absurd (cc)

asked :
    (one : String) (many : List String) (x : String)
    → (contains (with_name one many) x ≡ true) ↔ IsAsked one many x
unfolding contains
asked one many x = elim (Bool-cases (one == "")) [
  | inl empty ↦ (
    (λ h. inr ((contains-Mem x many).0 (sym (rw empty refl) ∙ h))),
    (λ a. elim a [
      | inl (given, same) ↦ absurd (given (decided one "" empty))
      | inr m ↦ rw empty ((contains-Mem x many).1 m)
    ]),
  )
  | inr given ↦ (
    (λ h. elim (Bool-cases (one == x)) [
      | inl hit ↦ inl (apart one "" given, sym (decided one x hit))
      | inr miss ↦ inr ((contains-Mem x many).0 (sym (rw (given, miss) refl) ∙ h))
    ]),
    (λ a. elim a [
      | inl (filled, same) ↦ rw given (ground (arith, string_eq.decides one x, sym same))
      | inr m ↦ rw given (ground (arith, (contains-Mem x many).1 m))
    ]),
  )
]

unasked :
    (one : String) (many : List String) → (is_nil (with_name one many) ≡ true) ↔ IsUnasked one many
unasked one many = elim (Bool-cases (one == "")) [
  | inl empty ↦ (
    (λ h. (decided one "" empty, is_nil-nil many (sym (rw empty refl) ∙ h))),
    (λ u. rw empty (rw (u.1) refl)),
  )
  | inr given ↦ ((λ h. absurd (ground (arith, given, h))), (λ u. absurd (apart one "" given u.0)))
]

common_tag :
    (set tags : List String)
    → (intersects set tags ≡ true) ↔ ((t : String) × Memᴰ t tags × (contains set t ≡ true))
unfolding intersects
common_tag set tags = (there tags, back tags)
  where
    there :
        (l : List String)
        → intersects set l ≡ true
        → (t : String) × Memᴰ t l × (contains set t ≡ true)
    there [] h = absurd (cc)
    there (y ∷ l) h = elim (Bool-cases (contains set y)) [
      | inl hit ↦ (y, Memᴰ.head refl, hit)
      | inr miss ↦ let (t, m, c) = there l (ground (arith, h, miss)) in (t, Memᴰ.tail m, c)
    ]

    back :
        (l : List String)
        → (t : String) × Memᴰ t l × (contains set t ≡ true)
        → intersects set l ≡ true
    back [] (t, m, c) = elim m [ ]
    back (y ∷ l) (t, Memᴰ.head e, c) =
        let hit : contains set y ≡ true = subst (λ i. contains set i ≡ true) e c in rw hit refl
    back (y ∷ l) (t, Memᴰ.tail m, c) = ground (arith, back l (t, m, c))

-- A test that stands for a statement, under `||`.
either : {P Q : Type 0} (b c : Bool) → (b ≡ true) ↔ P → (c ≡ true) ↔ Q → ((b || c) ≡ true) ↔ (P ⊎ Q)
either true c p q = ((λ h. inl (p.0 refl)), (λ x. refl))
either false c p q =
    ((λ h. inr (q.0 h)), (λ x. elim x [ inl a ↦ absurd (cc (p.1 a)) | inr b ↦ q.1 b ]))

both : {P Q : Type 0} (b c : Bool) → (b ≡ true) ↔ P → (c ≡ true) ↔ Q → ((b && c) ≡ true) ↔ (P × Q)
both true c p q = ((λ h. (p.0 refl, q.0 h)), (λ x. q.1 x.1))
both false c p q = ((λ h. absurd (cc)), (λ x. p.1 x.0))

after_seq :
    (since : Option ℕ) (seq : ℕ)
    → ((elim since [ none ↦ true | some n ↦ ltb n seq ]) ≡ true)
      ↔ ((since ≡ none) ⊎ ((n : ℕ) × (since ≡ some n) × (n < seq)))
after_seq none seq = ((λ h. inl refl), (λ x. refl))
after_seq (some n) seq = (
  (λ h. inr (n, refl, ground (arith, h))),
  (λ x. elim x [
    | inl e ↦ absurd (cc)
    | inr (m, e, l) ↦ let same : n ≡ m = cc in rw same (ground (arith, l))
  ]),
)

before :
    (bound : Option ℕ) (seq : ℕ)
    → ((elim bound [ none ↦ true | some n ↦ ltb seq n ]) ≡ true)
      ↔ ((bound ≡ none) ⊎ ((n : ℕ) × (bound ≡ some n) × (seq < n)))
before none seq = ((λ h. inl refl), (λ x. refl))
before (some n) seq = (
  (λ h. inr (n, refl, ground (arith, h))),
  (λ x. elim x [
    | inl e ↦ absurd (cc)
    | inr (m, e, l) ↦ let same : n ≡ m = cc in rw same (ground (arith, l))
  ]),
)

module _ {F : Type 0} ⦃o : Float64 F⦄ where
  abbrev IsImportant : Option F → Option F → Type 0
  IsImportant minimum importance =
      (minimum ≡ none)
      ⊎ ((least x : F) × (minimum ≡ some least) × (importance ≡ some x) × (flt x least ≡ false))

  minimum_kept :
      (minimum importance : Option F)
      → ((elim minimum [
        | none ↦ true
        | some least ↦ elim importance [ none ↦ false | some x ↦ not (flt x least) ]
      ])
          ≡ true)
        ↔ IsImportant minimum importance
  minimum_kept none importance = ((λ h. inl refl), (λ x. refl))
  minimum_kept (some least) none = (
    (λ h. absurd (cc)),
    (λ x. elim x [ inl e ↦ absurd (cc) | inr (a, b, p, q, r) ↦ absurd (cc) ]),
  )
  minimum_kept (some least) (some x) = (
    (λ h. inr (least, x, refl, refl, ground (arith, h))),
    (λ w. elim w [
      | inl e ↦ absurd (cc)
      | inr (a, b, p, q, r) ↦
          let same_least : least ≡ a = cc in
          let same_x : x ≡ b = cc in rw (same_least, same_x, r) refl
    ]),
  )

  asked_tag :
      (f : GrabFilter F) (tags : List String)
      → (intersects (with_name f.tag f.tags) tags ≡ true)
        ↔ ((t : String) × Memᴰ t tags × IsAsked f.tag f.tags t)
  asked_tag f tags = (
    (λ h.
        let (t, m, c) = (common_tag (with_name f.tag f.tags) tags).0 h in
        (t, m, (asked f.tag f.tags t).0 c)),
    (λ x. (common_tag (with_name f.tag f.tags) tags).1 (x.0, x.1, (asked f.tag f.tags x.0).1 x.2)),
  )

  -- The tests of the code tell what the filters ask.
  pub accepts-IsMatch : (f : GrabFilter F) (e : Event F) → (accepts f e ≡ true) ↔ IsMatch f e
  unfolding accepts
  accepts-IsMatch f e =
      let tests =
        both _ _
          (either _ _ (unasked f.event_name f.event_names)
            (asked f.event_name f.event_names e.event_name))
          (both _ _ (either _ _ (unasked f.tag f.tags) (asked_tag f e.tags)) (
            both _ _ (either _ _ (string_eq.decides f.entity "") (contains-Mem f.entity e.entities))
              (both _ _ (minimum_kept f.minimum_importance e.importance)
                (both _ _ (after_seq f.since_seq e.seq) (before f.before_seq e.seq))))) in
      (
        (λ h.
            let (n, (t, (i, (m, (l, b))))) = tests.0 h in
            record { named = n; tagged = t; involved = i; important = m; later = l; earlier = b }),
        (λ x. tests.1 (x.named, (x.tagged, (x.involved, (x.important, (x.later, x.earlier)))))),
      )

  pub select-Picks : (f : GrabFilter F) (es : List (Event F)) → Picks f es (select f es)
  unfolding select
  select-Picks f [] = nothing
  select-Picks f (e ∷ es) = elim (Bool-cases (accepts f e)) [
    | inl t ↦ rw t (takes e es _ ((accepts-IsMatch f e).0 t) (select-Picks f es))
    | inr u ↦ rw u (
        skips e es _ (λ x. absurd (ground (arith, u, (accepts-IsMatch f e).1 x)))
          (select-Picks f es))
  ]
