-- ===== src/Dotenv/Applied.antt =====
-- What LoadEnv does to the environment, by what it returns as applied.
use agent_rd.Common.{
  decided, ℕ, Bool, true, false, not, ◌&&◌, Option, none, some, List, [], ◌∷◌, ◌≡◌, refl, sym, ◌∙◌,
  subst, ◌⊎◌, inl, inr, ◌==◌, nat_eq, list_eq, if◌then◌else◌, Dict, lookup, insert, lookup-insert,
  Bool-cases, Option-cases, arith,
}
use agent_rd.Dotenv.Parser.{parse_env_text}
use agent_rd.Dotenv.Load.{
  Found, nothing, directory, unreadable, content, Disk, Environment, Loaded, default_env_files,
  set_env, is_set, getenv_of, resolve_path, apply_values, merge_values, load_found, load_env_file,
  load_files, load_env,
}

-- The first of two values that is there.
abbrev pub first_of : Option (List ℕ) → Option (List ℕ) → Option (List ℕ)
first_of none w = w
first_of (some v) w = some v

-- At a key: the environment after is what was applied over the one before, and without override
-- nothing is applied to what was set.
abbrev Holds : Bool → Option (List ℕ) → Option (List ℕ) → Option (List ℕ) → Type 0
Holds override before after applied =
    (after ≡ first_of applied before) × ((override ≡ true) ⊎ ((applied ≡ none) ⊎ (before ≡ none)))

abbrev Applies : Bool → Environment → Environment → Dict (List ℕ) (List ℕ) → Type 0
Applies override before env applied =
    (k : List ℕ) → Holds override (lookup k before) (lookup k env) (lookup k applied)

abbrev AppliesLoaded : Bool → Environment → Loaded → Type 0
AppliesLoaded override before l = Applies override before l.env l.applied

Applies-start : (override : Bool) (env : Environment) → Applies override env env []
unfolding lookup
Applies-start override env k = (refl, inr (inl refl))

unset : (v : Option (List ℕ)) → is_set v ≡ false → v ≡ none
unset none e = refl
unset (some v) e = absurd (cc)

first_of-none : (a b : Option (List ℕ)) → first_of a b ≡ none → (a ≡ none) × (b ≡ none)
first_of-none none b e = (refl, e)
first_of-none (some v) b e = absurd (cc)

may_apply :
    (override : Bool) (found : Option (List ℕ))
    → (not override && is_set found) ≡ false
    → (override ≡ true) ⊎ (found ≡ none)
may_apply true found e = inl refl
may_apply false found e = inr (unset found e)

Holds-insert :
    (override b : Bool) (v : List ℕ) (before env applied : Option (List ℕ))
    → ((b ≡ true) → (override ≡ true) ⊎ (env ≡ none))
    → Holds override before env applied
    → Holds override before (if b then some v else env) (if b then some v else applied)
Holds-insert override false v before env applied free h = h
Holds-insert override true v before env applied free h = elim (free refl) [
  | inl o ↦ (refl, inl o)
  | inr n ↦ (refl, inr (inr ((first_of-none applied before (sym h.0 ∙ n)).1)))
]

Applies-insert :
    (override : Bool) (before env : Environment) (applied : Dict (List ℕ) (List ℕ)) (j v : List ℕ)
    → (override ≡ true) ⊎ (lookup j env ≡ none)
    → Applies override before env applied
    → Applies override before (insert j v env) (insert j v applied)
Applies-insert override before env applied j v free h k =
    rw (lookup-insert k j v env, lookup-insert k j v applied)
      (Holds-insert override (k == j) v (lookup k before) (lookup k env) (lookup k applied)
        (λ t. subst (λ i. (override ≡ true) ⊎ (lookup i env ≡ none)) (sym (decided k j t)) free)
        (h k))

set_env-insert :
    (k v : List ℕ) (env after : Environment) → set_env k v env ≡ some after → after ≡ insert k v env
unfolding set_env
set_env-insert k v env after e = ground (arith, e)

apply_values-Applies :
    (override : Bool) (values before env applied : Environment)
    → Applies override before env applied
    → AppliesLoaded override before (apply_values override values env applied)
unfolding apply_values
apply_values-Applies override [] before env applied h = h
apply_values-Applies override ((k, v) ∷ values) before env applied h =
    elim (Bool-cases (not override && is_set (lookup k env))) [
      | inl kept ↦ rw kept (apply_values-Applies override values before env applied h)
      | inr free ↦ rw free (elim (Option-cases (set_env k v env)) [
        | inl n ↦ rw n h
        | inr (after, e) ↦
            rw (e, set_env-insert k v env after e)
              (apply_values-Applies override values before (insert k v env) (insert k v applied) (
                Applies-insert override before env applied k v
                  (may_apply override (lookup k env) free) h))
      ])
    ]

load_env_file-Applies :
    (table : ℕ → ℕ) (disk : Disk) (override : Bool) (path : List ℕ) (env : Environment)
    → AppliesLoaded override env (load_env_file table disk override path env)
unfolding load_env_file
load_env_file-Applies table disk override path env = found (disk.find (resolve_path disk path))
  where
    found : (f : Found) → AppliesLoaded override env (load_found table disk override f env)
    found nothing = Applies-start override env
    found directory = Applies-start override env
    found unreadable = Applies-start override env
    found (content text) =
        apply_values-Applies override (parse_env_text table (getenv_of env) text) env env []
          (Applies-start override env)

lookup-merge_values :
    (k : List ℕ) (values applied : Dict (List ℕ) (List ℕ))
    → lookup k (merge_values values applied) ≡ first_of (lookup k values) (lookup k applied)
unfolding merge_values lookup
lookup-merge_values k [] applied = refl
lookup-merge_values k ((j, v) ∷ values) applied =
    lookup-insert k j v (merge_values values applied) ∙ elim (Bool-cases (k == j)) [
      | inl t ↦ rw t refl
      | inr f ↦ rw f (lookup-merge_values k values applied)
    ]

-- What two loads in a row applied.
Holds-twice :
    (override : Bool) (before between after first second : Option (List ℕ))
    → Holds override before between first
    → Holds override between after second
    → Holds override before after (first_of second first)
Holds-twice override before between after first none f s = (s.0 ∙ f.0, f.1)
Holds-twice override before between after first (some v) f (e, inl o) = (e, inl o)
Holds-twice override before between after first (some v) f (e, inr (inl n)) = absurd (cc)
Holds-twice override before between after first (some v) f (e, inr (inr n)) =
    (e, inr (inr ((first_of-none first before (sym f.0 ∙ n)).1)))

Applies-merge :
    (override : Bool) (before between after first second : Environment)
    → Applies override before between first
    → Applies override between after second
    → Applies override before after (merge_values second first)
Applies-merge override before between after first second f s k =
    rw (lookup-merge_values k second first) (
      Holds-twice override (lookup k before) (lookup k between) (lookup k after) (lookup k first)
        (lookup k second) (f k) (s k))

load_files-Applies :
    (table : ℕ → ℕ) (disk : Disk) (override : Bool) (paths : List (List ℕ))
    (before env applied : Environment)
    → Applies override before env applied
    → AppliesLoaded override before (load_files table disk override paths env applied)
unfolding load_files
load_files-Applies table disk override [] before env applied h = h
load_files-Applies table disk override (path ∷ paths) before env applied h =
    let file = load_env_file table disk override path env in
    let so_far =
      Applies-merge override before env file.env applied file.applied h
        (load_env_file-Applies table disk override path env) in
    elim (Bool-cases file.failed) [
      | inl t ↦ rw t so_far
      | inr f ↦ rw f (
          load_files-Applies table disk override paths before file.env
            (merge_values file.applied applied) so_far)
    ]

-- On every path, errors included, the environment after LoadEnv is, key by key, what LoadEnv returns as
-- applied over the environment before, and with override not set nothing is applied to a key that was
-- set before.
pub load_env-applied :
    (table : ℕ → ℕ) (disk : Disk) (override : Bool) (paths : Option (List (List ℕ)))
    (env : Environment) (k : List ℕ)
    → (lookup k (load_env table disk override paths env).env
        ≡ first_of (lookup k (load_env table disk override paths env).applied) (lookup k env))
      × ((override ≡ true)
          ⊎ ((lookup k (load_env table disk override paths env).applied ≡ none)
              ⊎ (lookup k env ≡ none)))
unfolding load_env
load_env-applied table disk override none env k =
    load_files-Applies table disk override (default_env_files disk.join) env env []
      (Applies-start override env) k
load_env-applied table disk override (some paths) env k =
    load_files-Applies table disk override paths env env [] (Applies-start override env) k
