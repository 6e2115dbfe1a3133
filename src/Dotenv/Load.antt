-- ===== src/Dotenv/Load.antt =====
-- LoadEnvFile and LoadEnv, with the process environment as a map, resolvePath and DefaultEnvFiles. The
-- disk, filepath and project.Root are the record Disk.
use agent_rd.Common.{
  ℕ, Bool, true, false, not, ◌&&◌, ◌||◌, Option, none, some, List, [], ◌∷◌, nat_beq, nat_eq,
  list_eq, if◌then◌else◌, Dict, lookup, insert,
}
use agent_rd.Dotenv.Parser.{parse_env_text}
use agent_rd.Dotenv.Upsert.{is_blank}

-- What a path names: os.Stat fails, a directory, a file that os.ReadFile fails on, or a text as
-- strings.ToValidUTF8 leaves it.
pub data Found : Type 0 where
  nothing directory unreadable : Found
  content : List ℕ → Found

pub record Disk : Type 0 where
  pub is_abs : List ℕ → Bool
  pub join : List ℕ → List ℕ → List ℕ
  pub root : List ℕ
  pub find : List ℕ → Found

abbrev pub Environment : Type 0
Environment = Dict (List ℕ) (List ℕ)

-- What a load leaves: the environment, the pairs that were applied, and whether it failed.
pub record Loaded : Type 0 where
  pub env : Environment
  pub applied : Dict (List ℕ) (List ℕ)
  pub failed : Bool

abbrev pub default_env_files : (List ℕ → List ℕ → List ℕ) → List (List ℕ)
default_env_files join =
    (b'.' ∷ b'e' ∷ b'n' ∷ b'v' ∷ [])
    ∷ (b'.' ∷ b'e' ∷ b'n' ∷ b'v' ∷ b'.' ∷ b'l' ∷ b'o' ∷ b'c' ∷ b'a' ∷ b'l' ∷ [])
    ∷ join (b'c' ∷ b'o' ∷ b'n' ∷ b'f' ∷ b'i' ∷ b'g' ∷ [])
        (b'l' ∷ b'o' ∷ b'c' ∷ b'a' ∷ b'l' ∷ b'.' ∷ b'e' ∷ b'n' ∷ b'v' ∷ [])
    ∷ []

abbrev has : ℕ → List ℕ → Bool
has c [] = false
has c (d ∷ s) = nat_beq d c || has c s

-- os.Setenv refuses a key that is empty or has a `=` or a NUL, and a value that has a NUL.
unfoldable pub set_env : List ℕ → List ℕ → Environment → Option Environment
set_env key value env =
    if is_blank key || (has b'=' key || (has 0 key || has 0 value))
    then none
    else some (insert key value env)

abbrev pub is_set : Option (List ℕ) → Bool
is_set none = false
is_set (some v) = true

-- os.Getenv
abbrev pub getenv_of : Environment → List ℕ → List ℕ
getenv_of env name = elim (lookup name env) [ none ↦ [] | some v ↦ v ]

-- project.Resolve
unfoldable pub project_resolve : Disk → List ℕ → List ℕ
project_resolve disk path =
    if is_blank path then [] else if disk.is_abs path then path else disk.join disk.root path

abbrev pub exists_at : Found → Bool
exists_at nothing = false
exists_at directory = true
exists_at unreadable = true
exists_at (content text) = true

unfoldable pub resolve_path : Disk → List ℕ → List ℕ
resolve_path disk path =
    if is_blank path || disk.is_abs path
    then path
    else if exists_at (disk.find (project_resolve disk path))
    then project_resolve disk path
    else path

-- The loop of LoadEnvFile over the values that were parsed.
unfoldable pub apply_values :
    Bool → Dict (List ℕ) (List ℕ) → Environment → Dict (List ℕ) (List ℕ) → Loaded
apply_values override [] env applied = record { env = env; applied = applied; failed = false }
apply_values override ((k, v) ∷ values) env applied =
    if not override && is_set (lookup k env)
    then apply_values override values env applied
    else elim (set_env k v env) [
      | none ↦ record { env = env; applied = applied; failed = true }
      | some env' ↦ apply_values override values env' (insert k v applied)
    ]

-- LoadEnv copies the pairs of one file over the ones before.
unfoldable pub merge_values :
    Dict (List ℕ) (List ℕ) → Dict (List ℕ) (List ℕ) → Dict (List ℕ) (List ℕ)
merge_values [] applied = applied
merge_values ((k, v) ∷ values) applied = insert k v (merge_values values applied)

module _ (table : ℕ → ℕ) (disk : Disk) (override : Bool) where
  abbrev pub load_found : Found → Environment → Loaded
  load_found nothing env = record { env = env; applied = []; failed = false }
  load_found directory env = record { env = env; applied = []; failed = false }
  load_found unreadable env = record { env = env; applied = []; failed = true }
  load_found (content text) env =
      apply_values override (parse_env_text table (getenv_of env) text) env []

  -- LoadEnvFile
  unfoldable pub load_env_file : List ℕ → Environment → Loaded
  load_env_file path env = load_found (disk.find (resolve_path disk path)) env

  -- The loop of LoadEnv over the files.
  unfoldable pub load_files : List (List ℕ) → Environment → Dict (List ℕ) (List ℕ) → Loaded
  load_files [] env applied = record { env = env; applied = applied; failed = false }
  load_files (path ∷ paths) env applied =
      let file = load_env_file path env in
      let so_far = merge_values file.applied applied in
      let rest = load_files paths file.env so_far in
      if file.failed then record { env = file.env; applied = so_far; failed = true } else rest

  -- LoadEnv; `none` is a nil argument.
  unfoldable pub load_env : Option (List (List ℕ)) → Environment → Loaded
  load_env none env = load_files (default_env_files disk.join) env []
  load_env (some paths) env = load_files paths env []
