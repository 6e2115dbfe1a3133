-- ===== src/Dotenv/Upsert.antt =====
-- UpsertEnvFile, on the text of the file.
use agent_rd.Common.{
  ℕ, Bool, true, false, Option, none, some, List, [], ◌∷◌, ◌++◌, map, nat_eq, list_eq,
  if◌then◌else◌, Dict, lookup, erase, drop,
}
use agent_rd.Eligibility.Gate.{to_lower}
use agent_rd.Agent.Thinking.{prefix_runes}
use agent_rd.Events.Readers.{runes_le}
use agent_rd.Dotenv.Text.{py_strip, split_lines, join_lines}
use agent_rd.Dotenv.Parser.{cut, export_prefix}

abbrev pub is_blank : List ℕ → Bool
is_blank [] = true
is_blank (c ∷ s) = false

unfoldable pub entry_line : List ℕ × List ℕ → List ℕ
entry_line (k, v) = k ++ b'=' ∷ v

-- sort.Strings on the keys, with their values
unfoldable pub insert_entry : List ℕ × List ℕ → Dict (List ℕ) (List ℕ) → Dict (List ℕ) (List ℕ)
insert_entry e [] = e ∷ []
insert_entry e (f ∷ m) = if runes_le e.0 f.0 then e ∷ f ∷ m else f ∷ insert_entry e m

unfoldable pub sort_entries : Dict (List ℕ) (List ℕ) → Dict (List ℕ) (List ℕ)
sort_entries [] = []
sort_entries (e ∷ m) = insert_entry e (sort_entries m)

-- What is written for the lines; strings.Join of none is "".
abbrev pub written : List (List ℕ) → List ℕ
written [] = b'\n' ∷ []
written (l ∷ ls) = join_lines (l ∷ ls)

module _ (table : ℕ → ℕ) where
  -- The key of a line, "" where there is none.
  unfoldable pub line_key : List ℕ → List ℕ
  line_key raw =
      let stripped = py_strip raw in
      let body =
        if prefix_runes export_prefix (to_lower table stripped)
        then py_strip (drop 7 stripped)
        else stripped in
      elim (cut body) [ none ↦ [] | some (k, v) ↦ py_strip k ]

  -- The value for a line's key, where it is still to be written.
  unfoldable pub value_for : Dict (List ℕ) (List ℕ) → List ℕ → Option (List ℕ)
  value_for remaining key = if is_blank key then none else lookup key remaining

  -- The loop over the lines of the file: the new lines and the entries that are left.
  unfoldable pub rewrite_lines :
      Dict (List ℕ) (List ℕ) → List (List ℕ) → List (List ℕ) × Dict (List ℕ) (List ℕ)
  rewrite_lines remaining [] = ([], remaining)
  rewrite_lines remaining (l ∷ ls) =
      let (same, left) = rewrite_lines remaining ls in
      let (rest, left') = rewrite_lines (erase (line_key l) remaining) ls in
      elim (value_for remaining (line_key l)) [
        | none ↦ (l ∷ same, left)
        | some v ↦ (entry_line (line_key l, v) ∷ rest, left')
      ]

  abbrev pub ends_blank : List (List ℕ) → Bool
  ends_blank [] = true
  ends_blank (l ∷ []) = is_blank (py_strip l)
  ends_blank (l ∷ m ∷ ls) = ends_blank (m ∷ ls)

  -- The entries at the end, behind a blank line.
  unfoldable pub append_entries : List (List ℕ) → Dict (List ℕ) (List ℕ) → List (List ℕ)
  append_entries output [] = output
  append_entries output (e ∷ m) =
      (if ends_blank output then output else output ++ [] ∷ [])
      ++ map entry_line (sort_entries (e ∷ m))

  -- UpsertEnvFile; `none` is a file that does not exist.
  unfoldable pub upsert_env_text : Option (List ℕ) → Dict (List ℕ) (List ℕ) → List ℕ
  upsert_env_text file values =
      let old : List (List ℕ) = elim file [ none ↦ [] | some text ↦ split_lines text ] in
      let (output, left) = rewrite_lines values old in written (append_entries output left)
