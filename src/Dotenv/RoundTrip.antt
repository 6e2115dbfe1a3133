-- ===== src/Dotenv/RoundTrip.antt =====
-- What UpsertEnvFile writes, as ParseEnvText reads it.
use agent_rd.Common.{
  ℕ, Bool, true, false, Option, none, some, List, [], ◌∷◌, ◌++◌, map, ◌≡◌, refl, ◌⊎◌, inl, inr,
  nat_eq, list_eq, if◌then◌else◌, All, All-append, Distinct, Dict, keys, lookup,
}
use agent_rd.Eligibility.Gate.{to_lower}
use agent_rd.Dotenv.Text.{strip_left, strip_right, py_strip, split_lines}
use agent_rd.Dotenv.Parser.{cut, without_prefix, key_value, parse_env_text, parse_lines}
use agent_rd.Dotenv.Upsert.{
  entry_line, sort_entries, rewrite_lines, ends_blank, append_entries, written, upsert_env_text,
}
use agent_rd.Dotenv.Lines.{
  IsOneLine, split_lines-join_lines, split_lines-IsOneLine, Misses, Final, parse_lines-Final,
  Final-append, append-Final,
}
use agent_rd.Dotenv.Entry.{entry_line-IsOneLine}
use agent_rd.Dotenv.Entries.{
  IsWritable, IsFor, All-sort_entries, lookup-All, Agrees-entries, Final-sorted, entries-IsFor,
}
use agent_rd.Dotenv.Rewrite.{
  IsOnce, rewrite_lines-IsFor, rewrite_lines-IsOneLine, rewrite_lines-Final,
}

nothing_of : (table : ℕ → ℕ) → key_value table [] ≡ none
unfolding key_value py_strip strip_left strip_right without_prefix to_lower cut
nothing_of table = refl

nothing-Misses : (table : ℕ → ℕ) (k : List ℕ) → Misses table k []
nothing-Misses table k v e = absurd (cc (nothing_of table))

module _ (table : ℕ → ℕ) (getenv : List ℕ → List ℕ) (k v : List ℕ) where
  append_entries-Final :
      (output : List (List ℕ)) (left : Dict (List ℕ) (List ℕ))
      → All (IsFor k v) left
      → Final table getenv k v output ⊎ (lookup k left ≡ some v)
      → Final table getenv k v (append_entries table output left)
  unfolding append_entries
  append_entries-Final output [] h (inl f) = f
  append_entries-Final output [] h (inr e) = absurd (unfold lookup in cc)
  append_entries-Final output (e ∷ m) h (inr g) =
      append-Final table getenv k v _ _ (Final-sorted table getenv k v (e ∷ m) h g)
  append_entries-Final output (e ∷ m) h (inl f) =
      Final-append table getenv k v _ _ (blank (ends_blank table output))
        (Agrees-entries table getenv k v _ (All-sort_entries (IsFor k v) (e ∷ m) h))
    where
      blank : (b : Bool) → Final table getenv k v (if b then output else output ++ [] ∷ [])
      blank true = f
      blank false =
          Final-append table getenv k v output ([] ∷ []) f (inl (nothing-Misses table k), tt)

  append_entries-IsOneLine :
      (output : List (List ℕ)) (left : Dict (List ℕ) (List ℕ))
      → All (IsFor k v) left
      → All IsOneLine output
      → All IsOneLine (append_entries table output left)
  unfolding append_entries
  append_entries-IsOneLine output [] h s = s
  append_entries-IsOneLine output (e ∷ m) h s =
      All-append IsOneLine _ _ (blank (ends_blank table output))
        (entries (sort_entries (e ∷ m)) (All-sort_entries (IsFor k v) (e ∷ m) h))
    where
      blank : (b : Bool) → All IsOneLine (if b then output else output ++ [] ∷ [])
      blank true = s
      blank false = All-append IsOneLine output ([] ∷ []) s (tt, tt)

      entries : (x : Dict (List ℕ) (List ℕ)) → All (IsFor k v) x → All IsOneLine (map entry_line x)
      entries [] p = tt
      entries (f ∷ x) p = (entry_line-IsOneLine table f.0 f.1 p.0.0.0 p.0.0.1, entries x p.1)

  written-Final :
      (ls : List (List ℕ))
      → All IsOneLine ls
      → Final table getenv k v ls
      → lookup k (parse_lines table getenv [] (split_lines (written ls))) ≡ some v
  written-Final [] h f = elim f [ ]
  written-Final (l ∷ ls) h f =
      rw (split_lines-join_lines (l ∷ ls) h) (parse_lines-Final table getenv k v (l ∷ ls) [] f)

  -- The lines of the file before.
  abbrev pub lines_of : Option (List ℕ) → List (List ℕ)
  lines_of none = []
  lines_of (some text) = split_lines text

  lines_of-IsOneLine : (file : Option (List ℕ)) → All IsOneLine (lines_of file)
  lines_of-IsOneLine none = tt
  lines_of-IsOneLine (some text) = split_lines-IsOneLine text

  -- Where every entry's key is an identifier and its value stands in a line as it is, and behind the
  -- first line of the file that is for a key no line sets that key, parsing what UpsertEnvFile writes
  -- gives the key its entry's value.
  pub parse_env_text-upsert_env_text :
      (file : Option (List ℕ)) (values : Dict (List ℕ) (List ℕ))
      → All IsWritable values
      → Distinct (keys values)
      → lookup k values ≡ some v
      → IsOnce table getenv k v (lines_of file)
      → lookup k (parse_env_text table getenv (upsert_env_text table file values)) ≡ some v
  unfolding parse_env_text upsert_env_text
  parse_env_text-upsert_env_text file values w d e once =
      let old = lines_of file in
      let ours = entries-IsFor table getenv k v values w d e in
      let output = (rewrite_lines table values old).0 in
      let left = (rewrite_lines table values old).1 in
      let left_ours = rewrite_lines-IsFor table getenv k v values old ours in
      let f =
        rewrite_lines-Final table getenv k v values old (lookup-All IsWritable k v values w e) ours
          e once in
      written-Final (append_entries table output left)
        (append_entries-IsOneLine output left left_ours
          (rewrite_lines-IsOneLine table getenv k v values old ours (lines_of-IsOneLine file)))
        (append_entries-Final output left left_ours f)
