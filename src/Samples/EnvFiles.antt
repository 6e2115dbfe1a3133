-- ===== src/Samples/EnvFiles.antt =====
-- Environment files: what is written into one and what is read out of it.
use agent_rd.Common.{
  arith, ℕ, true, false, none, some, List, [], ◌∷◌, ◌++◌, ◌≡◌, refl, inl, inr, ◌==◌, nat_eq,
  list_eq, ◌⊎◌, if◌then◌else◌, Dict, lookup, insert, erase, Distinct, keys,
}
use agent_rd.Eligibility.Gate.{codes, lower_rune, to_lower}
use agent_rd.Dotenv.Text.{
  is_line_boundary, is_space, is_stripped, strip_left, strip_right, py_strip, split_loop,
  split_lines, join_lines, is_key, unquoted, strip_wrapping_quotes,
}
use agent_rd.Dotenv.Parser.{
  scan_rune, scan_text, interpolate, cut, before_pair, strip_comment, without_prefix, key_value,
  parse_line, parse_lines, parse_env_text,
}
use agent_rd.Dotenv.Load.{
  nothing, content, Disk, set_env, project_resolve, resolve_path, apply_values, merge_values,
  load_env_file, load_files, load_env,
}
use agent_rd.Dotenv.Upsert.{
  entry_line, insert_entry, sort_entries, line_key, value_for, rewrite_lines, append_entries,
  upsert_env_text,
}
use agent_rd.Dotenv.Entry.{IsVerbatim}
use agent_rd.Dotenv.Rewrite.{IsOnce}
use agent_rd.Dotenv.RoundTrip.{lines_of, parse_env_text-upsert_env_text}
use agent_rd.Dotenv.Applied.{first_of, load_env-applied}

abbrev same_case : ℕ → ℕ
same_case c = c

abbrev no_env : List ℕ → List ℕ
no_env name = []

abbrev new_values : Dict (List ℕ) (List ℕ)
new_values = (codes "B", codes "7") ∷ (codes "A", codes "3 4") ∷ []

abbrev old_text : List ℕ
old_text = codes "# key" ++ 10 ∷ codes "export A='1'" ++ 10 ∷ []

upsert_keeps_comment :
    upsert_env_text same_case (some old_text) new_values
    ≡ codes "# key" ++ 10 ∷ codes "A=3 4" ++ 10 ∷ 10 ∷ codes "B=7" ++ 10 ∷ []
unfolding is_line_boundary is_space is_stripped strip_left strip_right py_strip split_loop
    split_lines cut lower_rune to_lower lookup entry_line insert_entry sort_entries line_key
    value_for rewrite_lines append_entries upsert_env_text join_lines erase
upsert_keeps_comment = refl

parse_quoted :
    parse_env_text same_case no_env (codes "A='x y' " ++ 10 ∷ codes "B=${A}! # no" ++ 10 ∷ [])
    ≡ (codes "A", codes "x y") ∷ (codes "B", codes "x y!") ∷ []
unfolding is_line_boundary is_space is_stripped strip_left strip_right py_strip split_loop
    split_lines is_key unquoted strip_wrapping_quotes scan_rune scan_text interpolate cut
    before_pair strip_comment without_prefix key_value parse_line parse_lines parse_env_text
    lower_rune to_lower lookup insert
parse_quoted = refl

-- The last line of a key wins, and only the first is written.
second_line_wins :
    lookup (codes "A") (
      parse_env_text same_case no_env (
        upsert_env_text same_case
          (some (codes "A=1" ++ 10 ∷ codes "A=2" ++ 10 ∷ []))
          ((codes "A", codes "3") ∷ [])))
    ≡ some (codes "2")
unfolding is_line_boundary is_space is_stripped strip_left strip_right py_strip split_loop
    split_lines is_key unquoted strip_wrapping_quotes scan_rune scan_text interpolate cut
    before_pair strip_comment without_prefix key_value parse_line parse_lines parse_env_text
    lower_rune to_lower lookup insert entry_line insert_entry sort_entries line_key value_for
    rewrite_lines append_entries upsert_env_text join_lines erase
second_line_wins = refl

seven-IsVerbatim : IsVerbatim (codes "7")
unfolding is_line_boundary strip_left is_stripped is_space strip_right strip_comment before_pair
    strip_wrapping_quotes
seven-IsVerbatim = record {
  one_line = (refl, tt);
  left = refl;
  right = refl;
  comment = refl;
  quotes = refl;
  plain = (refl, tt);
}

three_four-IsVerbatim : IsVerbatim (codes "3 4")
unfolding is_line_boundary strip_left is_stripped is_space strip_right strip_comment before_pair
    strip_wrapping_quotes
three_four-IsVerbatim = record {
  one_line = (refl, (refl, (refl, tt)));
  left = refl;
  right = refl;
  comment = refl;
  quotes = refl;
  plain = (refl, (refl, (refl, tt)));
}

A_is_key : is_key (codes "A") ≡ true
unfolding is_key
A_is_key = refl

B_is_key : is_key (codes "B") ≡ true
unfolding is_key
B_is_key = refl

comment_key : line_key same_case (codes "# key") ≡ []
unfolding line_key cut to_lower py_strip strip_left strip_right is_stripped is_space
comment_key = refl

export_key : line_key same_case (codes "export A='1'") ≡ codes "A"
unfolding line_key cut lower_rune to_lower py_strip strip_left strip_right is_stripped is_space
export_key = refl

old_lines : split_lines old_text ≡ codes "# key" ∷ codes "export A='1'" ∷ []
unfolding split_lines split_loop is_line_boundary
old_lines = refl

new_values-Distinct : Distinct (keys new_values)
new_values-Distinct = (((λ p. absurd (ground arith)), tt), (tt, tt))

new_value : lookup (codes "A") new_values ≡ some (codes "3 4")
unfolding lookup
new_value = refl

old_text-IsOnce :
    IsOnce same_case no_env
      (codes "A")
      (codes "3 4")
      (lines_of same_case no_env (codes "A") (codes "3 4") (some old_text))
old_text-IsOnce = rw old_lines (inr ((λ p. absurd (cc (comment_key))), inl (export_key, tt)))

parse_env_text-upsert_env_text_example :
    lookup
      (codes "A")
      (parse_env_text same_case no_env (upsert_env_text same_case (some old_text) new_values))
    ≡ some (codes "3 4")
parse_env_text-upsert_env_text_example =
    parse_env_text-upsert_env_text same_case no_env (codes "A") (codes "3 4") (some old_text)
      new_values ((B_is_key, seven-IsVerbatim), ((A_is_key, three_four-IsVerbatim), tt))
      new_values-Distinct new_value old_text-IsOnce

-- Two files, of which the first wins, over an environment that wins over both.
abbrev two_files : Disk
two_files = record {
  is_abs = λ p. false;
  join = λ a b. a ++ b;
  root = [];
  find = λ p.
      if p == codes ".env"
      then content (codes "A=1" ++ 10 ∷ codes "B=${C}" ++ 10 ∷ [])
      else if p == codes ".env.local"
      then content (codes "B=4")
      else nothing;
}

abbrev shell : Dict (List ℕ) (List ℕ)
shell = (codes "A", codes "0") ∷ (codes "C", codes "5") ∷ []

first_file_wins : load_env same_case two_files false none shell ≡ record {
  env = (codes "A", codes "0") ∷ (codes "C", codes "5") ∷ (codes "B", codes "5") ∷ [];
  applied = (codes "B", codes "5") ∷ [];
  failed = false;
}
unfolding is_line_boundary is_space is_stripped strip_left strip_right py_strip split_loop
    split_lines is_key unquoted strip_wrapping_quotes scan_rune scan_text interpolate cut
    before_pair strip_comment without_prefix key_value parse_line parse_lines parse_env_text
    lower_rune to_lower lookup insert set_env project_resolve resolve_path apply_values merge_values
    load_env_file load_files load_env
first_file_wins = refl

load_env-applied_example :
    (lookup (codes "A") (load_env same_case two_files false none shell).env
      ≡ first_of
          (lookup (codes "A") (load_env same_case two_files false none shell).applied)
          (lookup (codes "A") shell))
    × ((false ≡ true)
        ⊎ ((lookup (codes "A") (load_env same_case two_files false none shell).applied ≡ none)
            ⊎ (lookup (codes "A") shell ≡ none)))
load_env-applied_example = load_env-applied same_case two_files false none shell (codes "A")
