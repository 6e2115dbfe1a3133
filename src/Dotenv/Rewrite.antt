-- ===== src/Dotenv/Rewrite.antt =====
-- The loop of UpsertEnvFile over the lines of the file.
use agent_rd.Common.{
  ℕ, true, some, List, [], ◌∷◌, ◌≡◌, ◌≢◌, sym, ◌∙◌, subst, ◌⊎◌, inl, inr, nat_eq, list_eq, All,
  Dict, lookup, erase, Option-cases,
}
use agent_rd.Common.Ordered.{lookup-erase_ne}
use agent_rd.Dotenv.Text.{is_key}
use agent_rd.Dotenv.Upsert.{entry_line, line_key, value_for, rewrite_lines}
use agent_rd.Dotenv.Lines.{IsOneLine, Misses, Sets, Agrees, Final, here, there}
use agent_rd.Dotenv.Entry.{entry_line-IsOneLine, entry_line-Sets}
use agent_rd.Dotenv.Entries.{IsWritable, IsFor, All-erase, lookup-All, entry_line-Agrees}

module _ (table : ℕ → ℕ) (getenv : List ℕ → List ℕ) (k v : List ℕ) where
  -- At most one line of the file, by the first of its keys, is for this key.
  abbrev pub IsOnce : List (List ℕ) → Type 0
  IsOnce [] = Unit
  IsOnce (l ∷ ls) =
      ((line_key table l ≡ k) × All (Misses table k) ls) ⊎ ((line_key table l ≢ k) × IsOnce ls)

  value_for-lookup :
      (m : Dict (List ℕ) (List ℕ)) (key w : List ℕ)
      → value_for table m key ≡ some w
      → lookup key m ≡ some w
  unfolding value_for
  value_for-lookup m [] w h = absurd (cc)
  value_for-lookup m (c ∷ key) w h = h

  lookup-value_for :
      (m : Dict (List ℕ) (List ℕ)) (key w : List ℕ)
      → is_key key ≡ true
      → lookup key m ≡ some w
      → value_for table m key ≡ some w
  unfolding value_for is_key
  lookup-value_for m [] w h e = absurd (cc)
  lookup-value_for m (c ∷ key) w h e = e

  pub rewrite_lines-IsFor :
      (m : Dict (List ℕ) (List ℕ)) (ls : List (List ℕ))
      → All (IsFor k v) m
      → All (IsFor k v) (rewrite_lines table m ls).1
  unfolding rewrite_lines
  rewrite_lines-IsFor m [] h = h
  rewrite_lines-IsFor m (l ∷ ls) h = elim (Option-cases (value_for table m (line_key table l))) [
    | inl n ↦ rw (n, rewrite_lines) (rewrite_lines-IsFor m ls h)
    | inr (w, e) ↦
        rw (e, rewrite_lines)
          (rewrite_lines-IsFor (erase (line_key table l) m) ls (All-erase (IsFor k v) _ m h))
  ]

  rewrite_lines-Agrees :
      (m : Dict (List ℕ) (List ℕ)) (ls : List (List ℕ))
      → All (IsFor k v) m
      → All (Misses table k) ls
      → All (Agrees table getenv k v) (rewrite_lines table m ls).0
  unfolding rewrite_lines
  rewrite_lines-Agrees m [] h s = tt
  rewrite_lines-Agrees m (l ∷ ls) h s = elim (Option-cases (value_for table m (line_key table l))) [
    | inl n ↦ rw (n, rewrite_lines) (inl s.0, rewrite_lines-Agrees m ls h s.1)
    | inr (w, e) ↦
        let key = line_key table l in
        rw (e, rewrite_lines)
          (
            entry_line-Agrees table getenv k v (key, w)
                (lookup-All (IsFor k v) key w m h (value_for-lookup m key w e)),
            rewrite_lines-Agrees (erase key m) ls (All-erase (IsFor k v) key m h) s.1,
          )
  ]

  pub rewrite_lines-IsOneLine :
      (m : Dict (List ℕ) (List ℕ)) (ls : List (List ℕ))
      → All (IsFor k v) m
      → All IsOneLine ls
      → All IsOneLine (rewrite_lines table m ls).0
  unfolding rewrite_lines
  rewrite_lines-IsOneLine m [] h s = tt
  rewrite_lines-IsOneLine m (l ∷ ls) h s =
      elim (Option-cases (value_for table m (line_key table l))) [
        | inl n ↦ rw (n, rewrite_lines) (s.0, rewrite_lines-IsOneLine m ls h s.1)
        | inr (w, e) ↦
            let key = line_key table l in
            let for_it = lookup-All (IsFor k v) key w m h (value_for-lookup m key w e) in
            rw (e, rewrite_lines)
              (
                entry_line-IsOneLine table key w for_it.0.0 for_it.0.1,
                rewrite_lines-IsOneLine (erase key m) ls (All-erase (IsFor k v) key m h) s.1,
              )
      ]

  pub rewrite_lines-Final :
      (m : Dict (List ℕ) (List ℕ)) (ls : List (List ℕ))
      → IsWritable (k, v)
      → All (IsFor k v) m
      → lookup k m ≡ some v
      → IsOnce ls
      → Final table getenv k v (rewrite_lines table m ls).0
        ⊎ (lookup k (rewrite_lines table m ls).1 ≡ some v)
  unfolding rewrite_lines
  rewrite_lines-Final m [] w h e once = inr e
  rewrite_lines-Final m (l ∷ ls) w h e (inl (same, rest)) =
      let found =
        subst (λ key. value_for table m key ≡ some v) (sym same) (lookup-value_for m k v w.0 e) in
      rw (found, rewrite_lines)
        (inl (
          here _ _
            (subst (λ key. Sets table getenv k v (entry_line (key, v))) (sym same)
              (entry_line-Sets table getenv k v w.0 w.1))
            (rewrite_lines-Agrees (erase (line_key table l) m) ls (All-erase (IsFor k v) _ m h)
              rest)))
  rewrite_lines-Final m (l ∷ ls) w h e (inr (other, once)) =
      let key = line_key table l in
      let later : (x : List ℕ) (y : List (List ℕ) × Dict (List ℕ) (List ℕ))
          → Final table getenv k v y.0 ⊎ (lookup k y.1 ≡ some v)
          → Final table getenv k v (x ∷ y.0) ⊎ (lookup k y.1 ≡ some v) =
        λ x y z. elim z [ inl f ↦ inl (there x y.0 f) | inr g ↦ inr g ] in
      elim (Option-cases (value_for table m key)) [
        | inl n ↦ rw (n, rewrite_lines) (later l _ (rewrite_lines-Final m ls w h e once))
        | inr (u, found) ↦
            rw (found, rewrite_lines)
              (later _ _ (
                rewrite_lines-Final (erase key m) ls w (All-erase (IsFor k v) key m h)
                  (lookup-erase_ne k key m (λ p. other (sym p)) ∙ e) once))
      ]
