-- ===== src/Dotenv/Entries.antt =====
-- The entries that UpsertEnvFile is called with, and their lines in order.
use agent_rd.Common.{
  ℕ, true, some, List, [], ◌∷◌, map, ◌≡◌, ◌≢◌, refl, sym, ◌∙◌, subst, ◌⊎◌, inl, inr, decided, apart,
  ◌==◌, nat_eq, list_eq, All, Distinct, Dict, keys, lookup, erase, Bool-cases,
}
use agent_rd.Events.Readers.{runes_le}
use agent_rd.Dotenv.Text.{is_key}
use agent_rd.Dotenv.Upsert.{entry_line, insert_entry, sort_entries}
use agent_rd.Dotenv.Lines.{Sets, Agrees, Final, here, there}
use agent_rd.Dotenv.Entry.{IsVerbatim, entry_line-Sets, entry_line-Misses}

-- An entry that can be written as a line.
abbrev pub IsWritable : List ℕ × List ℕ → Type 0
IsWritable e = (is_key e.0 ≡ true) × IsVerbatim e.1

-- An entry that, if it is for this key, has this value.
abbrev pub IsFor : List ℕ → List ℕ → List ℕ × List ℕ → Type 0
IsFor k v e = IsWritable e × ((e.0 ≢ k) ⊎ (e ≡ (k, v)))

pub All-erase :
    (P : List ℕ × List ℕ → Type 0) (k : List ℕ) (m : Dict (List ℕ) (List ℕ))
    → All P m
    → All P (erase k m)
unfolding erase
All-erase P k [] h = tt
All-erase P k ((j, w) ∷ m) h = elim (Bool-cases (k == j)) [
  | inl t ↦ rw t h.1
  | inr f ↦ rw f (h.0, All-erase P k m h.1)
]

All-insert_entry :
    (P : List ℕ × List ℕ → Type 0) (e : List ℕ × List ℕ) (m : Dict (List ℕ) (List ℕ))
    → P e
    → All P m
    → All P (insert_entry e m)
unfolding insert_entry
All-insert_entry P e [] p h = (p, tt)
All-insert_entry P e (f ∷ m) p h = elim (Bool-cases (runes_le e.0 f.0)) [
  | inl t ↦ rw t (p, h)
  | inr u ↦ rw u (h.0, All-insert_entry P e m p h.1)
]

pub All-sort_entries :
    (P : List ℕ × List ℕ → Type 0) (m : Dict (List ℕ) (List ℕ)) → All P m → All P (sort_entries m)
unfolding sort_entries
All-sort_entries P [] h = tt
All-sort_entries P (e ∷ m) h = All-insert_entry P e _ h.0 (All-sort_entries P m h.1)

pub lookup-All :
    (P : List ℕ × List ℕ → Type 0) (k v : List ℕ) (m : Dict (List ℕ) (List ℕ))
    → All P m
    → lookup k m ≡ some v
    → P (k, v)
unfolding lookup
lookup-All P k v [] h e = absurd (cc)
lookup-All P k v ((j, w) ∷ m) h e = elim (Bool-cases (k == j)) [
  | inl t ↦
      let found : some w ≡ some v = sym (rw (t, lookup) refl) ∙ e in
      let same : w ≡ v = cc in
      subst (λ i. P (i, v)) (sym (decided k j t)) (subst (λ x. P (j, x)) same h.0)
  | inr f ↦ lookup-All P k v m h.1 (sym (rw (f, lookup) refl) ∙ e)
]

module _ (table : ℕ → ℕ) (getenv : List ℕ → List ℕ) (k v : List ℕ) where
  pub entry_line-Agrees :
      (e : List ℕ × List ℕ) → IsFor k v e → Agrees table getenv k v (entry_line e)
  entry_line-Agrees (j, w) (writable, inl other) =
      inl (entry_line-Misses table k j w writable.0 writable.1 other)
  entry_line-Agrees (j, w) (writable, inr same) = inr (
      subst (λ e. Sets table getenv e.0 e.1 (entry_line (j, w))) same
        (entry_line-Sets table getenv j w writable.0 writable.1))

  pub Agrees-entries :
      (m : Dict (List ℕ) (List ℕ))
      → All (IsFor k v) m
      → All (Agrees table getenv k v) (map entry_line m)
  Agrees-entries [] h = tt
  Agrees-entries (e ∷ m) h = (entry_line-Agrees e h.0, Agrees-entries m h.1)

  Final-insert_hit :
      (e : List ℕ × List ℕ) (m : Dict (List ℕ) (List ℕ))
      → Sets table getenv k v (entry_line e)
      → All (IsFor k v) m
      → Final table getenv k v (map entry_line (insert_entry e m))
  unfolding insert_entry
  Final-insert_hit e [] s h = here (entry_line e) [] s tt
  Final-insert_hit e (f ∷ m) s h = elim (Bool-cases (runes_le e.0 f.0)) [
    | inl t ↦ rw t (here (entry_line e) (map entry_line (f ∷ m)) s (Agrees-entries (f ∷ m) h))
    | inr u ↦ rw u (there (entry_line f) _ (Final-insert_hit e m s h.1))
  ]

  Final-insert :
      (e : List ℕ × List ℕ) (m : Dict (List ℕ) (List ℕ))
      → IsFor k v e
      → All (IsFor k v) m
      → Final table getenv k v (map entry_line m)
      → Final table getenv k v (map entry_line (insert_entry e m))
  unfolding insert_entry
  Final-insert e [] p h x = elim x [ ]
  Final-insert e (f ∷ m) p h x = elim (Bool-cases (runes_le e.0 f.0)) [
    | inl t ↦ rw t (there (entry_line e) (map entry_line (f ∷ m)) x)
    | inr u ↦ rw u (elim x [
      | here _ _ s g ↦
          here (entry_line f) _ s (Agrees-entries _ (All-insert_entry (IsFor k v) e m p h.1))
      | there _ _ y ↦ there (entry_line f) _ (Final-insert e m p h.1 y)
    ])
  ]

  -- Lines that are appended and hold the entry.
  pub Final-sorted :
      (m : Dict (List ℕ) (List ℕ))
      → All (IsFor k v) m
      → lookup k m ≡ some v
      → Final table getenv k v (map entry_line (sort_entries m))
  unfolding sort_entries lookup
  Final-sorted [] h e = absurd (cc)
  Final-sorted ((j, w) ∷ m) h e =
      let sorted = All-sort_entries (IsFor k v) m h.1 in
      elim (Bool-cases (k == j)) [
        | inl t ↦
            let found : some w ≡ some v = sym (rw (t, lookup) refl) ∙ e in
            let same : w ≡ v = cc in
            let sets =
              subst (λ i. Sets table getenv i v (entry_line (j, w))) (sym (decided k j t))
                (subst (λ x. Sets table getenv j x (entry_line (j, w))) same
                  (entry_line-Sets table getenv j w h.0.0.0 h.0.0.1)) in
            Final-insert_hit (j, w) (sort_entries m) sets sorted
        | inr f ↦
            Final-insert (j, w) (sort_entries m) h.0 sorted
              (Final-sorted m h.1 (sym (rw (f, lookup) refl) ∙ e))
      ]

  others-IsFor :
      (m : Dict (List ℕ) (List ℕ))
      → All IsWritable m
      → All (λ j. k ≢ j) (keys m)
      → All (IsFor k v) m
  others-IsFor [] h n = tt
  others-IsFor (e ∷ m) h n = ((h.0, inl (λ p. n.0 (sym p))), others-IsFor m h.1 n.1)

  pub entries-IsFor :
      (m : Dict (List ℕ) (List ℕ))
      → All IsWritable m
      → Distinct (keys m)
      → lookup k m ≡ some v
      → All (IsFor k v) m
  unfolding lookup
  entries-IsFor [] h d e = tt
  entries-IsFor ((j, w) ∷ m) h d e = elim (Bool-cases (k == j)) [
    | inl t ↦
        let found : some w ≡ some v = sym (rw (t, lookup) refl) ∙ e in
        let value : w ≡ v = cc in
        let key = decided k j t in
        let same : (j, w) ≡ (k, v) = rw (key, value) refl in
        ((h.0, inr same), others-IsFor m h.1 (subst (λ i. All (λ y. i ≢ y) (keys m)) (sym key) d.0))
    | inr f ↦ (
      (h.0, inl (λ p. apart k j f (sym p))),
      entries-IsFor m h.1 d.1 (sym (rw (f, lookup) refl) ∙ e),
    )
  ]
