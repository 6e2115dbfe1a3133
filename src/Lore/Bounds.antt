-- ===== src/Lore/Bounds.antt =====
-- What ContextForProfile promises of the entries that it returns.
use agent_rd.Common.{
  zero, length-append, Dict, ℕ, ◌+◌, suc, String, true, false, ◌||◌, List, [], ◌∷◌, ◌++◌, map, ◌≡◌,
  ◌≢◌, refl, sym, ap, ◌∙◌, subst, ◌==◌, string_eq, length, leb, inl, inr, Bool-cases, Option-cases,
  All, Distinct, Distinct-append, arith, Float64,
}
use agent_rd.Domain.Value.{ℤ, pos, negsuc, Fields, string_from, NumberText}
use agent_rd.World.Snapshot.{get-set_field}
use agent_rd.Agent.Thinking.{is_listed}
use agent_rd.Lore.Text.{trim_summary}
use agent_rd.Lore.Pack.{LoreStore, lore_get}
use agent_rd.Lore.Context.{
  is_full, title_of, collect_topics, topics_for, first_told, first_entry, or_first,
  context_for_profile,
}

is_listed-append :
    (x y : String) (xs : List String) → is_listed x (xs ++ y ∷ []) ≡ (is_listed x xs || x == y)
unfolding is_listed
is_listed-append x y [] = ground arith
is_listed-append x y (z ∷ xs) = ground (arith, is_listed-append x y xs)

not_listed : (x : String) (ys : List String) → is_listed x ys ≡ false → All (λ y. x ≢ y) ys
unfolding is_listed
not_listed x [] h = tt
not_listed x (y ∷ ys) h =
    ((λ p. absurd (ground (arith, string_eq.decides x y))), not_listed x ys (ground arith))

map-append_one {ℓ κ} :
    {A : Type ℓ} {B : Type κ} (f : A → B) (xs : List A) (x : A)
    → map f (xs ++ x ∷ []) ≡ map f xs ++ f x ∷ []
map-append_one f [] x = refl
map-append_one f (y ∷ xs) x = ap (λ l. f y ∷ l) (map-append_one f xs x)

-- The most that a limit lets through; the first entry is told in any case.
abbrev pub at_most : ℤ → ℕ
at_most (pos (suc n)) = suc n
at_most _ = 1

full_at_most :
    (size : ℕ) (limit : ℤ) → is_full size limit ≡ false → leb (size + 1) (at_most limit) ≡ true
full_at_most size (pos zero) h = ground arith
full_at_most size (pos (suc n)) h = ground arith
full_at_most size (negsuc n) h = absurd (cc)

module _ {F : Type 0} ⦃o : Float64 F⦄ (numbers : NumberText F) (table : ℕ → ℕ) where
  title_of-trim_summary :
      (page : Fields F) (max_chars : ℤ)
      → title_of numbers table (trim_summary numbers page max_chars) ≡ title_of numbers table page
  unfolding trim_summary
  title_of-trim_summary page max_chars =
      ap (string_from numbers) (get-set_field "title" "summary" _ page)

  -- The results have distinct titles, which are those that were seen, and are not too many.
  record IsGathered (limit : ℤ) (results : List (Fields F)) (seen : List String) : Type 0 where
    bounded : leb (length results) (at_most limit) ≡ true
    distinct : Distinct (map (title_of numbers table) results)
    listed : (x : String) → is_listed x seen ≡ is_listed x (map (title_of numbers table) results)

  abbrev IsTold : ℤ → List (Fields F) → Type 0
  IsTold limit results =
      Distinct (map (title_of numbers table) results)
      × (leb (length results) (at_most limit) ≡ true)

  IsGathered-step :
      (limit max_chars : ℤ) (page : Fields F) (results : List (Fields F)) (seen : List String)
      → is_full (length results) limit ≡ false
      → is_listed (title_of numbers table page) seen ≡ false
      → IsGathered limit results seen
      → IsGathered limit
          (results ++ trim_summary numbers page max_chars ∷ [])
          (title_of numbers table page ∷ seen)
  unfolding is_listed
  IsGathered-step limit max_chars page results seen room fresh g =
      let titles = map (title_of numbers table) results in
      let title = title_of numbers table page in
      let last : map (title_of numbers table) (results ++ trim_summary numbers page max_chars ∷ [])
          ≡ titles ++ title ∷ [] =
        map-append_one (title_of numbers table) results _
        ∙ ap (λ t. titles ++ t ∷ []) (title_of-trim_summary page max_chars) in
      record {
        bounded =
            rw (length-append results (trim_summary numbers page max_chars ∷ []))
              (full_at_most (length results) limit room);
        distinct = subst Distinct (sym last) (
            Distinct-append titles title (not_listed title titles (sym (g.listed title) ∙ fresh))
              g.distinct);
        listed = λ x. rw last (ground (arith, is_listed-append x title titles, g.listed x));
      }

  collect_topics-IsTold :
      (s : LoreStore F) (limit max_chars : ℤ) (topics : List String) (results : List (Fields F))
      (seen : List String)
      → IsGathered limit results seen
      → IsTold limit (collect_topics numbers table s limit max_chars topics results seen)
  unfolding collect_topics
  collect_topics-IsTold s limit max_chars [] results seen g = (g.distinct, g.bounded)
  collect_topics-IsTold s limit max_chars (t ∷ topics) results seen g =
      elim (Bool-cases (is_full (length results) limit)) [
        | inl full ↦ rw full (g.distinct, g.bounded)
        | inr room ↦ rw room (elim (Option-cases (lore_get table s t)) [
          | inl n ↦ rw n (collect_topics-IsTold s limit max_chars topics results seen g)
          | inr (page, found) ↦
              rw found (elim (Bool-cases (is_listed (title_of numbers table page) seen)) [
                | inl old ↦ rw old (collect_topics-IsTold s limit max_chars topics results seen g)
                | inr fresh ↦ rw fresh (
                    collect_topics-IsTold s limit max_chars topics _ _
                      (IsGathered-step limit max_chars page results seen room fresh g))
              ])
        ])
      ]

  IsGathered-start : (limit : ℤ) → IsGathered limit [] []
  unfolding is_listed
  IsGathered-start limit = record { bounded = ground arith; distinct = tt; listed = λ x. refl }

  at_most-one : (limit : ℤ) → leb 1 (at_most limit) ≡ true
  at_most-one (pos zero) = refl
  at_most-one (pos (suc n)) = ground arith
  at_most-one (negsuc n) = refl

  first_told-IsTold :
      (limit max_chars : ℤ) (entries : Dict String (Fields F)) (order : List String)
      (otherwise : List (Fields F))
      → IsTold limit otherwise
      → IsTold limit (first_told numbers table max_chars entries order otherwise)
  first_told-IsTold limit max_chars entries [] otherwise h = h
  first_told-IsTold limit max_chars entries (k ∷ ks) otherwise h = ((tt, tt), at_most-one limit)

  first_entry-IsTold :
      (s : LoreStore F) (limit max_chars : ℤ) → IsTold limit (first_entry numbers table s max_chars)
  unfolding first_entry
  first_entry-IsTold s limit max_chars =
      first_told-IsTold limit max_chars s.pages.by_key s.pages.order _ (
        first_told-IsTold limit max_chars s.characters.by_key s.characters.order []
          (tt, ground arith))

  or_first-IsTold :
      (limit : ℤ) (results first : List (Fields F))
      → IsTold limit results
      → IsTold limit first
      → IsTold limit (or_first numbers table results first)
  or_first-IsTold limit [] first p q = q
  or_first-IsTold limit (r ∷ results) first p q = p

  -- The entries that ContextForProfile returns have distinct titles, and are no more than the limit, or
  -- than one where the limit is not positive.
  pub context_for_profile_lem :
      (s : LoreStore F) (profile world : Fields F) (limit max_chars : ℤ)
      → Distinct (
          map
            (title_of numbers table)
            (context_for_profile numbers table s profile world limit max_chars))
        × (leb
              (length (context_for_profile numbers table s profile world limit max_chars))
              (at_most limit)
            ≡ true)
  unfolding context_for_profile
  context_for_profile_lem s profile world limit max_chars =
      or_first-IsTold limit
        (collect_topics numbers table s limit max_chars (topics_for numbers table profile world) []
          [])
        (first_entry numbers table s max_chars)
        (collect_topics-IsTold s limit max_chars _ [] [] (IsGathered-start limit))
        (first_entry-IsTold s limit max_chars)
