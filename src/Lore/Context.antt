-- ===== src/Lore/Context.antt =====
-- ContextForProfile and ContextForProfileWithWorld of lore.go.
use agent_rd.Common.{
  ℕ, String, Bool, true, none, some, List, [], ◌∷◌, ◌++◌, ◌==◌, string_eq, if◌then◌else◌, length,
  leb, Dict, Float64,
}
use agent_rd.Domain.Value.{
  ℤ, pos, negsuc, Value, Fields, str, strings, arr, obj, get, string_from, strings_of_items,
  NumberText,
}
use agent_rd.Agent.Thinking.{is_listed}
use agent_rd.Lore.Text.{py_trim, or_empty_text, trim_summary}
use agent_rd.Lore.Pack.{LoreStore, lore_get, fields_at}

abbrev unless_empty : String → List String
unless_empty s = if s == "" then [] else s ∷ []

-- len(results) >= limit
abbrev pub is_full : ℕ → ℤ → Bool
is_full size (pos n) = leb n size
is_full size (negsuc n) = true

module _ {F : Type 0} ⦃o : Float64 F⦄ (numbers : NumberText F) (table : ℕ → ℕ) where
  abbrev topics_field : Value F → List String
  topics_field (str s) = unless_empty s
  topics_field (arr xs) = strings_of_items numbers xs
  topics_field (strings ss) = ss
  topics_field _ = []

  abbrev world_region : Value F → List String
  world_region (obj location) = unless_empty (or_empty_text numbers (get "region" location))
  world_region _ = []

  abbrev profile_text : Fields F → String → List String
  profile_text profile k = unless_empty (py_trim (or_empty_text numbers (get k profile)))

  -- The topics of a profile and a world state.
  unfoldable pub topics_for : Fields F → Fields F → List String
  topics_for profile world =
      let topics =
        profile_text profile "wiki_character"
        ++ profile_text profile "character"
        ++ profile_text profile "name"
        ++ topics_field (get "wiki_topics" profile)
        ++ profile_text profile "region"
        ++ world_region (get "location" world) in
      elim topics [ [] ↦ "Red Dead Redemption 2" ∷ [] | t ∷ ts ↦ t ∷ ts ]

  abbrev pub title_of : Fields F → String
  title_of page = string_from numbers (get "title" page)

  -- The loop over the topics, with the results and the titles seen so far.
  unfoldable pub collect_topics :
      LoreStore F → ℤ → ℤ → List String → List (Fields F) → List String → List (Fields F)
  collect_topics s limit max_chars [] results seen = results
  collect_topics s limit max_chars (t ∷ topics) results seen =
      let skipped = collect_topics s limit max_chars topics results seen in
      if is_full (length results) limit then results else elim (lore_get table s t) [
        | none ↦ skipped
        | some page ↦
            let taken =
              collect_topics s limit max_chars topics
                (results ++ trim_summary numbers page max_chars ∷ []) (title_of page ∷ seen) in
            if is_listed (title_of page) seen then skipped else taken
      ]

  abbrev pub first_told :
      ℤ → Dict String (Fields F) → List String → List (Fields F) → List (Fields F)
  first_told max_chars entries [] otherwise = otherwise
  first_told max_chars entries (k ∷ ks) otherwise =
      trim_summary numbers (fields_at numbers table k entries) max_chars ∷ []

  -- What is told where no topic matches: the first page, or the first character.
  unfoldable pub first_entry : LoreStore F → ℤ → List (Fields F)
  first_entry s max_chars =
      first_told max_chars s.pages.by_key s.pages.order
        (first_told max_chars s.characters.by_key s.characters.order [])

  abbrev pub or_first : List (Fields F) → List (Fields F) → List (Fields F)
  or_first [] first = first
  or_first (r ∷ results) first = r ∷ results

  -- ContextForProfileWithWorld; ContextForProfile has the empty world.
  unfoldable pub context_for_profile : LoreStore F → Fields F → Fields F → ℤ → ℤ → List (Fields F)
  context_for_profile s profile world limit max_chars =
      or_first (collect_topics s limit max_chars (topics_for profile world) [] [])
        (first_entry s max_chars)
