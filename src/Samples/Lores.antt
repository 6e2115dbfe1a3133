-- ===== src/Samples/Lores.antt =====
-- A pack of two pages and a character, and what a gunslinger is told of it.
use agent_rd.Common.{
  ℕ, true, [], ◌∷◌, map, ◌≡◌, refl, string_eq, length, leb, Distinct, lookup, insert, milli_float,
}
use agent_rd.Domain.Value.{pos, Fields, null, str, obj, done, field, get, has, string_from}
use agent_rd.World.{set_field}
use agent_rd.Eligibility.Gate.{lower_rune, to_lower}
use agent_rd.Dotenv.Text.{is_space, is_stripped}
use agent_rd.Agent.Thinking.{is_listed, contains_runes}
use agent_rd.Lore.Text.{
  trim_left, trim_right, py_trim, first_runes, py_slice, py_slice_runes, or_empty_text,
  trim_summary,
}
use agent_rd.Lore.Pack.{
  PackFile, LoreStore, load_entries, load, title_lookup, title_containing, entry_of, lore_get,
  collect, insert_match, sort_matches, lore_lookup,
}
use agent_rd.Lore.Context.{title_of, topics_for, collect_topics, first_entry, context_for_profile}
use agent_rd.Lore.Bounds.{at_most, context_for_profile_lem}
use agent_rd.Samples.{milli_numbers}

abbrev plain_letter : ℕ → ℕ
plain_letter c = c

abbrev world_pack : PackFile ℕ
world_pack = record {
  meta = null;
  entries =
      ("Valentine", obj (field "summary" (str " A livestock town. ") done))
      ∷ ("broken", null)
      ∷ ("Strawberry", obj (field "summary" (str "Dry.") done))
      ∷ [];
}

abbrev character_pack : PackFile ℕ
character_pack = record {
  meta = null;
  entries = ("Micah Bell", obj (field "summary" (str "A gunslinger of Strawberry.") done)) ∷ [];
}

abbrev packs : LoreStore ℕ
packs = load world_pack character_pack

abbrev gunslinger : Fields ℕ
gunslinger =
    field "name" (str "micah")
      (field "wiki_topics" (str "Micah Bell") (field "region" (str " VALENTINE") done))

two_are_told :
    map
      (title_of milli_numbers plain_letter)
      (context_for_profile milli_numbers plain_letter packs gunslinger done (pos 5) (pos 6))
    ≡ "Micah Bell" ∷ "Valentine" ∷ []
unfolding context_for_profile topics_for collect_topics first_entry load load_entries lore_get
    entry_of title_lookup title_containing contains_runes to_lower lower_rune py_trim trim_left
    trim_right is_stripped is_space trim_summary py_slice_runes first_runes or_empty_text get has
    set_field insert lookup string_from is_listed
two_are_told = refl

title_before_summary :
    map
      (title_of milli_numbers plain_letter)
      (lore_lookup milli_numbers plain_letter packs "strawberry" (pos 5) (pos 6))
    ≡ "Strawberry" ∷ "Micah Bell" ∷ []
unfolding lore_lookup collect sort_matches insert_match py_slice load load_entries contains_runes
    to_lower lower_rune py_trim trim_left trim_right is_stripped is_space trim_summary
    py_slice_runes first_runes or_empty_text get has set_field insert lookup string_from
title_before_summary = refl

context_for_profile_lem_example :
    Distinct (
      map
        (title_of milli_numbers plain_letter)
        (context_for_profile milli_numbers plain_letter packs gunslinger done (pos 5) (pos 6)))
    × (leb
          (length
            (context_for_profile milli_numbers plain_letter packs gunslinger done (pos 5) (pos 6)))
          (at_most (pos 5))
        ≡ true)
context_for_profile_lem_example =
    context_for_profile_lem milli_numbers plain_letter packs gunslinger done (pos 5) (pos 6)
