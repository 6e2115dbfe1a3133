-- ===== src/Samples/Quests.antt =====
-- A quest directory, and the context that an NPC of it speaks from.
use agent_rd.Common.{
  ℕ, String, Bool, false, ◌&&◌, List, [], ◌∷◌, ◌≡◌, refl, string_eq, nat_eq, nat_beq, list_eq,
  if◌then◌else◌, leb, ◌+◌, lookup, insert, milli_float,
}
use Prim.Native.String.{◌++◌ as str_append}
use agent_rd.Domain.Value.{Value, Fields, null, str, obj, done, field, get, has, string_from}
use agent_rd.World.{set_field}
use agent_rd.Lore.Quest.{
  QuestFile, Quests, trim_suffix, behind_last, before_last, without_trailing, file_stem,
  present_state_value, override_with, load_quests, quest_like, get_quest, quest_map,
  quest_or_neutral, quest_context,
}
use agent_rd.Samples.{milli_numbers}

-- Case folding on ASCII, and the slash.
abbrev fold_ascii : ℕ → ℕ
fold_ascii c = if leb b'A' c && leb c b'Z' then c + 32 else c

abbrev is_slash : ℕ → Bool
is_slash c = nat_beq c b'/'

abbrev in_quests : String → String
in_quests name = str_append "data/quests/" name

abbrev debt : Fields ℕ
debt = field "quest_id" (str "Debt") (field "location" (str "Valentine") done)

abbrev directory : List (QuestFile ℕ)
directory =
    record { name = "a.json"; is_dir = false; content = obj debt }
    ∷ record { name = "b.txt"; is_dir = false; content = obj debt }
    ∷ record { name = "c.json"; is_dir = false; content = obj done }
    ∷ record { name = "d.json"; is_dir = false; content = null }
    ∷ []

abbrev loaded_quests : Quests ℕ
loaded_quests = load_quests milli_numbers in_quests directory (record { quests = []; order = [] })

two_quests : loaded_quests.order ≡ "Debt" ∷ "c" ∷ []
unfolding load_quests trim_suffix insert lookup string_from get has set_field
two_quests = refl

abbrev location_found : String → Value ℕ
location_found quest_id =
    get "location" (quest_or_neutral milli_numbers fold_ascii is_slash loaded_quests quest_id)

found_by_stem : location_found "a" ≡ str "Valentine"
unfolding load_quests trim_suffix insert lookup string_from get has set_field get_quest quest_like
    file_stem without_trailing behind_last before_last
found_by_stem = refl

found_by_fold : location_found "dEBT" ≡ str "Valentine"
unfolding load_quests trim_suffix insert lookup string_from get has set_field get_quest quest_like
    file_stem without_trailing behind_last before_last
found_by_fold = refl

abbrev moved : Fields ℕ
moved = field "location" (str "Strawberry") (field "title" (str "ignored") done)

moved_location :
    get "location" (quest_context milli_numbers fold_ascii is_slash loaded_quests "Debt" moved)
    ≡ str "Strawberry"
unfolding quest_context override_with present_state_value quest_map load_quests trim_suffix insert
    lookup string_from get has set_field get_quest
moved_location = refl
