-- ===== src/Samples/Gates.antt =====
-- A ped and a blacklist for the gate of eligibility.go, and a pattern for its matcher.
use agent_rd.Common.{
  ℕ, String, true, false, none, some, List, [], ◌∷◌, ◌≡◌, refl, ◌↔◌, Distinct, lookup, insert,
  string_eq, list_eq,
}
use agent_rd.Domain.Value.{done}
use agent_rd.Domain.Ped.{PedSnapshot}
use agent_rd.Eligibility.Glob.{glob_match, find_close, class_loop}
use agent_rd.Eligibility.Glob.Tokens.{Matches, tokens}
use agent_rd.Eligibility.Glob.Correct.{glob_match_iff}
use agent_rd.Eligibility.Gate.{
  Gate, Category, codes, new_blacklist, to_lower, can_activate, contains_reason, dedupe_reasons,
}
use agent_rd.Eligibility.Gate.FailClosed.{IsCleared, eligible_iff}
use agent_rd.Eligibility.Gate.Reasons.{first_seen, dedupe_reasons_lem}

abbrev same_rune : ℕ → ℕ
same_rune c = c

abbrev gang : Category
gang = record { category_models = codes "CS_*" ∷ []; category_names = codes "*morgan*" ∷ [] }

abbrev gate : Gate
gate = record { blacklist = some (new_blacklist same_rune (gang ∷ [])); block_if_uncertain = true }

abbrev townsman : PedSnapshot ℕ
townsman = record {
  entity_id = "ped_1";
  model = "A_M_M_Town";
  name = "Townsman";
  is_ped = some true;
  is_human = some true;
  is_alive = some true;
  is_player = some false;
  is_story_character = some false;
  is_mission_owned = some false;
  in_scripted_state = some false;
  in_cutscene = some false;
  blacklisted = some false;
  distance_m = some 5000;
  visible = true;
  health = none;
  metadata = done;
}

townsman_eligible : (can_activate same_rune gate townsman).eligible ≡ true
unfolding can_activate new_blacklist glob_match to_lower lookup insert
townsman_eligible = refl

outlaw_reasons :
    (can_activate same_rune gate
      (record townsman { name = "Arthur Morgan"; in_cutscene = none })).eligible
    ≡ false
unfolding can_activate new_blacklist glob_match to_lower lookup insert
outlaw_reasons = refl

-- The gate finds the townsman eligible, so all that it must know holds of him.
eligible_iff_example :
    ((can_activate same_rune gate townsman).eligible ≡ true)
    ↔ IsCleared same_rune gate.blacklist townsman
eligible_iff_example = eligible_iff same_rune gate townsman

glob_match_iff_example :
    (glob_match (codes "cs_micah") (codes "cs_[a-m]*") ≡ true)
    ↔ Matches (tokens (codes "cs_[a-m]*")) (codes "cs_micah")
glob_match_iff_example = glob_match_iff (codes "cs_micah") (codes "cs_[a-m]*")

micah_matches : glob_match (codes "cs_micah") (codes "cs_[a-m]*") ≡ true
unfolding glob_match lookup insert find_close class_loop
micah_matches = refl

abbrev repeated : List String
repeated = "not_human" ∷ "in_cutscene" ∷ "not_human" ∷ []

dedupe_reasons_lem_example :
    (dedupe_reasons repeated ≡ first_seen repeated)
    × Distinct (dedupe_reasons repeated)
    × ((x : String) → contains_reason (dedupe_reasons repeated) x ≡ contains_reason repeated x)
dedupe_reasons_lem_example = dedupe_reasons_lem repeated
