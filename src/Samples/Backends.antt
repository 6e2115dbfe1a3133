-- ===== src/Samples/Backends.antt =====
-- A frightened NPC that is attacked, and what the rule backend decides for it.
use agent_rd.Common.{◌≢◌, ℕ, true, none, some, [], ◌∷◌, ◌≡◌, refl, string_eq, All, milli_float}
use agent_rd.Domain.Value.{
  strings, Fields, num, str, done, field, get, has, map_from, float_from, string_from,
}
use agent_rd.Eligibility.Gate.{lower_rune, to_lower}
use agent_rd.Dotenv.Text.{is_space}
use agent_rd.Agent.Thinking.{contains_runes}
use agent_rd.Agent.Guardrails.{AgentDecision, at_player, is_attack, apply_behavior_guardrails}
use agent_rd.Agent.Reasoning.{AgentContext}
use agent_rd.Backend.Reply.{contains_any, is_all_space, rule_reply_to}
use agent_rd.Backend.Rule.{
  rule_event_name, rule_find_recent, on_threat, rule_trait, rule_ladder, latest_event,
}
use agent_rd.Backend.Rule.Kept.{IsKept, rule_ladder-AllKept}
use agent_rd.Backend.Rule.Reacts.{apply_behavior_guardrails-rule_ladder}
use agent_rd.Samples.{milli_numbers}
use agent_rd.Samples.Json.{one_event_env}
use agent_rd.Samples.Files.{empty_store}
use agent_rd.Samples.Normals.{same_text}
use agent_rd.Samples.Reactions.{coward, attacked, stroll}

abbrev same_letter : ℕ → ℕ
same_letter c = c

abbrev no_rolls : ℕ → ℕ
no_rolls n = 0

abbrev attack : Fields ℕ
attack = field "event_name" (str "PLAYER_ATTACKED_NPC") done

abbrev frightened : AgentContext ℕ
frightened = record {
  npc_id = "ped_1";
  profile = coward;
  world_state = done;
  current_goal = none;
  current_mood = "";
  recent_events = attack ∷ [];
  wiki_context = [];
  quest_context = done;
  available_tools = [];
  flags = attacked;
}

abbrev choice : AgentDecision ℕ
choice = (rule_ladder milli_numbers same_letter 0 no_rolls frightened 0).0

frightened_flees : choice.actions ≡ at_player "flee_from" ∷ []
unfolding rule_ladder rule_find_recent rule_event_name rule_trait on_threat get has map_from
    float_from
frightened_flees = refl

reply_hello : rule_reply_to same_letter "Hey, mister" ≡ some "Evening."
unfolding rule_reply_to contains_any contains_runes is_all_space is_space to_lower lower_rune
reply_hello = refl

threat_found : rule_find_recent is_attack frightened.recent_events ≡ true
unfolding rule_find_recent rule_event_name get
threat_found = refl

courage_given : get "courage" (map_from (get "personality" frightened.profile)) ≡ num 200
unfolding get map_from
courage_given = refl

attack_triggers :
    is_attack (
      string_from milli_numbers
        (get "event_name" (map_from (get "trigger_event" frightened.flags))))
    ≡ true
unfolding get map_from string_from
attack_triggers = refl

no_position : get "position" (map_from (get "data" (latest_event frightened))) ≢ strings []
unfolding latest_event get map_from
no_position p = absurd (cc)

rule_ladder-AllKept_example :
    All (IsKept one_event_env same_text "ped_1" stroll empty_store) choice.actions
rule_ladder-AllKept_example =
    rule_ladder-AllKept one_event_env same_text "ped_1" stroll empty_store milli_numbers same_letter
      0 no_rolls frightened 0 no_position

apply_behavior_guardrails-rule_ladder_example :
    apply_behavior_guardrails milli_numbers same_text coward attacked choice ≡ choice
apply_behavior_guardrails-rule_ladder_example =
    apply_behavior_guardrails-rule_ladder milli_numbers same_text same_letter 0 no_rolls frightened
      0 200 courage_given threat_found attack_triggers
