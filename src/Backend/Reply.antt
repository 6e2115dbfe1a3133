-- ===== src/Backend/Reply.antt =====
-- What the rule backend answers to a speech: ruleReplyTo of runtime-go/internal/backend/rule.go.
use agent_rd.Common.{
  ℕ, String, Bool, true, false, ◌&&◌, ◌||◌, Option, none, some, List, [], ◌∷◌, if◌then◌else◌,
}
use agent_rd.Eligibility.Gate.{codes, to_lower}
use agent_rd.Dotenv.Text.{is_space}
use agent_rd.Agent.Thinking.{contains_runes}

unfoldable pub contains_any : List String → List ℕ → Bool
contains_any [] text = false
contains_any (w ∷ words) text = contains_runes (codes w) text || contains_any words text

-- strings.TrimSpace(text) == ""
unfoldable pub is_all_space : List ℕ → Bool
is_all_space [] = true
is_all_space (c ∷ s) = is_space c && is_all_space s

-- ruleReplyTo
unfoldable pub rule_reply_to : (ℕ → ℕ) → String → Option String
rule_reply_to table transcript =
    let text = to_lower table (codes transcript) in
    if is_all_space text
    then none
    else if contains_any ("where" ∷ "headed" ∷ "going" ∷ []) text
    then some "Valentine, if I keep moving."
    else if contains_any ("hello" ∷ "hey" ∷ "evening" ∷ "morning" ∷ "howdy" ∷ []) text
    then some "Evening."
    else if contains_any ("thank" ∷ []) text
    then some "Don't mention it."
    else if contains_any ("help" ∷ []) text
    then some "I have my own troubles."
    else if contains_any ("your name" ∷ "who are you" ∷ []) text
    then some "Nobody important."
    else some "Hmph."
