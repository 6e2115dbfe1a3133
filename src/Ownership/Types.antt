-- ===== src/Ownership/Types.antt =====
-- States and transitions of runtime-go/internal/state/ownership.go.
use agent_rd.Common.{ℕ, String, Bool, Option, none, some, nat_beq, if◌then◌else◌, ◌&&◌, ◌||◌}

pub data State : Type 0 where
  rockstar candidate aware ai_active ai_conversation quest_dialogue suspended release : State

-- The wire name, which is the Go constant's string.
unfoldable pub state_name : State → String
state_name rockstar = "ROCKSTAR"
state_name candidate = "CANDIDATE"
state_name aware = "AWARE"
state_name ai_active = "AI_ACTIVE"
state_name ai_conversation = "AI_CONVERSATION"
state_name quest_dialogue = "QUEST_DIALOGUE"
state_name suspended = "SUSPENDED"
state_name release = "RELEASE"

abbrev pub index : State → ℕ
index rockstar = 0
index candidate = 1
index aware = 2
index ai_active = 3
index ai_conversation = 4
index quest_dialogue = 5
index suspended = 6
index release = 7

-- `==` on states.
infix 50 ◌is◌
abbrev pub ◌is◌ : State → State → Bool
s is t = nat_beq (index s) (index t)

pub record Transition (F : Type 0) : Type 0 where
  pub npc_id : String
  pub from : State
  pub to : State
  pub reason : String
  pub timestamp : F

-- `(string, bool)`: `none` where the source returns `"", false`.
unfoldable pub event_name_of : State → State → Option String
event_name_of from to =
    if from is suspended
    then some "AGENT_RESUMED"
    else if to is quest_dialogue
    then some "QUEST_DIALOGUE_ENTERED"
    else if to is suspended
    then some "AGENT_SUSPENDED"
    else if to is release
    then some "NPC_RELEASED"
    else if to is ai_active && (from is candidate || from is aware)
    then some "NPC_ACTIVATED"
    else none

module _ {F : Type 0} where
  unfoldable pub event_name : Transition F → Option String
  unfolding event_name_of
  event_name t = event_name_of t.from t.to
