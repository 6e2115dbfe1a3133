-- ===== src/Domain/Ped.antt =====
-- PedSnapshot of runtime-go/internal/domain/world.go, read from a bridge payload.
use agent_rd.Common.{String, Bool, Option, string_eq, Float64}
use agent_rd.Domain.Value.{
  Fields, NumberText, get, map_from, bool_ptr_from, bool_from, string_from, float_ptr_from,
}

-- A `*bool` is an Option: `none` means that the bridge did not provide a reliable value.
pub record PedSnapshot (F : Type 0) : Type 0 where
  pub entity_id : String
  pub model : String
  pub name : String
  pub is_ped : Option Bool
  pub is_human : Option Bool
  pub is_alive : Option Bool
  pub is_player : Option Bool
  pub is_story_character : Option Bool
  pub is_mission_owned : Option Bool
  pub in_scripted_state : Option Bool
  pub in_cutscene : Option Bool
  pub blacklisted : Option Bool
  pub distance_m : Option F
  pub visible : Bool
  pub health : Option F
  pub metadata : Fields F

module _ {F : Type 0} ⦃o : Float64 F⦄ (numbers : NumberText F) where
  -- PedSnapshotFromMap
  unfoldable pub ped_from_map : Fields F → PedSnapshot F
  unfolding string_from bool_ptr_from bool_from float_ptr_from map_from
  ped_from_map m = record {
    entity_id = string_from numbers (get "entity_id" m);
    model = string_from numbers (get "model" m);
    name = string_from numbers (get "name" m);
    is_ped = bool_ptr_from (get "is_ped" m);
    is_human = bool_ptr_from (get "is_human" m);
    is_alive = bool_ptr_from (get "is_alive" m);
    is_player = bool_ptr_from (get "is_player" m);
    is_story_character = bool_ptr_from (get "is_story_character" m);
    is_mission_owned = bool_ptr_from (get "is_mission_owned" m);
    in_scripted_state = bool_ptr_from (get "in_scripted_state" m);
    in_cutscene = bool_ptr_from (get "in_cutscene" m);
    blacklisted = bool_ptr_from (get "blacklisted" m);
    distance_m = float_ptr_from numbers (get "distance_m" m);
    visible = bool_from (get "visible" m);
    health = float_ptr_from numbers (get "health" m);
    metadata = map_from (get "metadata" m);
  }
