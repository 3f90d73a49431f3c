-- ===== src/AgentToAgent/Destinations.antt =====
-- Where an agent may send: `src/modules/agent-to-agent/db/agent-destinations.ts`.
use lfontes_nanoclaw.Prelude.{
  ◌===◌, if◌then◌else◌, any, select, first, delete, ℕ, String, Bool, true, false, ◌&&◌, ◌||◌,
  Option, none, some, List, [], ◌∷◌, ◌++◌,
}

pub data TargetType : Type 0 where
  channel agent : TargetType

abbrev pub target_eq : TargetType → TargetType → Bool
target_eq channel channel = true
target_eq agent agent = true
target_eq _ _ = false

pub record AgentDestination : Type 0 where
  pub agent_group_id : String
  pub local_name : String
  pub target_type : TargetType
  pub target_id : String
  pub created_at : ℕ

-- INSERT, under PRIMARY KEY (agent_group_id, local_name).
unfoldable pub create_destination :
    List AgentDestination → AgentDestination → Option (List AgentDestination)
create_destination rows row =
    if any
      (λ (d : AgentDestination).
        d.agent_group_id === row.agent_group_id && d.local_name === row.local_name)
      rows
    then none
    else some (rows ++ row ∷ [])

unfoldable pub get_destinations : List AgentDestination → String → List AgentDestination
get_destinations rows agent_group_id =
    select (λ (d : AgentDestination). d.agent_group_id === agent_group_id) rows

unfoldable pub get_destination_by_name :
    List AgentDestination → String → String → Option AgentDestination
get_destination_by_name rows agent_group_id local_name =
    first
      (λ (d : AgentDestination). d.agent_group_id === agent_group_id && d.local_name === local_name)
      rows

abbrev pub is_destination : String → TargetType → String → AgentDestination → Bool
is_destination agent_group_id target_type target_id d =
    d.agent_group_id === agent_group_id
    && target_eq d.target_type target_type
    && d.target_id === target_id

unfoldable pub get_destination_by_target :
    List AgentDestination → String → TargetType → String → Option AgentDestination
get_destination_by_target rows agent_group_id target_type target_id =
    first (is_destination agent_group_id target_type target_id) rows

unfoldable pub has_destination : List AgentDestination → String → TargetType → String → Bool
has_destination rows agent_group_id target_type target_id =
    any (is_destination agent_group_id target_type target_id) rows

unfoldable pub delete_destination : List AgentDestination → String → String → List AgentDestination
delete_destination rows agent_group_id local_name =
    delete
      (λ (d : AgentDestination). d.agent_group_id === agent_group_id && d.local_name === local_name)
      rows

unfoldable pub delete_all_destinations_touching :
    List AgentDestination → String → List AgentDestination
delete_all_destinations_touching rows agent_group_id =
    delete
      (λ (d : AgentDestination).
        d.agent_group_id === agent_group_id
        || (target_eq d.target_type agent && d.target_id === agent_group_id))
      rows
