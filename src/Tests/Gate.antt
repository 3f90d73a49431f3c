-- ===== src/Tests/Gate.antt =====
-- Commands, roles and approvers at concrete inputs.
use lfontes_nanoclaw.Prelude.{
  ◌===◌, if◌then◌else◌, any, String, ◌≡◌, refl, true, ◌&&◌, Option, none, some, [], ◌∷◌, ◌++◌,
}
use lfontes_nanoclaw.Text.{
  json, content_text, starts_with, to_lower, codes, contains_text, is_space, trim_start, trim_end,
}
use lfontes_nanoclaw.Permissions.{
  UserRoleKind, owner, admin, UserRole, Roster, has_admin_privilege, has_user, is_member,
  is_allowed, can_access_agent_group, pick_approver,
}
use lfontes_nanoclaw.Permissions.Access.{IsExplained, can_access_agent_group-allowed}
use lfontes_nanoclaw.Permissions.Approvers.{NoRepeats, pick_approver-has_admin_privilege}
use lfontes_nanoclaw.Container.Commands.{is_clear_command}
use lfontes_nanoclaw.CommandGate.{pass, deny, command_of, gate_command}
use lfontes_nanoclaw.CommandGate.Laws.{clear_bypasses_gate, gate-admin_command}

abbrev role : String → UserRoleKind → Option String → UserRole
role user_id kind group = record {
  user_id = user_id;
  role = kind;
  agent_group_id = group;
  granted_by = none;
  granted_at = 0;
}

abbrev staff : Roster
staff = record {
  users = "slack:ann" ∷ "slack:bob" ∷ "slack:eve" ∷ [];
  agent_groups = "ag-1" ∷ [];
  user_roles = role "slack:ann" owner none ∷ role "slack:bob" admin (some "ag-1") ∷ [];
  agent_group_members = [];
}

clear_bypasses_gate_example :
    let content = json (some (codes "/clear" ++ 120 ∷ [])) in
    (gate_command (some []) content none "ag-1" ≡ pass) × (is_clear_command content ≡ true)
clear_bypasses_gate_example =
    clear_bypasses_gate (some []) none "ag-1" 120 [] (unfold is_space in refl)

gate-admin_command_example :
    gate_command
      (some staff.user_roles)
      (json (some (codes "/Compact now")))
      (some "slack:eve")
      "ag-1"
    ≡ (if has_admin_privilege staff "slack:eve" "ag-1"
        then pass
        else deny (command_of (content_text (json (some (codes "/Compact now"))))))
unfolding content_text starts_with trim_start trim_end contains_text to_lower command_of
gate-admin_command_example =
    gate-admin_command staff (json (some (codes "/Compact now"))) "slack:eve" "ag-1"
      (refl, (refl, tt)) refl refl refl

can_access_agent_group-allowed_example :
    (is_allowed (can_access_agent_group staff "slack:eve" "ag-1")
      ≡ (has_user staff "slack:eve" && is_member staff "slack:eve" "ag-1"))
    × IsExplained staff "slack:eve" "ag-1" (can_access_agent_group staff "slack:eve" "ag-1")
can_access_agent_group-allowed_example = can_access_agent_group-allowed staff "slack:eve" "ag-1"

pick_approver-has_admin_privilege_example :
    NoRepeats (pick_approver staff (some "ag-1"))
    × (any (λ a. a === "slack:bob") (pick_approver staff (some "ag-1"))
        ≡ has_admin_privilege staff "slack:bob" "ag-1")
pick_approver-has_admin_privilege_example =
    pick_approver-has_admin_privilege staff "ag-1" "slack:bob" refl

abbrev hired : Roster
hired = record staff { user_roles = staff.user_roles ++ role "slack:eve" admin (some "ag-1") ∷ [] }
