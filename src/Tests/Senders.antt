-- ===== src/Tests/Senders.antt =====
-- An unknown sender on a chat that asks for approvals, and the answer to the card.
use lfontes_nanoclaw.Prelude.{
  select, first, order_by, ◌≡◌, refl, true, false, none, some, [], ◌∷◌, map,
}
use lfontes_nanoclaw.Permissions.{
  is_member, is_owner, is_global_admin, is_admin_of_agent_group, add_approvers, get_owners,
  add_approver, get_global_admins, get_admins_of_agent_group, UserRole, owner, has_user,
  has_agent_group, has_membership_row,
}
use lfontes_nanoclaw.Router.State.{request_approval, MessagingGroup, RouterDb, Hooks}
use lfontes_nanoclaw.Sessions.{
  resolve_session, existing_session, find_session_for_agent, create_session,
}
use lfontes_nanoclaw.Router.Deliver.{effective_session_mode, message_id_for_agent}
use lfontes_nanoclaw.CommandGate.{gate_command}
use lfontes_nanoclaw.Router.Inbound.{fan_out, route_inbound}
use lfontes_nanoclaw.Router.WakeRows.{wake_rows}
use lfontes_nanoclaw.SessionDb.{MessageIn, insert_message, add_row}
use lfontes_nanoclaw.Senders.{
  Card, Central, PendingSenderApproval, SenderContent, SenderEnv, get_pending_sender_approval,
}
use lfontes_nanoclaw.Senders.Gates.{sender_of, with_gates, access_gate}
use lfontes_nanoclaw.Senders.Answers.{
  clicker_id, ResponsePayload, handle_sender_approval_response, answer_card, put_world,
}
use lfontes_nanoclaw.Senders.Outsiders.{fan_out-keeps_out}
use lfontes_nanoclaw.Senders.Approved.{IsApproved, response-IsApproved}
use lfontes_nanoclaw.Senders.Admitted.{response-admits}
use lfontes_nanoclaw.Tests.Router.{env, group_chat, hello, wiring}

abbrev from_eve : SenderContent
from_eve = record {
  sender_id = none;
  sender = none;
  sender_name = some "Eve";
  author_user_id = some "eve";
  author_full_name = none;
  author_user_name = none;
}

abbrev sender_env : SenderEnv
sender_env = record {
  parse_sender = λ c. some from_eve;
  stringify_event = λ e. "{}";
  parse_event = λ s. some hello;
  get_channel_adapter = λ c. some (record { open_dm = none });
  has_delivery_adapter = true;
  approval_options = "[]";
  messaging_group_id = λ u. "mg-dm";
  approval_id = "nsa-1";
  now = 2000;
}

abbrev hooks : Hooks Central
hooks = record {
  message_interceptor = none;
  sender_resolver = none;
  access_gate = none;
  sender_scope_gate = none;
  has_channel_request_gate = true;
}

abbrev ada_owns : UserRole
ada_owns = record {
  user_id = "slack:ada";
  role = owner;
  agent_group_id = none;
  granted_by = none;
  granted_at = 1;
}

abbrev asking_chat : MessagingGroup
asking_chat = record group_chat { unknown_sender_policy = request_approval }

abbrev central : Central
central = record {
  users = record { id = "slack:ada"; kind = "slack"; display_name = none } ∷ [];
  agent_groups = "ag-1" ∷ [];
  user_roles = ada_owns ∷ [];
  agent_group_members = [];
  messaging_groups = asking_chat ∷ [];
  user_dms = [];
  pending_sender_approvals = [];
  cards = [];
}

abbrev db : RouterDb Central
db = record {
  messaging_groups = asking_chat ∷ [];
  messaging_group_agents = wiring ∷ [];
  agent_groups = "ag-1" ∷ [];
  user_roles = some (ada_owns ∷ []);
  sessions = [];
  inboxes = [];
  tables = record { unregistered_senders = []; world = central };
  effects = [];
}

fan_out-keeps_out_example :
    wake_rows "ag-1" (fan_out env (with_gates sender_env hooks) db asking_chat hello).db.inboxes
    ≡ wake_rows "ag-1" db.inboxes
unfolding sender_of is_member is_owner is_global_admin is_admin_of_agent_group has_membership_row
fan_out-keeps_out_example =
    fan_out-keeps_out env sender_env hooks db asking_chat hello "ag-1" refl refl

-- The tables after the message of Eve, with the card for Ada.
abbrev asked : RouterDb Central
asked = (fan_out env (with_gates sender_env hooks) db asking_chat hello).db

-- Ada gets one card, in her direct messages.
ada_is_asked : map (λ (c : Card). c.platform_id) asked.tables.world.cards ≡ "ada" ∷ []
unfolding fan_out with_gates order_by select first has_user is_member add_approvers get_owners
    add_approver get_global_admins get_admins_of_agent_group has_agent_group has_membership_row
    is_owner is_global_admin is_admin_of_agent_group
ada_is_asked = refl

abbrev click : ResponsePayload
click = record {
  question_id = "nsa-1";
  value = "approve";
  user_id = some "ada";
  channel_type = "slack";
}

-- The message of Eve comes through after the approval.
eve_is_heard :
    map
      (λ (m : MessageIn). m.id)
      (wake_rows "ag-1" (answer_card env sender_env hooks asked click).inboxes)
    ≡ "m-1:ag-1" ∷ []
unfolding fan_out with_gates order_by select first has_user is_member add_approvers get_owners
    add_approver get_global_admins get_admins_of_agent_group has_agent_group has_membership_row
    answer_card wake_rows resolve_session existing_session effective_session_mode
    find_session_for_agent create_session gate_command insert_message add_row message_id_for_agent
eve_is_heard = refl

response-IsApproved_example : IsApproved asked.tables.world click "slack:eve" "ag-1"
unfolding fan_out with_gates order_by select first has_user is_member add_approvers get_owners
    add_approver get_global_admins get_admins_of_agent_group has_agent_group has_membership_row
    handle_sender_approval_response
response-IsApproved_example =
    response-IsApproved sender_env asked.tables.world click "slack:eve" "ag-1" refl refl

-- The card of Eve as a row.
abbrev eve_asks : PendingSenderApproval
eve_asks = record {
  id = "nsa-1";
  messaging_group_id = "mg-1";
  agent_group_id = "ag-1";
  sender_identity = "slack:eve";
  sender_name = none;
  original_message = "{}";
  approver_user_id = "slack:ada";
  created_at = 2000;
  title = "👤 New sender";
  options_json = "[]";
}

abbrev approved : Central
approved = (handle_sender_approval_response sender_env asked.tables.world click).db

response-admits_example :
    ((handle_sender_approval_response sender_env asked.tables.world click).threw ≡ false)
    × (get_pending_sender_approval approved "nsa-1" ≡ none)
    × (answer_card env sender_env hooks asked click
        ≡ (route_inbound env (with_gates sender_env hooks) (put_world asked approved) hello).db)
    × (access_gate sender_env
          (record { unregistered_senders = []; world = approved })
          hello
          (some "slack:eve")
          asking_chat
          "ag-1"
        ≡ (record { unregistered_senders = []; world = approved }, true))
unfolding fan_out with_gates order_by select first has_user is_member add_approvers get_owners
    add_approver get_global_admins get_admins_of_agent_group has_agent_group has_membership_row
    is_owner is_global_admin is_admin_of_agent_group clicker_id
response-admits_example =
    response-admits env sender_env hooks asked click eve_asks "slack:ada" hello hello
      (record { unregistered_senders = []; world = approved }) asking_chat refl refl refl refl refl
      refl refl refl
