-- ===== src/Senders/Answers.antt =====
-- The answers to the approval cards of unknown senders (`handleSenderApprovalResponse` of
-- `src/modules/permissions/index.ts`).
use lfontes_nanoclaw.Prelude.{
  ◌===◌, if◌then◌else◌, String, Bool, true, false, ◌||◌, Option, none, some,
}
use lfontes_nanoclaw.Permissions.{AgentGroupMember, Roster, has_admin_privilege, add_member}
use lfontes_nanoclaw.Router.State.{InboundEvent, RouterDb, Hooks, Env}
use lfontes_nanoclaw.Router.Inbound.{route_inbound}
use lfontes_nanoclaw.Senders.{
  PendingSenderApproval, Central, roster, SenderEnv, namespaced, get_pending_sender_approval,
  delete_pending_sender_approval,
}
use lfontes_nanoclaw.Senders.Gates.{with_gates}

pub record ResponsePayload : Type 0 where
  pub question_id : String
  pub value : String
  pub user_id : Option String
  pub channel_type : String

-- Whether the response is claimed, whether the handler threw, and the event to route again.
pub record CardAnswer : Type 0 where
  pub db : Central
  pub claimed : Bool
  pub threw : Bool
  pub replay : Option InboundEvent

unfoldable pub clicker_id : ResponsePayload → Option String
unfolding namespaced
clicker_id payload = elim payload.user_id [
  | none ↦ none
  | some u ↦ if u === "" then none else some (namespaced payload.channel_type u)
]

abbrev pub is_authorized : Central → PendingSenderApproval → String → Bool
is_authorized db row clicker =
    clicker === row.approver_user_id || has_admin_privilege (roster db) clicker row.agent_group_id

abbrev pub claimed_with : Central → Option InboundEvent → CardAnswer
claimed_with db replay = record { db = db; claimed = true; threw = false; replay = replay }

abbrev pub new_member : PendingSenderApproval → String → AgentGroupMember
new_member row approver = record {
  user_id = row.sender_identity;
  agent_group_id = row.agent_group_id;
  added_by = some approver;
}

abbrev pub with_members : Central → Roster → Central
with_members db r = record db { agent_group_members = r.agent_group_members }

-- The click of somebody who may decide.
unfoldable pub decide : SenderEnv → Central → PendingSenderApproval → String → String → CardAnswer
unfolding add_member delete_pending_sender_approval
decide env db row approver value =
    if value === "approve"
    then elim (add_member (roster db) (new_member row approver)) [
      | none ↦ record { db = db; claimed = true; threw = true; replay = none }
      | some r ↦
          claimed_with (delete_pending_sender_approval (with_members db r) row.id)
            (env.parse_event row.original_message)
    ]
    else claimed_with (delete_pending_sender_approval db row.id) none

unfoldable pub handle_sender_approval_response : SenderEnv → Central → ResponsePayload → CardAnswer
unfolding get_pending_sender_approval clicker_id has_admin_privilege decide
handle_sender_approval_response env db payload =
    elim (get_pending_sender_approval db payload.question_id) [
      | none ↦ record { db = db; claimed = false; threw = false; replay = none }
      | some row ↦ elim (clicker_id payload) [
        | none ↦ claimed_with db none
        | some clicker ↦
            if is_authorized db row clicker
            then decide env db row clicker payload.value
            else claimed_with db none
      ]
    ]

abbrev pub put_world : RouterDb Central → Central → RouterDb Central
put_world db central = record db { tables = record db.tables { world = central } }

abbrev pub replayed :
    Env → SenderEnv → Hooks Central → RouterDb Central → Option InboundEvent → RouterDb Central
replayed renv env hooks db none = db
replayed renv env hooks db (some event) = (route_inbound renv (with_gates env hooks) db event).db

-- The handler with its call of the router, whose exceptions it catches.
unfoldable pub answer_card :
    Env → SenderEnv → Hooks Central → RouterDb Central → ResponsePayload → RouterDb Central
unfolding handle_sender_approval_response route_inbound with_gates
answer_card renv env hooks db payload =
    let r = handle_sender_approval_response env db.tables.world payload in
    replayed renv env hooks (put_world db r.db) r.replay
