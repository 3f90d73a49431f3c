-- ===== src/Senders/Admitted.antt =====
-- After an approval the gate lets the sender through (`handleSenderApprovalResponse` and the access
-- gate of `src/modules/permissions/index.ts`).
use lfontes_nanoclaw.Prelude.{
  ◌===◌, ===_refl, Bool-cases, Option-cases, delete_fails, first-none_of, String, ◌≡◌, refl, ap,
  ◌∙◌, inl, inr, true, false, ◌&&◌, none, some, arith,
}
use lfontes_nanoclaw.Permissions.{
  AgentGroupMember, Roster, has_user, has_agent_group, has_membership_row, is_member, add_member,
  is_allowed, can_access_agent_group, is_owner, is_global_admin, is_admin_of_agent_group,
  is_user_or_null,
}
use lfontes_nanoclaw.Permissions.Access.{add_member-some, can_access-add_member}
use lfontes_nanoclaw.Router.State.{MessagingGroup, InboundEvent, Tables, RouterDb, Hooks, Env}
use lfontes_nanoclaw.Router.Inbound.{route_inbound}
use lfontes_nanoclaw.Senders.{
  PendingSenderApproval, Central, roster, SenderEnv, get_pending_sender_approval,
  delete_pending_sender_approval,
}
use lfontes_nanoclaw.Senders.Gates.{with_gates, access_gate, is_public}
use lfontes_nanoclaw.Senders.Answers.{
  ResponsePayload, CardAnswer, clicker_id, is_authorized, with_members, decide, new_member,
  handle_sender_approval_response, claimed_with, put_world, replayed, answer_card,
}
use lfontes_nanoclaw.Senders.Approved.{response-decides}

throws :
    (r : Roster) (row : AgentGroupMember)
    → has_membership_row r row.user_id row.agent_group_id ≡ false
    → add_member r row ≡ none
    → (has_user r row.user_id
        && has_agent_group r row.agent_group_id
        && is_user_or_null r row.added_by)
      ≡ false
unfolding add_member
throws r row m n = ground arith

add_member-throws :
    (r : Roster) (row : AgentGroupMember) (adder : String)
    → row.added_by ≡ some adder
    → add_member r row ≡ none
    → (has_user r row.user_id && has_agent_group r row.agent_group_id && has_user r adder) ≡ false
unfolding add_member
add_member-throws r row adder e n =
    elim (Bool-cases (has_membership_row r row.user_id row.agent_group_id)) [
      | inl m ↦ ground arith
      | inr m ↦ ground (arith, throws r row m n, ap (is_user_or_null r) e)
    ]

-- A member whose foreign keys name something is inserted.
add_member-succeeds :
    (r : Roster) (row : AgentGroupMember) (adder : String)
    → row.added_by ≡ some adder
    → (has_user r row.user_id && has_agent_group r row.agent_group_id && has_user r adder) ≡ true
    → (r' : Roster) × (add_member r row ≡ some r')
add_member-succeeds r row adder e h = elim (Option-cases (add_member r row)) [
  | inl n ↦ ground (arith, add_member-throws r row adder e n)
  | inr k ↦ k
]

-- The access of a user depends on the tables that a decision and the insertion leave in agreement.
access-with_members :
    (db : Central) (r : Roster) (row : AgentGroupMember) (id user group : String)
    → add_member (roster db) row ≡ some r
    → is_allowed (
        can_access_agent_group
          (roster (delete_pending_sender_approval (with_members db r) id))
          user
          group)
      ≡ is_allowed (can_access_agent_group r user group)
unfolding delete_pending_sender_approval can_access_agent_group is_member is_owner is_global_admin
    is_admin_of_agent_group has_user has_membership_row
access-with_members db r row id user group s =
    let k = add_member-some (roster db) r row s in rw (k.0, k.1) refl

access_gate-lets_in :
    (env : SenderEnv) (tables : Tables Central) (event : InboundEvent) (user : String)
    (mg : MessagingGroup) (group : String)
    → (user === "") ≡ false
    → is_allowed (can_access_agent_group (roster tables.world) user group) ≡ true
    → access_gate env tables event (some user) mg group ≡ (tables, true)
unfolding access_gate
access_gate-lets_in env tables event user mg group n a =
    elim (Bool-cases (is_public mg.unknown_sender_policy)) [
      | inl p ↦ rw (access_gate, p) refl
      | inr p ↦ rw (access_gate, p, n, a) refl
    ]

-- A click on approve by somebody who may decide, where the sender, the clicker and the agent group
-- are in their tables and the original event of the card parses: the handler does not throw, the
-- card is gone, the router runs on the original event over the tables that the decision leaves, and
-- what the click leads to is what that run leaves. In the tables that the decision leaves, the gate
-- lets the sender through to the agent group from every chat.
pub response-admits :
    (renv : Env) (env : SenderEnv) (hooks : Hooks Central) (db : RouterDb Central)
    (payload : ResponsePayload) (row : PendingSenderApproval) (clicker : String)
    (original event : InboundEvent) (tables : Tables Central) (mg : MessagingGroup)
    → get_pending_sender_approval db.tables.world payload.question_id ≡ some row
    → clicker_id payload ≡ some clicker
    → is_authorized db.tables.world row clicker ≡ true
    → (payload.value === "approve") ≡ true
    → (row.sender_identity === "") ≡ false
    → (has_user (roster db.tables.world) row.sender_identity
        && has_agent_group (roster db.tables.world) row.agent_group_id
        && has_user (roster db.tables.world) clicker)
      ≡ true
    → env.parse_event row.original_message ≡ some original
    → tables.world ≡ (handle_sender_approval_response env db.tables.world payload).db
    → ((handle_sender_approval_response env db.tables.world payload).threw ≡ false)
      × (get_pending_sender_approval
            (handle_sender_approval_response env db.tables.world payload).db
            row.id
          ≡ none)
      × (answer_card renv env hooks db payload
          ≡ (route_inbound renv
              (with_gates env hooks)
              (put_world db (handle_sender_approval_response env db.tables.world payload).db)
              original).db)
      × (access_gate env tables event (some row.sender_identity) mg row.agent_group_id
          ≡ (tables, true))
unfolding get_pending_sender_approval delete_pending_sender_approval answer_card
response-admits renv env hooks db payload row clicker original event tables mg found clicked auth
      approve named known parses w =
    let (r, s) =
      add_member-succeeds (roster db.tables.world) (new_member row clicker) clicker refl known in
    let after : CardAnswer =
      claimed_with (delete_pending_sender_approval (with_members db.tables.world r) row.id)
        (env.parse_event row.original_message) in
    let e : handle_sender_approval_response env db.tables.world payload ≡ after =
      response-decides env db.tables.world payload row clicker found clicked auth
      ∙ unfold decide in rw (decide, approve, s) refl in
    (
      ap (λ (x : CardAnswer). x.threw) e,
      ap (λ (x : CardAnswer). get_pending_sender_approval x.db row.id) e
          ∙ first-none_of _ _ (delete_fails _ db.tables.world.pending_sender_approvals),
      ap
          (replayed renv env hooks
            (put_world db (handle_sender_approval_response env db.tables.world payload).db))
          (ap (λ (x : CardAnswer). x.replay) e ∙ parses),
      access_gate-lets_in env tables event row.sender_identity mg row.agent_group_id named (
          ap
            (λ (d : Central).
              is_allowed (can_access_agent_group (roster d) row.sender_identity row.agent_group_id))
            (w ∙ ap (λ (x : CardAnswer). x.db) e)
          ∙ access-with_members db.tables.world r (new_member row clicker) row.id
              row.sender_identity row.agent_group_id s
          ∙ can_access-add_member (roster db.tables.world) r (new_member row clicker)
              row.sender_identity row.agent_group_id s
          ∙ rw (===_refl row.sender_identity, ===_refl row.agent_group_id) (ground arith)),
    )
