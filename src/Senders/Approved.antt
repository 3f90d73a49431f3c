-- ===== src/Senders/Approved.antt =====
-- What the answer to an approval card changes (`handleSenderApprovalResponse` of
-- `src/modules/permissions/index.ts`).
use lfontes_nanoclaw.Prelude.{
  ◌===◌, ===_iff, Bool-cases, Option-cases, &&-true, String, ◌≡◌, refl, sym, ap, ◌∙◌, ◌⊎◌, inl, inr,
  Bool, true, false, ◌&&◌, ◌||◌, none, some, arith,
}
use lfontes_nanoclaw.Permissions.{has_admin_privilege, Roster, has_membership_row, add_member}
use lfontes_nanoclaw.Permissions.Access.{has_membership_row-add_member}
use lfontes_nanoclaw.Senders.{
  PendingSenderApproval, Central, roster, SenderEnv, get_pending_sender_approval,
  delete_pending_sender_approval,
}
use lfontes_nanoclaw.Senders.Answers.{
  ResponsePayload, CardAnswer, clicker_id, is_authorized, decide, handle_sender_approval_response,
  new_member,
}

-- A click on approve, on the card of a request for that user and that agent group, by somebody
-- whom the card was sent to or who has admin privilege over the group.
abbrev pub IsApproved : Central → ResponsePayload → String → String → Type 0
IsApproved db payload user group =
    (row : PendingSenderApproval) × (clicker : String) × (get_pending_sender_approval db
        payload.question_id
      ≡ some row)
    × (clicker_id payload ≡ some clicker)
    × ((clicker ≡ row.approver_user_id)
        ⊎ (has_admin_privilege (roster db) clicker row.agent_group_id ≡ true))
    × (payload.value ≡ "approve")
    × (row.sender_identity ≡ user)
    × (row.agent_group_id ≡ group)

or_else_right : (a b : Bool) → a ≡ false → (a || b) ≡ true → b ≡ true
or_else_right true b h k = ground arith
or_else_right false b h k = k

authorized :
    (db : Central) (row : PendingSenderApproval) (clicker : String)
    → is_authorized db row clicker ≡ true
    → (clicker ≡ row.approver_user_id)
      ⊎ (has_admin_privilege (roster db) clicker row.agent_group_id ≡ true)
authorized db row clicker a = elim (Bool-cases (clicker === row.approver_user_id)) [
  | inl k ↦ inl ((===_iff clicker row.approver_user_id).0 k)
  | inr k ↦ inr (or_else_right (clicker === row.approver_user_id) _ k a)
]

module _ (env : SenderEnv) (db : Central) (user group : String) where
  decide-denied :
      (row : PendingSenderApproval) (clicker value : String)
      → (value === "approve") ≡ false
      → has_membership_row (roster (decide env db row clicker value).db) user group
        ≡ has_membership_row (roster db) user group
  unfolding decide delete_pending_sender_approval has_membership_row
  decide-denied row clicker value n = rw (decide, n) refl

  decide-threw :
      (row : PendingSenderApproval) (clicker value : String)
      → (value === "approve") ≡ true
      → add_member (roster db) (new_member row clicker) ≡ none
      → has_membership_row (roster (decide env db row clicker value).db) user group
        ≡ has_membership_row (roster db) user group
  unfolding decide
  decide-threw row clicker value a n = rw (decide, a, n) refl

  decide-added :
      (row : PendingSenderApproval) (clicker value : String) (r : Roster)
      → (value === "approve") ≡ true
      → add_member (roster db) (new_member row clicker) ≡ some r
      → has_membership_row (roster (decide env db row clicker value).db) user group ≡ (
          has_membership_row (roster db) user group
          || (row.sender_identity === user && row.agent_group_id === group))
  unfolding decide delete_pending_sender_approval
  decide-added row clicker value r a s =
      rw (decide, a, s) (unfold has_membership_row in refl)
      ∙ has_membership_row-add_member (roster db) r (new_member row clicker) user group s

  decide-grants :
      (row : PendingSenderApproval) (clicker value : String)
      → has_membership_row (roster db) user group ≡ false
      → has_membership_row (roster (decide env db row clicker value).db) user group ≡ true
      → (value ≡ "approve") × (row.sender_identity ≡ user) × (row.agent_group_id ≡ group)
  decide-grants row clicker value before after = elim (Bool-cases (value === "approve")) [
    | inr n ↦ ground (arith, decide-denied row clicker value n)
    | inl a ↦ elim (Option-cases (add_member (roster db) (new_member row clicker))) [
      | inl n ↦ ground (arith, decide-threw row clicker value a n)
      | inr (r, s) ↦
          let both =
            &&-true _ _
              (or_else_right _ _ before (sym (decide-added row clicker value r a s) ∙ after)) in
          (
            (===_iff value "approve").0 a,
            (===_iff row.sender_identity user).0 both.0,
            (===_iff row.agent_group_id group).0 both.1,
          )
    ]
  ]

module _ (env : SenderEnv) (db : Central) (payload : ResponsePayload) (row : PendingSenderApproval)
    (clicker : String) (found : get_pending_sender_approval db payload.question_id ≡ some row)
    (clicked : clicker_id payload ≡ some clicker) where
  pub response-decides :
      is_authorized db row clicker ≡ true
      → handle_sender_approval_response env db payload ≡ decide env db row clicker payload.value
  unfolding handle_sender_approval_response
  response-decides a = rw (handle_sender_approval_response, found, clicked, a) refl

  response-unauthorized :
      is_authorized db row clicker ≡ false
      → (handle_sender_approval_response env db payload).db ≡ db
  unfolding handle_sender_approval_response
  response-unauthorized a = rw (handle_sender_approval_response, found, clicked, a) refl

-- Without a row, or without somebody who clicked, nothing changes.
response-ignored :
    (env : SenderEnv) (db : Central) (payload : ResponsePayload)
    → (get_pending_sender_approval db payload.question_id ≡ none) ⊎ (clicker_id payload ≡ none)
    → (handle_sender_approval_response env db payload).db ≡ db
unfolding handle_sender_approval_response
response-ignored env db payload (inl n) = rw (handle_sender_approval_response, n) refl
response-ignored env db payload (inr n) =
    elim (Option-cases (get_pending_sender_approval db payload.question_id)) [
      | inl m ↦ rw (handle_sender_approval_response, m) refl
      | inr (row, s) ↦ rw (handle_sender_approval_response, s, n) refl
    ]

-- What does not change the tables makes nobody a member.
unchanged :
    {P : Type 0} (db db' : Central) (user group : String)
    → db' ≡ db
    → has_membership_row (roster db) user group ≡ false
    → has_membership_row (roster db') user group ≡ true
    → P
unchanged db db' user group e before after =
    ground (arith, ap (λ d. has_membership_row (roster d) user group) e)

-- Answering a card makes nobody a member but the sender in question, in the agent group in question,
-- and only if somebody clicked on approve whom the card was sent to or who has admin privilege over
-- the group.
pub response-IsApproved :
    (env : SenderEnv) (db : Central) (payload : ResponsePayload) (user group : String)
    → has_membership_row (roster db) user group ≡ false
    → has_membership_row (roster (handle_sender_approval_response env db payload).db) user group
      ≡ true
    → IsApproved db payload user group
unfolding handle_sender_approval_response
response-IsApproved env db payload user group before after =
    elim (Option-cases (get_pending_sender_approval db payload.question_id)) [
      | inl n ↦ unchanged _ _ user group (response-ignored env db payload (inl n)) before after
      | inr (row, s) ↦ elim (Option-cases (clicker_id payload)) [
        | inl n ↦ unchanged _ _ user group (response-ignored env db payload (inr n)) before after
        | inr (clicker, c) ↦ elim (Bool-cases (is_authorized db row clicker)) [
          | inr n ↦
              unchanged _ _ user group (response-unauthorized env db payload row clicker s c n)
                before after
          | inl a ↦
              let g = decide-grants env db user group row clicker payload.value before (
                sym (
                  ap (λ (r : CardAnswer). has_membership_row (roster r.db) user group)
                    (response-decides env db payload row clicker s c a))
                ∙ after) in
              (row, clicker, s, c, authorized db row clicker a, g.0, g.1, g.2)
        ]
      ]
    ]
