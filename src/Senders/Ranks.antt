-- ===== src/Senders/Ranks.antt =====
-- What the search for an approver leaves alone: roles and memberships.
use lfontes_nanoclaw.Prelude.{
  ◌===◌, if◌then◌else◌, Option-cases, is_some, select, some_injective, String, ◌≡◌, refl, sym, ap,
  ◌∙◌, inl, inr, Bool, true, false, Option, none, some, List, [], ◌∷◌, arith,
}
use lfontes_nanoclaw.Permissions.{
  pick_approver, UserRole, AgentGroupMember, is_owner, is_global_admin, is_admin_of_agent_group,
  has_membership_row, is_member,
}
use lfontes_nanoclaw.Router.State.{MessagingGroup, create_messaging_group}
use lfontes_nanoclaw.Senders.{
  User, UserDm, PendingSenderApproval, Central, roster, SenderEnv, get_user, get_user_dm,
  upsert_user, upsert_user_dm, get_messaging_group, get_messaging_group_by_platform,
  create_pending_sender_approval,
}
use lfontes_nanoclaw.Senders.Dm.{
  DmResult, reached, unreachable, threw_dm, parse_user_id, resolve_dm_platform_id,
  find_or_create_dm, ensure_user_dm,
}
use lfontes_nanoclaw.Senders.Request.{
  origin_channel, is_skipped, seek_approver, ApprovalTarget, approver_at, nobody, threw_target,
  first_reached, channel_type_of, pick_approval_delivery, RequestSenderApproval, approval_row,
  ask_approver, request_sender_approval,
}

-- The roles and memberships, on which it depends who is a member.
abbrev pub ranks : Central → List UserRole × List AgentGroupMember
ranks db = (db.user_roles, db.agent_group_members)

pub is_member-ranks :
    (a b : Central) (user group : String)
    → ranks a ≡ ranks b
    → is_member (roster a) user group ≡ is_member (roster b) user group
unfolding is_member is_owner is_global_admin is_admin_of_agent_group has_membership_row
is_member-ranks a b user group e =
    ap
      (λ (r : List UserRole × List AgentGroupMember).
        is_member
          (record { users = []; agent_groups = []; user_roles = r.0; agent_group_members = r.1 })
          user group)
      e

pub ranks-if :
    (b : Bool) (x y : Central) (r : List UserRole × List AgentGroupMember)
    → ranks x ≡ r
    → ranks y ≡ r
    → ranks (if b then x else y) ≡ r
ranks-if true x y r h k = h
ranks-if false x y r h k = k

ranks-upsert_user_dm : (db : Central) (row : UserDm) → ranks (upsert_user_dm db row) ≡ ranks db
unfolding upsert_user_dm
ranks-upsert_user_dm db row =
    ranks-if (is_some (get_user_dm db row.user_id row.channel_type)) _ _ _ refl refl

pub ranks-upsert_user : (db : Central) (user : User) → ranks (upsert_user db user) ≡ ranks db
unfolding upsert_user
ranks-upsert_user db user = ranks-if (is_some (get_user db user.id)) _ _ _ refl refl

-- A match on an option, by its two branches.
ranks-match :
    {A B : Type 0} (r : List UserRole × List AgentGroupMember) (o : Option A) (n : Central × B)
    (f : A → Central × B)
    → ranks n.0 ≡ r
    → ((a : A) → ranks (f a).0 ≡ r)
    → ranks (elim o as (λ _. Central × B) [ none ↦ n | some a ↦ f a ]).0 ≡ r
ranks-match r none n f h k = h
ranks-match r (some a) n f h k = k a

ranks-if_pair :
    {B : Type 0} (r : List UserRole × List AgentGroupMember) (b : Bool) (x y : Central × B)
    → ranks x.0 ≡ r
    → ranks y.0 ≡ r
    → ranks (if b then x else y).0 ≡ r
ranks-if_pair r true x y h k = h
ranks-if_pair r false x y h k = k

some_if : (b : Bool) (x y : Central) → (if b then none else some x) ≡ some y → x ≡ y
some_if true x y h = ground arith
some_if false x y h = some_injective x y h

ranks-create :
    (db db' : Central) (row : PendingSenderApproval)
    → create_pending_sender_approval db row ≡ some db'
    → ranks db' ≡ ranks db
unfolding create_pending_sender_approval
ranks-create db db' row e = sym (ap ranks (some_if _ _ db' e))

module _ (env : SenderEnv) where
  ranks-find_or_create_dm :
      (db : Central) (user : User) (channel_type platform_id : String)
      → ranks (find_or_create_dm env db user channel_type platform_id).0 ≡ ranks db
  unfolding find_or_create_dm
  ranks-find_or_create_dm db user channel_type platform_id =
      ranks-match _ (get_messaging_group_by_platform db channel_type platform_id) _ _
        (ranks-match _ (create_messaging_group db.messaging_groups _) _ _ refl
          (λ groups. ranks-upsert_user_dm (record db { messaging_groups = groups }) _))
        (λ mg. ranks-upsert_user_dm db _)

  ranks-ensure_user_dm : (db : Central) (u : String) → ranks (ensure_user_dm env db u).0 ≡ ranks db
  unfolding ensure_user_dm
  ranks-ensure_user_dm db u = ranks-match _ (get_user db u) _ _ refl (λ user.
      ranks-match _ (parse_user_id env user) _ _ refl (λ x.
        ranks-match _ _ _ _
          (ranks-match _ (resolve_dm_platform_id env x.0 x.1) _ _ refl (λ platform_id.
            ranks-if_pair _ (platform_id === "") _ _ refl
              (ranks-find_or_create_dm db user x.0 platform_id)))
          (λ mg. refl)))

  ranks-reached :
      (db : Central) (u : String) (dm : DmResult) (rest : Central × ApprovalTarget)
      → ranks rest.0 ≡ ranks db
      → ranks
          (elim dm as (λ _. Central × ApprovalTarget) [
            | reached mg ↦ (db, approver_at u mg)
            | threw_dm ↦ (db, threw_target)
            | unreachable ↦ rest
          ]).0
        ≡ ranks db
  ranks-reached db u (reached mg) rest h = refl
  ranks-reached db u threw_dm rest h = refl
  ranks-reached db u unreachable rest h = h

  ranks-first_reached :
      (db : Central) (approvers : List String) → ranks (first_reached env db approvers).0 ≡ ranks db
  unfolding first_reached
  ranks-first_reached db [] = refl
  ranks-first_reached db (u ∷ approvers) =
      let r = ensure_user_dm env db u in
      ranks-reached r.0 u r.1 (first_reached env r.0 approvers) (ranks-first_reached r.0 approvers)
      ∙ ranks-ensure_user_dm db u

  ranks-picked :
      (db : Central) (t : ApprovalTarget) (rest : Central × ApprovalTarget)
      → ranks rest.0 ≡ ranks db
      → ranks
          (elim t as (λ _. Central × ApprovalTarget) [
            | approver_at u mg ↦ (db, approver_at u mg)
            | threw_target ↦ (db, threw_target)
            | nobody ↦ rest
          ]).0
        ≡ ranks db
  ranks-picked db (approver_at u mg) rest h = refl
  ranks-picked db threw_target rest h = refl
  ranks-picked db nobody rest h = h

  ranks-pick_approval_delivery :
      (db : Central) (approvers : List String) (origin : String)
      → ranks (pick_approval_delivery env db approvers origin).0 ≡ ranks db
  unfolding pick_approval_delivery
  ranks-pick_approval_delivery db approvers origin =
      let near =
        if origin === "" then [] else select (λ u. channel_type_of u === origin) approvers in
      let r = first_reached env db near in
      ranks-picked r.0 r.1 (first_reached env r.0 approvers) (ranks-first_reached r.0 approvers)
      ∙ ranks-first_reached db near

  ranks-ask_approver :
      (db : Central) (input : RequestSenderApproval) (origin : Option MessagingGroup) (u : String)
      (mg : MessagingGroup)
      → ranks (ask_approver env db input origin u mg) ≡ ranks db
  unfolding ask_approver
  ranks-ask_approver db input origin u mg =
      elim (Option-cases (create_pending_sender_approval db (approval_row env input u))) [
        | inl n ↦ rw (ask_approver, n) refl
        | inr (d, k) ↦
            rw (ask_approver, k)
              (ranks-if env.has_delivery_adapter _ d _
                (ranks-create db d (approval_row env input u) k)
                (ranks-create db d (approval_row env input u) k))
      ]

  ranks-asked :
      (db : Central) (input : RequestSenderApproval) (origin : Option MessagingGroup)
      (t : ApprovalTarget)
      → ranks (elim t as (λ _. Central) [
        | approver_at u mg ↦ ask_approver env db input origin u mg
        | nobody ↦ db
        | threw_target ↦ db
      ])
        ≡ ranks db
  ranks-asked db input origin (approver_at u mg) = ranks-ask_approver db input origin u mg
  ranks-asked db input origin nobody = refl
  ranks-asked db input origin threw_target = refl

  ranks-seek_approver :
      (db : Central) (input : RequestSenderApproval) (approvers : List String)
      → ranks (seek_approver env db input approvers) ≡ ranks db
  unfolding seek_approver
  ranks-seek_approver db input approvers =
      let origin = get_messaging_group db input.messaging_group_id in
      let r = pick_approval_delivery env db approvers (origin_channel origin) in
      ranks-asked r.0 input origin r.1
      ∙ ranks-pick_approval_delivery db approvers (origin_channel origin)

  pub ranks-request_sender_approval :
      (db : Central) (input : RequestSenderApproval)
      → ranks (request_sender_approval env db input) ≡ ranks db
  unfolding request_sender_approval
  ranks-request_sender_approval db input =
      let approvers = pick_approver (roster db) (some input.agent_group_id) in
      ranks-if (is_skipped db input approvers) db (seek_approver env db input approvers) _ refl
        (ranks-seek_approver db input approvers)
