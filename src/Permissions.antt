-- ===== src/Permissions.antt =====
-- Users, roles and membership: `src/modules/permissions/db`, `src/modules/permissions/access.ts`, and the
-- order of approvers (`src/modules/approvals/primitive.ts`).
pub mod Access
pub mod Approvers
use lfontes_nanoclaw.Prelude.{
  ltb, leb, ◌==◌, ◌===◌, if◌then◌else◌, ltb→lt, leb→le, ==_iff, ===_iff, ===_refl, Bool-cases,
  Option-cases, &&-true, is_some, opt_eq, opt_eq_refl, opt_eq_iff, or_else, length, take, any, all,
  All, All-imp, All-and, All-append, All-take, length-append, length-take-le, In, All-In, In-All,
  any-In, In-append_left, In-append_right, In-map, select, first, update, delete, max_of, insert_by,
  order_by, All-select, All-delete, All-update, All-insert_by, All-order_by, select_holds,
  delete_fails, le-max_of, any-false, first-some, first-none, first-none_of, select-update_outside,
  map-update, update_twice, update_clears, select-append, any-append, any-update, length-update,
  update_congr, update_idempotent, select_none, update_union, update_same, ℕ, zero, suc, ◌+◌, ◌-◌,
  ◌*◌, ◌/◌, ◌%◌, ◌^◌, ◌≤◌, ◌<◌, min, max, String, ◌≡◌, refl, sym, ap, ◌∙◌, ◌≢◌, ◌↔◌, ◌⊎◌, inl, inr,
  Bool, true, false, ◌&&◌, ◌||◌, not, Option, none, some, List, [], ◌∷◌, ◌++◌, map, reverse, arith,
}

pub data UserRoleKind : Type 0 where
  owner admin : UserRoleKind

abbrev pub role_eq : UserRoleKind → UserRoleKind → Bool
role_eq owner owner = true
role_eq admin admin = true
role_eq _ _ = false

pub record UserRole : Type 0 where
  pub user_id : String
  pub role : UserRoleKind
  pub agent_group_id : Option String
  pub granted_by : Option String
  pub granted_at : ℕ

pub record AgentGroupMember : Type 0 where
  pub user_id : String
  pub agent_group_id : String
  pub added_by : Option String

-- The tables of the central database that the module reads; `users` by id.
pub record Roster : Type 0 where
  pub users : List String
  pub agent_groups : List String
  pub user_roles : List UserRole
  pub agent_group_members : List AgentGroupMember

-- `agent_group_id IS NULL`, and a row of that user and role.
abbrev pub is_global_role : String → UserRoleKind → UserRole → Bool
is_global_role user_id role r =
    r.user_id === user_id && role_eq r.role role && not (is_some r.agent_group_id)

abbrev pub is_scoped_role : String → UserRoleKind → String → UserRole → Bool
is_scoped_role user_id role agent_group_id r =
    r.user_id === user_id && role_eq r.role role && opt_eq r.agent_group_id (some agent_group_id)

unfoldable pub has_user : Roster → String → Bool
has_user db user_id = any (λ u. u === user_id) db.users

-- A user that a nullable foreign key names.
abbrev pub is_user_or_null : Roster → Option String → Bool
is_user_or_null db none = true
is_user_or_null db (some u) = has_user db u

unfoldable pub has_agent_group : Roster → String → Bool
has_agent_group db agent_group_id = any (λ g. g === agent_group_id) db.agent_groups

-- `none` where it throws. Two NULL groups are different keys, so a global role may be granted twice.
unfoldable pub grant_role : Roster → UserRole → Option Roster
unfolding has_user has_agent_group
grant_role db row =
    let done = some (record db { user_roles = db.user_roles ++ row ∷ [] }) in
    if not (has_user db row.user_id && is_user_or_null db row.granted_by)
    then none
    else elim row.agent_group_id [
      | none ↦ done
      | some g ↦
          if role_eq row.role owner
            || any (is_scoped_role row.user_id row.role g) db.user_roles
            || not (has_agent_group db g)
          then none
          else done
    ]

unfoldable pub revoke_role : Roster → String → UserRoleKind → Option String → Roster
revoke_role db user_id role none = record db {
  user_roles = delete (is_global_role user_id role) db.user_roles;
}
revoke_role db user_id role (some g) = record db {
  user_roles = delete (is_scoped_role user_id role g) db.user_roles;
}

unfoldable pub is_owner : Roster → String → Bool
is_owner db user_id = any (is_global_role user_id owner) db.user_roles

unfoldable pub is_global_admin : Roster → String → Bool
is_global_admin db user_id = any (is_global_role user_id admin) db.user_roles

unfoldable pub is_admin_of_agent_group : Roster → String → String → Bool
is_admin_of_agent_group db user_id agent_group_id =
    any (is_scoped_role user_id admin agent_group_id) db.user_roles

unfoldable pub has_admin_privilege : Roster → String → String → Bool
unfolding is_owner is_global_admin is_admin_of_agent_group
has_admin_privilege db user_id agent_group_id =
    is_owner db user_id
    || is_global_admin db user_id
    || is_admin_of_agent_group db user_id agent_group_id

unfoldable pub has_membership_row : Roster → String → String → Bool
has_membership_row db user_id agent_group_id =
    any (λ (m : AgentGroupMember). m.user_id === user_id && m.agent_group_id === agent_group_id)
      db.agent_group_members

unfoldable pub is_member : Roster → String → String → Bool
is_member db user_id agent_group_id =
    if is_owner db user_id
      || is_global_admin db user_id
      || is_admin_of_agent_group db user_id agent_group_id
    then true
    else has_membership_row db user_id agent_group_id

-- `INSERT OR IGNORE`: a row that stands is kept, and a foreign key that names nothing throws.
unfoldable pub add_member : Roster → AgentGroupMember → Option Roster
add_member db row =
    if has_membership_row db row.user_id row.agent_group_id
    then some db
    else if has_user db row.user_id
        && has_agent_group db row.agent_group_id
        && is_user_or_null db row.added_by
    then some (record db { agent_group_members = db.agent_group_members ++ row ∷ [] })
    else none

unfoldable pub remove_member : Roster → String → String → Roster
remove_member db user_id agent_group_id = record db {
  agent_group_members =
      delete
        (λ (m : AgentGroupMember). m.user_id === user_id && m.agent_group_id === agent_group_id)
        db.agent_group_members;
}

pub data AccessDecision : Type 0 where
  by_owner by_global_admin by_admin_of_group by_member : AccessDecision
  unknown_user not_member : AccessDecision

abbrev pub is_allowed : AccessDecision → Bool
is_allowed unknown_user = false
is_allowed not_member = false
is_allowed _ = true

unfoldable pub can_access_agent_group : Roster → String → String → AccessDecision
can_access_agent_group db user_id agent_group_id =
    if not (has_user db user_id)
    then unknown_user
    else if is_owner db user_id
    then by_owner
    else if is_global_admin db user_id
    then by_global_admin
    else if is_admin_of_agent_group db user_id agent_group_id
    then by_admin_of_group
    else if is_member db user_id agent_group_id
    then by_member
    else not_member

abbrev by_grant : UserRole → UserRole → Bool
by_grant a b = leb a.granted_at b.granted_at

unfoldable pub get_owners : Roster → List UserRole
get_owners db =
    order_by by_grant
      (select (λ r. role_eq r.role owner && not (is_some r.agent_group_id)) db.user_roles)

unfoldable pub get_global_admins : Roster → List UserRole
get_global_admins db =
    order_by by_grant
      (select (λ r. role_eq r.role admin && not (is_some r.agent_group_id)) db.user_roles)

unfoldable pub get_admins_of_agent_group : Roster → String → List UserRole
get_admins_of_agent_group db agent_group_id = order_by by_grant (
    select (λ r. role_eq r.role admin && opt_eq r.agent_group_id (some agent_group_id))
      db.user_roles)

-- `add`, over the list of those seen, which is the list of approvers itself.
unfoldable pub add_approver : List String → UserRole → List String
add_approver approvers r =
    if any (λ a. a === r.user_id) approvers then approvers else approvers ++ r.user_id ∷ []

unfoldable pub add_approvers : List UserRole → List String → List String
add_approvers [] approvers = approvers
add_approvers (r ∷ rs) approvers = add_approvers rs (add_approver approvers r)

abbrev pub scoped_admins : Roster → Option String → List UserRole
scoped_admins db none = []
scoped_admins db (some g) = if g === "" then [] else get_admins_of_agent_group db g

unfoldable pub pick_approver : Roster → Option String → List String
pick_approver db agent_group_id =
    add_approvers (get_owners db)
      (add_approvers (get_global_admins db) (add_approvers (scoped_admins db agent_group_id) []))
