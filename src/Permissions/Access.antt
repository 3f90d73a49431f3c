-- ===== src/Permissions/Access.antt =====
-- Who may talk to an agent group (`src/modules/permissions/access.ts`), and that roles stay well formed.
use lfontes_nanoclaw.Prelude.{
  ◌===◌, if◌then◌else◌, ===_iff, Bool-cases, Option-cases, &&-true, is_some, All-append, All-delete,
  any-append, String, ◌≡◌, refl, sym, ◌∙◌, ◌↔◌, inl, inr, Bool, true, false, ◌&&◌, ◌||◌, Option,
  none, some, [], ◌∷◌, ◌++◌, arith,
}
use lfontes_nanoclaw.Permissions.{
  UserRoleKind, owner, role_eq, UserRole, AgentGroupMember, Roster, grant_role, revoke_role,
  is_owner, is_global_admin, is_admin_of_agent_group, has_admin_privilege, has_membership_row,
  is_member, add_member, has_user, by_owner, by_global_admin, by_admin_of_group, by_member,
  unknown_user, not_member, is_allowed, AccessDecision, can_access_agent_group,
}
use lfontes_nanoclaw.CommandGate.Laws.{OwnersAreGlobal}

-- What each decision says of the user.
abbrev pub IsExplained : Roster → String → String → AccessDecision → Type 0
IsExplained db user group decision =
    ((decision ≡ by_owner) ↔ ((has_user db user ≡ true) × (is_owner db user ≡ true)))
    × ((decision ≡ by_global_admin) ↔ (
        (has_user db user ≡ true) × (is_owner db user ≡ false) × (is_global_admin db user ≡ true)))
    × ((decision ≡ by_admin_of_group) ↔ (
        (has_user db user ≡ true)
        × (is_owner db user ≡ false)
        × (is_global_admin db user ≡ false)
        × (is_admin_of_agent_group db user group ≡ true)))
    × ((decision ≡ by_member) ↔ (
        (has_user db user ≡ true)
        × (has_admin_privilege db user group ≡ false)
        × (has_membership_row db user group ≡ true)))
    × ((decision ≡ unknown_user) ↔ (has_user db user ≡ false))
    × ((decision ≡ not_member) ↔ (
        (has_user db user ≡ true)
        × (has_admin_privilege db user group ≡ false)
        × (has_membership_row db user group ≡ false)))

-- Access is given exactly to the known users who are members, owners, global admins and admins of
-- the group counting as members. The reason names the highest rank that they hold: owner, then
-- global admin, then admin of the group, then a membership row; and a refusal says whether the user
-- is unknown or no member.
pub can_access_agent_group-allowed :
    (db : Roster) (user group : String)
    → (is_allowed (can_access_agent_group db user group)
        ≡ (has_user db user && is_member db user group))
      × IsExplained db user group (can_access_agent_group db user group)
unfolding can_access_agent_group is_member has_admin_privilege
can_access_agent_group-allowed db user group = (
  ground arith,
  (
    (λ h. ground arith, λ h. ground arith),
    (λ h. ground arith, λ h. ground arith),
    (λ h. ground arith, λ h. ground arith),
    (λ h. ground arith, λ h. ground arith),
    (λ h. ground arith, λ h. ground arith),
    (λ h. ground arith, λ h. ground arith),
  ),
)

grant_role-some :
    (db db' : Roster) (row : UserRole)
    → grant_role db row ≡ some db'
    → ((role_eq row.role owner && is_some row.agent_group_id) ≡ false)
      × (db'.user_roles ≡ db.user_roles ++ row ∷ [])
unfolding grant_role
grant_role-some db db' row e = elim (Option-cases row.agent_group_id) [
  | inl n ↦ (ground arith, ground arith)
  | inr (g, s) ↦ (ground arith, ground arith)
]

-- Granting a role keeps every owner row free of an agent group, and revoking one does.
pub grant_role-OwnersAreGlobal :
    (db db' : Roster) (row : UserRole)
    → grant_role db row ≡ some db'
    → OwnersAreGlobal db.user_roles
    → OwnersAreGlobal db'.user_roles
grant_role-OwnersAreGlobal db db' row e h =
    let s = grant_role-some db db' row e in
    rw s.1 (All-append _ db.user_roles (row ∷ []) h (s.0, tt))

-- What is left of the roles is among what there was.
pub revoke_role-OwnersAreGlobal :
    (db : Roster) (user_id : String) (role : UserRoleKind) (group : Option String)
    → OwnersAreGlobal db.user_roles
    → OwnersAreGlobal (revoke_role db user_id role group).user_roles
unfolding revoke_role
revoke_role-OwnersAreGlobal db user_id role none h = All-delete _ _ db.user_roles h
revoke_role-OwnersAreGlobal db user_id role (some g) h = All-delete _ _ db.user_roles h

pub absorbs : (a b : Bool) → (b ≡ true → a ≡ true) → (a || b) ≡ a
absorbs true b h = refl
absorbs false true h = sym (h refl)
absorbs false false h = refl

member_row :
    (db : Roster) (user group someone other : String)
    → has_membership_row db user group ≡ true
    → (user === someone && group === other) ≡ true
    → has_membership_row db someone other ≡ true
member_row db user group someone other e b =
    let both = &&-true (user === someone) (group === other) b in
    rw (← (===_iff user someone).0 both.0, ← (===_iff group other).0 both.1) e

pub add_member-some :
    (db db' : Roster) (row : AgentGroupMember)
    → add_member db row ≡ some db'
    → (db'.users ≡ db.users)
      × (db'.user_roles ≡ db.user_roles)
      × (db'.agent_group_members ≡ (
          if has_membership_row db row.user_id row.agent_group_id
          then db.agent_group_members
          else db.agent_group_members ++ row ∷ []))
unfolding add_member
add_member-some db db' row s =
    elim (Bool-cases (has_membership_row db row.user_id row.agent_group_id)) [
      | inl e ↦ (ground arith, ground arith, ground arith)
      | inr e ↦ (ground arith, ground arith, ground arith)
    ]

pub has_membership_row-add_member :
    (db db' : Roster) (row : AgentGroupMember) (someone other : String)
    → add_member db row ≡ some db'
    → has_membership_row db' someone other ≡ (
        has_membership_row db someone other
        || (row.user_id === someone && row.agent_group_id === other))
unfolding has_membership_row
has_membership_row-add_member db db' row someone other s =
    elim (Bool-cases (has_membership_row db row.user_id row.agent_group_id)) [
      | inl e ↦
          rw ((add_member-some db db' row s).2, e)
            (sym (
              absorbs (has_membership_row db someone other)
                (row.user_id === someone && row.agent_group_id === other)
                (member_row db row.user_id row.agent_group_id someone other e)))
      | inr e ↦
          rw ((add_member-some db db' row s).2, e)
            (any-append
                (λ (m : AgentGroupMember). m.user_id === someone && m.agent_group_id === other)
                db.agent_group_members (row ∷ [])
              ∙ ground arith)
    ]

-- Adding a member gives access to that user and that group, and changes nobody else's access and
-- no other group's.
pub can_access-add_member :
    (db db' : Roster) (row : AgentGroupMember) (someone other : String)
    → add_member db row ≡ some db'
    → is_allowed (can_access_agent_group db' someone other) ≡ (
        has_user db someone
        && (is_member db someone other
            || (row.user_id === someone && row.agent_group_id === other)))
unfolding can_access_agent_group is_member is_owner is_global_admin is_admin_of_agent_group has_user
    has_membership_row
can_access-add_member db db' row someone other s =
    let k = add_member-some db db' row s in
    rw (k.0, k.1, has_membership_row-add_member db db' row someone other s) (ground arith)
