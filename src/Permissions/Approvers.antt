-- ===== src/Permissions/Approvers.antt =====
-- Whom an approval request may go to (`pickApprover`, `src/modules/approvals/primitive.ts`).
use lfontes_nanoclaw.Prelude.{
  ◌===◌, ===_iff, ===_refl, Bool-cases, any, All, All-append, select, insert_by, order_by,
  any-append, String, ◌≡◌, refl, sym, ap, ◌∙◌, inl, inr, Bool, false, ◌&&◌, ◌||◌, some, List, [],
  ◌∷◌, ◌++◌, arith,
}
use lfontes_nanoclaw.Permissions.{
  owner, admin, UserRole, Roster, is_global_role, is_scoped_role, is_owner, is_global_admin,
  is_admin_of_agent_group, has_admin_privilege, get_owners, get_global_admins,
  get_admins_of_agent_group, add_approver, add_approvers, scoped_admins, pick_approver,
}
use lfontes_nanoclaw.Permissions.Access.{absorbs}

abbrev pub NoRepeats : List String → Type 0
NoRepeats [] = Unit
NoRepeats (a ∷ xs) = All (λ b. (b === a) ≡ false) xs × NoRepeats xs

===_sym_false : (a b : String) → (a === b) ≡ false → (b === a) ≡ false
===_sym_false a b h = elim (Bool-cases (b === a)) [
  | inl e ↦ e ∙ sym (===_refl b) ∙ ap (λ x. x === b) ((===_iff b a).0 e) ∙ h
  | inr e ↦ e
]

NoRepeats-snoc :
    (xs : List String) (x : String)
    → NoRepeats xs
    → any (λ a. a === x) xs ≡ false
    → NoRepeats (xs ++ x ∷ [])
NoRepeats-snoc [] x h e = (tt, tt)
NoRepeats-snoc (a ∷ xs) x h e = elim (Bool-cases (a === x)) [
  | inl k ↦ ground arith
  | inr k ↦ (
    All-append _ xs (x ∷ []) h.0 (===_sym_false a x k, tt),
    NoRepeats-snoc xs x h.1 (ground arith),
  )
]

add_approver-NoRepeats :
    (xs : List String) (r : UserRole) → NoRepeats xs → NoRepeats (add_approver xs r)
unfolding add_approver
add_approver-NoRepeats xs r h = elim (Bool-cases (any (λ a. a === r.user_id) xs)) [
  | inl e ↦ rw e h
  | inr e ↦ rw e (NoRepeats-snoc xs r.user_id h e)
]

add_approvers-NoRepeats :
    (rs : List UserRole) (xs : List String) → NoRepeats xs → NoRepeats (add_approvers rs xs)
unfolding add_approvers
add_approvers-NoRepeats [] xs h = h
add_approvers-NoRepeats (r ∷ rs) xs h =
    add_approvers-NoRepeats rs (add_approver xs r) (add_approver-NoRepeats xs r h)

has-add_approver :
    (u : String) (xs : List String) (r : UserRole)
    → any (λ a. a === u) (add_approver xs r) ≡ (any (λ a. a === u) xs || r.user_id === u)
unfolding add_approver
has-add_approver u xs r = elim (Bool-cases (any (λ a. a === r.user_id) xs)) [
  | inl e ↦ rw e (
      sym (
        absorbs (any (λ a. a === u) xs) (r.user_id === u)
          (λ k. rw (← (===_iff r.user_id u).0 k) e)))
  | inr e ↦ rw (e, any-append (λ a. a === u) xs (r.user_id ∷ [])) (ground arith)
]

has-add_approvers :
    (u : String) (rs : List UserRole) (xs : List String)
    → any (λ a. a === u) (add_approvers rs xs)
      ≡ (any (λ a. a === u) xs || any (λ (r : UserRole). r.user_id === u) rs)
unfolding add_approvers
has-add_approvers u [] xs = ground arith
has-add_approvers u (r ∷ rs) xs =
    ground (arith, has-add_approvers u rs (add_approver xs r), has-add_approver u xs r)

any-insert_by :
    (p : UserRole → Bool) (le : UserRole → UserRole → Bool) (x : UserRole) (xs : List UserRole)
    → any p (insert_by le x xs) ≡ (p x || any p xs)
unfolding insert_by
any-insert_by p le x [] = refl
any-insert_by p le x (y ∷ ys) = ground (arith, any-insert_by p le x ys)

any-order_by :
    (p : UserRole → Bool) (le : UserRole → UserRole → Bool) (xs : List UserRole)
    → any p (order_by le xs) ≡ any p xs
unfolding order_by
any-order_by p le [] = refl
any-order_by p le (x ∷ xs) =
    any-insert_by p le x (order_by le xs) ∙ ap (λ b. p x || b) (any-order_by p le xs)

any-select :
    (p q s : UserRole → Bool) (xs : List UserRole)
    → ((x : UserRole) → s x ≡ (p x && q x))
    → any p (select q xs) ≡ any s xs
unfolding select
any-select p q s [] h = refl
any-select p q s (x ∷ xs) h = ground (arith, h x, any-select p q s xs h)

module _ (db : Roster) (user : String) where
  any-get_owners : any (λ (r : UserRole). r.user_id === user) (get_owners db) ≡ is_owner db user
  unfolding get_owners is_owner
  any-get_owners =
      any-order_by _ _ (select _ db.user_roles)
      ∙ any-select _ _ (is_global_role user owner) db.user_roles (λ r. ground arith)

  any-get_global_admins :
      any (λ (r : UserRole). r.user_id === user) (get_global_admins db) ≡ is_global_admin db user
  unfolding get_global_admins is_global_admin
  any-get_global_admins =
      any-order_by _ _ (select _ db.user_roles)
      ∙ any-select _ _ (is_global_role user admin) db.user_roles (λ r. ground arith)

  any-get_admins_of_agent_group :
      (group : String)
      → any (λ (r : UserRole). r.user_id === user) (get_admins_of_agent_group db group)
        ≡ is_admin_of_agent_group db user group
  unfolding get_admins_of_agent_group is_admin_of_agent_group
  any-get_admins_of_agent_group group =
      any-order_by _ _ (select _ db.user_roles)
      ∙ any-select _ _ (is_scoped_role user admin group) db.user_roles (λ r. ground arith)

-- The approvers of an agent group are the users with admin privilege over it, all of them, and
-- each stands in the list once.
pub pick_approver-has_admin_privilege :
    (db : Roster) (group user : String)
    → (group === "") ≡ false
    → NoRepeats (pick_approver db (some group))
      × (any (λ a. a === user) (pick_approver db (some group)) ≡ has_admin_privilege db user group)
unfolding pick_approver
pick_approver-has_admin_privilege db group user n = (
  add_approvers-NoRepeats (get_owners db) _ (
      add_approvers-NoRepeats (get_global_admins db) _
        (add_approvers-NoRepeats (scoped_admins db (some group)) [] tt)),
  rw
      (
        n,
        has-add_approvers user (get_owners db) _,
        has-add_approvers user (get_global_admins db) _,
        has-add_approvers user (get_admins_of_agent_group db group) [],
        any-get_owners db user,
        any-get_global_admins db user,
        any-get_admins_of_agent_group db user group,
      )
      (unfold has_admin_privilege in ground arith),
)
