-- ===== src/CommandGate.antt =====
-- The host's gate on slash commands: `src/command-gate.ts`.
pub mod Laws
use lfontes_nanoclaw.Prelude.{
  ltb, leb, ◌==◌, ◌===◌, if◌then◌else◌, ltb→lt, leb→le, ==_iff, ===_iff, ===_refl, Bool-cases,
  Option-cases, &&-true, is_some, opt_eq, opt_eq_refl, opt_eq_iff, or_else, length, take, any, all,
  All, All-imp, All-and, All-append, All-take, length-append, length-take-le, In, All-In, In-All,
  any-In, In-append_left, In-append_right, In-map, select, first, update, delete, max_of, insert_by,
  order_by, All-select, All-delete, All-update, All-insert_by, All-order_by, select_holds,
  delete_fails, le-max_of, any-false, first-some, first-none, first-none_of, select-update_outside,
  map-update, update_twice, update_clears, select-append, any-append, any-update, length-update,
  update_congr, update_idempotent, select_none, update_union, update_same, ℕ, zero, suc, ◌+◌, ◌-◌,
  ◌*◌, ◌/◌, ◌%◌, ◌^◌, ◌≤◌, ◌<◌, min, max, String, ◌≡◌, refl, sym, ap, ◌∙◌, ◌≢◌, ◌↔◌, ◌⊎◌, inl, inr,
  Bool, true, false, ◌&&◌, ◌||◌, not, Option, none, some, List, [], ◌∷◌, ◌++◌, map, reverse, arith,
}
use lfontes_nanoclaw.Text.{
  Text, Content, content_text, starts_with, first_word, to_lower, codes, contains_text,
}
use lfontes_nanoclaw.Permissions.{UserRole, UserRoleKind, owner, admin, role_eq}

pub data GateResult : Type 0 where
  pass filter : GateResult
  deny : Text → GateResult

abbrev pub filtered_commands : List Text
filtered_commands =
    codes "/help"
    ∷ codes "/login"
    ∷ codes "/logout"
    ∷ codes "/doctor"
    ∷ codes "/config"
    ∷ codes "/remote-control"
    ∷ []

abbrev pub admin_commands : List Text
admin_commands =
    codes "/clear" ∷ codes "/compact" ∷ codes "/context" ∷ codes "/cost" ∷ codes "/files" ∷ []

-- The WHERE clause of `isAdmin`.
abbrev pub grants_admin : String → String → UserRole → Bool
grants_admin user_id agent_group_id r =
    r.user_id === user_id
    && (role_eq r.role owner || role_eq r.role admin)
    && (not (is_some r.agent_group_id) || opt_eq r.agent_group_id (some agent_group_id))

-- `user_roles` is `none` where the table does not exist.
unfoldable pub is_admin : Option (List UserRole) → Option String → String → Bool
is_admin user_roles none agent_group_id = false
is_admin none (some user_id) agent_group_id = not (user_id === "")
is_admin (some rows) (some user_id) agent_group_id =
    not (user_id === "") && any (grants_admin user_id agent_group_id) rows

-- The command of a text: its first word, in lower case.
unfoldable pub command_of : Text → Text
unfolding first_word to_lower
command_of text = to_lower (first_word text)

unfoldable pub gate_command : Option (List UserRole) → Content → Option String → String → GateResult
unfolding content_text starts_with command_of contains_text is_admin
gate_command user_roles content user_id agent_group_id =
    let text = content_text content in
    let command = command_of text in
    if not (starts_with text (codes "/"))
    then pass
    else if contains_text filtered_commands command
    then filter
    else if contains_text admin_commands command
    then if is_admin user_roles user_id agent_group_id then pass else deny command
    else pass
