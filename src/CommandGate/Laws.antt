-- ===== src/CommandGate/Laws.antt =====
-- Who gets a command past the gate (`src/command-gate.ts`).
use lfontes_nanoclaw.Prelude.{
  ◌===◌, if◌then◌else◌, Bool-cases, is_some, any, All, ℕ, String, ◌≡◌, refl, inl, inr, true, false,
  ◌&&◌, ◌||◌, not, Option, some, List, [], ◌∷◌, ◌++◌, arith,
}
use lfontes_nanoclaw.Text.{
  Text, Content, json, content_text, starts_with, codes, contains_text, is_space, trim_start,
  trim_end, text_eq, text_eq_iff,
}
use lfontes_nanoclaw.Permissions.{
  UserRole, owner, admin, role_eq, is_global_role, is_scoped_role, Roster, has_admin_privilege,
}
use lfontes_nanoclaw.Container.Commands.{is_clear_command}
use lfontes_nanoclaw.CommandGate.{
  pass, filter, deny, filtered_commands, admin_commands, grants_admin, is_admin, command_of,
  gate_command,
}

trim_end-cons : (c : ℕ) (s : Text) → is_space c ≡ false → trim_end (c ∷ s) ≡ c ∷ trim_end s
unfolding trim_end
trim_end-cons c s h = ground arith

gate_lem :
    (roles : Option (List UserRole)) (content : Content) (user : Option String) (group : String)
    → gate_command roles content user group ≡ (
        if not (starts_with (content_text content) (codes "/"))
        then pass
        else if contains_text filtered_commands (command_of (content_text content))
        then filter
        else if contains_text admin_commands (command_of (content_text content))
        then if is_admin roles user group then pass else deny (command_of (content_text content))
        else pass)
unfolding gate_command
gate_lem roles content user group = refl

-- Anything that goes on after "/clear" without a space passes the gate, whoever sends it, and
-- the runner still takes it for the command that clears the session.
pub clear_bypasses_gate :
    (roles : Option (List UserRole)) (user : Option String) (group : String) (c : ℕ) (s : Text)
    → is_space c ≡ false
    → let content = json (some (codes "/clear" ++ c ∷ s)) in
      (gate_command roles content user group ≡ pass) × (is_clear_command content ≡ true)
unfolding gate_command is_clear_command trim_start trim_end
clear_bypasses_gate roles user group c s h = rw (trim_end-cons c s h, h) (refl, refl)

-- No owner row is limited to an agent group: what `grantRole` enforces.
abbrev pub OwnersAreGlobal : List UserRole → Type 0
OwnersAreGlobal rows = All (λ r. (role_eq r.role owner && is_some r.agent_group_id) ≡ false) rows

is_admin_rows :
    (user group : String) (rows : List UserRole)
    → OwnersAreGlobal rows
    → any (grants_admin user group) rows ≡ (
        any (is_global_role user owner) rows
        || any (is_global_role user admin) rows
        || any (is_scoped_role user admin group) rows)
is_admin_rows user group [] h = refl
is_admin_rows user group (r ∷ rows) h = ground (arith, h.0, is_admin_rows user group rows h.1)

is_admin-has_admin_privilege :
    (db : Roster) (user group : String)
    → OwnersAreGlobal db.user_roles
    → (user === "") ≡ false
    → is_admin (some db.user_roles) (some user) group ≡ has_admin_privilege db user group
unfolding is_admin has_admin_privilege
is_admin-has_admin_privilege db user group h e = rw (e, is_admin_rows user group db.user_roles h)

not_both :
    (t u : Text) (rest : List Text)
    → contains_text filtered_commands u ≡ false
    → (contains_text rest t ≡ true → contains_text filtered_commands t ≡ false)
    → contains_text (u ∷ rest) t ≡ true
    → contains_text filtered_commands t ≡ false
not_both t u rest n k h = elim (Bool-cases (text_eq t u)) [
  | inl e ↦ rw ((text_eq_iff t u).0 e) n
  | inr e ↦ k (unfold contains_text in ground arith)
]

admin_not_filtered :
    (t : Text) → contains_text admin_commands t ≡ true → contains_text filtered_commands t ≡ false
unfolding contains_text
admin_not_filtered t h =
    not_both t (codes "/clear")
      (codes "/compact" ∷ codes "/context" ∷ codes "/cost" ∷ codes "/files" ∷ []) refl
      (not_both t (codes "/compact") (codes "/context" ∷ codes "/cost" ∷ codes "/files" ∷ []) refl (
        not_both t (codes "/context") (codes "/cost" ∷ codes "/files" ∷ []) refl (
          not_both t (codes "/cost") (codes "/files" ∷ []) refl
            (not_both t (codes "/files") [] refl (λ k. cc)))))
      h

-- An admin command passes the gate exactly if its sender, who is known by a non-empty id, is an
-- owner, a global admin or an admin of the agent group, and is denied otherwise.
pub gate-admin_command :
    (db : Roster) (content : Content) (user group : String)
    → OwnersAreGlobal db.user_roles
    → (user === "") ≡ false
    → starts_with (content_text content) (codes "/") ≡ true
    → contains_text admin_commands (command_of (content_text content)) ≡ true
    → gate_command (some db.user_roles) content (some user) group ≡ (
        if has_admin_privilege db user group
        then pass
        else deny (command_of (content_text content)))
gate-admin_command db content user group h n s a = rw (
  gate_lem (some db.user_roles) content (some user) group,
  s,
  admin_not_filtered _ a,
  a,
  is_admin-has_admin_privilege db user group h n,
)
