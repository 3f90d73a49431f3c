-- ===== src/Cli/Scope.antt =====
-- What the group scope of an agent promises, and how a spelling gets around it.
use lfontes_nanoclaw.Prelude.{
  ==_iff, ◌⊎◌, false, none, ◌===◌, if◌then◌else◌, ===_iff, ===_refl, Bool-cases, String, ◌≡◌, refl,
  sym, ap, ◌∙◌, ◌≢◌, inl, inr, Bool, true, ◌&&◌, ◌||◌, not, Option, some, [], ◌∷◌, arith,
}
use lfontes_nanoclaw.Cli.{
  Value, undefined, null, object, flag, text, number, Args, arg_of, put_arg, put_args, is_true,
  is_undefined, is_text, or_value, ErrorCode, forbidden, normalize_args, AgentCaller, agent,
  Request, Command,
}
use lfontes_nanoclaw.Cli.Dispatch.{
  DispatchEnv, Scoped, passes, refused, throws, is_own, is_whitelisted, has_group_id, or_true, fill,
  is_scoped, check_session, gets_session, scope_filled, scope_args, scope_of, enforce_scope,
}

pub arg_of-put_arg :
    (args : Args) (k j : String) (v : Value)
    → arg_of (put_arg args k v) j ≡ (if k === j then v else arg_of args j)
unfolding arg_of put_arg
arg_of-put_arg [] k j v = refl
arg_of-put_arg ((i, x) ∷ args) k j v =
    ground (arith, ===_iff k j, ===_iff i k, ===_iff i j, arg_of-put_arg args k j v)

abbrev IsOwn : Value → String → Type 0
IsOwn v group = (not (is_true v) || is_text v group) ≡ true

filled-IsOwn : (v : Value) (group : String) → IsOwn v group → IsOwn (or_value v (text group)) group
filled-IsOwn undefined group h = rw (===_refl group) (ground arith)
filled-IsOwn null group h = rw (===_refl group) (ground arith)
filled-IsOwn object group h = h
filled-IsOwn (text s) group h = h
filled-IsOwn (number n) group h = h
filled-IsOwn (flag b) group h = h

abbrev PassesTests : Option String → Args → String → Type 0
PassesTests resource args group =
    (is_own args "agent_group_id" group ≡ true)
    × (is_own args "group" group ≡ true)
    × ((not (has_group_id resource) || is_own args "id" group) ≡ true)

-- A value that is the group, or that JavaScript takes for no value.
abbrev pub NamesNoOther : Value → String → Type 0
NamesNoOther undefined group = Unit
NamesNoOther null group = Unit
NamesNoOther object group = ⊥
NamesNoOther (text s) group = (s ≡ group) ⊎ (s ≡ "")
NamesNoOther (number n) group = n ≡ 0
NamesNoOther (flag b) group = b ≡ false

own_names :
    (v : Value) (group : String)
    → (not (is_true v) || is_text v group) ≡ true
    → NamesNoOther v group
own_names undefined group h = tt
own_names null group h = tt
own_names object group h = ground arith
own_names (text s) group h = elim (Bool-cases (s === group)) [
  | inl k ↦ inl ((===_iff s group).0 k)
  | inr k ↦ inr ((===_iff s "").0 (ground arith))
]
own_names (number n) group h = (==_iff n 0).0 (ground arith)
own_names (flag b) group h = ground arith

-- The argument `id` of a command that takes the id of an agent group there.
abbrev pub id_of : Option String → Args → Value
id_of none args = undefined
id_of (some resource) args =
    if resource === "groups" || resource === "destinations" then arg_of args "id" else undefined

-- The arguments `agent_group_id` and `group` name no other group, and neither does `id` where the
-- resource is groups or destinations.
abbrev pub IsPinned : Option String → Args → String → Type 0
IsPinned resource args group =
    NamesNoOther (arg_of args "agent_group_id") group
    × NamesNoOther (arg_of args "group") group
    × NamesNoOther (id_of resource args) group

own_id :
    (resource : Option String) (args : Args) (group : String)
    → (not (has_group_id resource) || is_own args "id" group) ≡ true
    → NamesNoOther (id_of resource args) group
own_id none args group h = tt
own_id (some resource) args group h =
    elim (Bool-cases (resource === "groups" || resource === "destinations")) [
      | inl b ↦ rw b (own_names (arg_of args "id") group (rw b at h))
      | inr b ↦ rw b tt
    ]

not_sessions :
    (resource : String) → has_group_id (some resource) ≡ true → (resource === "sessions") ≡ false
not_sessions resource h = elim (Bool-cases (resource === "groups")) [
  | inl k ↦ rw ((===_iff resource "groups").0 k) refl
  | inr k ↦ rw ((===_iff resource "destinations").0 (rw k at h)) refl
]

PassesTests-IsPinned :
    (resource : Option String) (args : Args) (group : String)
    → PassesTests resource args group
    → IsPinned resource args group
PassesTests-IsPinned resource args group h = (
  own_names (arg_of args "agent_group_id") group h.0,
  own_names (arg_of args "group") group h.1,
  own_id resource args group h.2,
)

three_of_six :
    (a b c d e f : Bool)
    → (a && b && c && d && e && f) ≡ true
    → (b ≡ true) × (c ≡ true) × (d ≡ true)
three_of_six a b c d e f h = ground arith

fill-PassesTests :
    (resource : Option String) (args : Args) (group : String)
    → is_scoped resource args group ≡ true
    → PassesTests resource (put_args args (fill resource args group)) group
unfolding fill put_args
fill-PassesTests resource args group h =
    let a = or_value (arg_of args "agent_group_id") (text group) in
    let g = or_value (arg_of args "group") (text group) in
    let i = or_value (arg_of args "id") (text group) in
    let (pa, pg, pi) =
      three_of_six (or_true resource is_whitelisted) _ _
        (not (has_group_id resource) || is_own args "id" group)
        (is_undefined (arg_of args "cli_scope")) (is_undefined (arg_of args "cli-scope")) h in
    let own_a = filled-IsOwn (arg_of args "agent_group_id") group pa in
    let own_g = filled-IsOwn (arg_of args "group") group pg in
    let args' = put_arg args "agent_group_id" a in
    let args'' = put_arg args' "group" g in
    elim (Bool-cases (has_group_id resource)) [
      | inl b ↦
          let own_i = filled-IsOwn (arg_of args "id") group (rw b at pi) in
          rw
            (
              b,
              arg_of-put_arg args'' "id" "agent_group_id" i,
              arg_of-put_arg args'' "id" "group" i,
              arg_of-put_arg args'' "id" "id" i,
              arg_of-put_arg args' "group" "agent_group_id" g,
              arg_of-put_arg args' "group" "group" g,
              arg_of-put_arg args "agent_group_id" "agent_group_id" a,
            )
            (own_a, own_g, own_i)
      | inr b ↦
          rw
            (
              b,
              arg_of-put_arg args' "group" "agent_group_id" g,
              arg_of-put_arg args' "group" "group" g,
              arg_of-put_arg args "agent_group_id" "agent_group_id" a,
            )
            (own_a, own_g, refl)
    ]

passes_inj : (a b : Args) → passes a ≡ passes b → a ≡ b
passes_inj a b e = ap args_of e
  where
    args_of : Scoped → Args
    args_of (passes c) = c
    args_of (refused c) = a
    args_of throws = a

refused≢passes : (c : ErrorCode) (a : Args) → refused c ≢ passes a
refused≢passes c a e = ground arith

module _ {W : Type 0} (env : DispatchEnv W) (w : W) where
  check_session-args :
      (args args' : Args) (v : Value) (group : String)
      → check_session env w args v group ≡ passes args'
      → args ≡ args'
  check_session-args args args' (text s) group e = ground (arith, passes_inj args args')
  check_session-args args args' undefined group e = ground arith
  check_session-args args args' null group e = ground arith
  check_session-args args args' object group e = ground arith
  check_session-args args args' (number n) group e = ground arith
  check_session-args args args' (flag b) group e = ground arith

  scope_filled-args :
      (cmd : Command W) (req : Request) (group : String) (args args' : Args)
      → scope_filled env w cmd req group args ≡ passes args'
      → args ≡ args'
  unfolding scope_filled
  scope_filled-args cmd req group args args' e = elim (Bool-cases (gets_session cmd req args)) [
    | inl b ↦
        check_session-args args args' (arg_of args "id") group (sym (rw (scope_filled, b) refl) ∙ e)
    | inr b ↦ passes_inj args args' (sym (rw (scope_filled, b) refl) ∙ e)
  ]

  scope_args-IsPinned :
      (cmd : Command W) (req : Request) (group : String) (args : Args)
      → scope_args env w cmd req group ≡ passes args
      → IsPinned cmd.resource args group
  unfolding scope_args
  scope_args-IsPinned cmd req group args e =
      elim (Bool-cases (is_scoped cmd.resource req.args group)) [
        | inl b ↦
            rw
              (← scope_filled-args cmd req group
                (put_args req.args (fill cmd.resource req.args group)) args
                (sym (rw (scope_args, b) refl) ∙ e))
              (PassesTests-IsPinned cmd.resource
                (put_args req.args (fill cmd.resource req.args group)) group
                (fill-PassesTests cmd.resource req.args group b))
        | inr b ↦ absurd (refused≢passes forbidden args (sym (rw (scope_args, b) refl) ∙ e))
      ]

  -- Whatever an agent whose scope is its group asks for: of what passes the enforcement, the
  -- arguments that are spelled `agent_group_id` and `group` are the agent's own group or empty, and
  -- so is `id` where the command is one of groups or destinations. Other spellings of these names
  -- are not looked at.
  pub enforce_scope-IsPinned :
      (cmd : Command W) (req : Request) (ctx : AgentCaller) (args : Args)
      → scope_of env w ctx.agent_group_id ≡ "group"
      → enforce_scope env w cmd req (agent ctx) ≡ passes args
      → IsPinned cmd.resource args ctx.agent_group_id
  unfolding enforce_scope
  enforce_scope-IsPinned cmd req ctx args s e =
      scope_args-IsPinned cmd req ctx.agent_group_id args (sym (rw (enforce_scope, s) refl) ∙ e)

  -- The pinning holds for the names as they are spelled. For a command of a resource that a group
  -- scope may use (groups, sessions, destinations, members): an agent whose two arguments are its
  -- own group as `agent_group_id` and behind it any other as `agent-group-id` passes, and the parser
  -- of the registered commands, which folds the spellings, then takes the other one.
  pub normalize_args-unpins :
      (cmd : Command W) (req : Request) (ctx : AgentCaller) (resource another : String)
      → scope_of env w ctx.agent_group_id ≡ "group"
      → cmd.resource ≡ some resource
      → is_whitelisted resource ≡ true
      → req.args
        ≡ ("agent_group_id", text ctx.agent_group_id) ∷ ("agent-group-id", text another) ∷ []
      → (args : Args) × (enforce_scope env w cmd req (agent ctx) ≡ passes args)
        × (arg_of (normalize_args args) "agent_group_id" ≡ text another)
  unfolding enforce_scope scope_args scope_filled normalize_args arg_of put_args fill
  normalize_args-unpins cmd req ctx resource another s r allowed q =
      elim (Bool-cases (has_group_id (some resource))) [
        | inl b ↦ (
          ("agent_group_id", text ctx.agent_group_id)
              ∷ ("agent-group-id", text another)
              ∷ ("group", text ctx.agent_group_id)
              ∷ ("id", text ctx.agent_group_id)
              ∷ [],
          rw
              (
                enforce_scope,
                s,
                scope_args,
                r,
                q,
                allowed,
                b,
                not_sessions resource b,
                ===_refl ctx.agent_group_id,
              )
              (ground arith),
          refl,
        )
        | inr b ↦ (
          ("agent_group_id", text ctx.agent_group_id)
              ∷ ("agent-group-id", text another)
              ∷ ("group", text ctx.agent_group_id)
              ∷ [],
          rw (enforce_scope, s, scope_args, r, q, allowed, b, ===_refl ctx.agent_group_id)
              (ground arith),
          refl,
        )
      ]
