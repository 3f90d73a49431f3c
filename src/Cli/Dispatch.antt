-- ===== src/Cli/Dispatch.antt =====
-- The dispatcher of the command line (`src/cli/dispatch.ts`).
use Prim.Native.Char.{code}
use lfontes_nanoclaw.Prelude.{
  ◌==◌, ◌===◌, if◌then◌else◌, opt_eq, or_else, select, String, Bool, true, false, ◌&&◌, ◌||◌, not,
  Option, none, some, List, [], ◌∷◌, ◌++◌,
}
use lfontes_nanoclaw.Sessions.{is_truthy}
use lfontes_nanoclaw.Cli.{
  Value, object, flag, text, Args, arg_of, put_args, is_true, is_undefined, is_text, or_value,
  Access, approval, ErrorCode, unknown_command, invalid_args, forbidden, approval_pending,
  handler_error, Data, array, row, other, AgentCaller, Caller, host, agent, Request, Response, ok,
  error, rejected, Command, lookup,
}

-- The parameters: the registry, `getContainerConfig(id)?.cli_scope`, the agent group of a session,
-- `requestApproval` (`false` where it throws), and `getResource(resource)?.scopeField`.
pub record DispatchEnv (W : Type 0) : Type 0 where
  pub registry : List (Command W)
  pub cli_scope : W → String → Option String
  pub session_group : W → String → Option String
  pub request_approval : W → AgentCaller → Request → W × Bool
  pub scope_field : String → Option String

-- What stands before and behind the last '-' of a text.
unfoldable pub split_last_dash : String → Option (String × String)
split_last_dash String.[] = none
split_last_dash (String.◌∷◌ c s) = elim (split_last_dash s) [
  | some p ↦ some (String.◌∷◌ c p.0, p.1)
  | none ↦ if code c == b'-' then some (String.[], s) else none
]

-- Whether a request may go on, and with what arguments.
pub data Scoped : Type 0 where
  passes : Args → Scoped
  refused : ErrorCode → Scoped
  throws : Scoped

abbrev pub is_own : Args → String → String → Bool
is_own args key group = not (is_true (arg_of args key)) || is_text (arg_of args key) group

abbrev pub is_whitelisted : String → Bool
is_whitelisted r = r === "groups" || r === "sessions" || r === "destinations" || r === "members"

-- The resources whose id is the agent group's.
abbrev pub has_group_id : Option String → Bool
has_group_id none = false
has_group_id (some r) = r === "groups" || r === "destinations"

abbrev pub or_true : Option String → (String → Bool) → Bool
or_true none p = true
or_true (some r) p = r === "" || p r

unfoldable pub fill : Option String → Args → String → Args
unfolding arg_of
fill resource args group =
    let scoped =
      ("agent_group_id", or_value (arg_of args "agent_group_id") (text group))
      ∷ ("group", or_value (arg_of args "group") (text group))
      ∷ [] in
    if has_group_id resource
    then scoped ++ ("id", or_value (arg_of args "id") (text group)) ∷ []
    else scoped

-- The checks on the arguments of an agent whose scope is its group.
abbrev pub is_scoped : Option String → Args → String → Bool
is_scoped resource args group =
    or_true resource is_whitelisted
    && is_own args "agent_group_id" group
    && is_own args "group" group
    && (not (has_group_id resource) || is_own args "id" group)
    && is_undefined (arg_of args "cli_scope")
    && is_undefined (arg_of args "cli-scope")

abbrev pub is_own_row : String → String → Option Args → Bool
is_own_row field group none = false
is_own_row field group (some r) = is_text (arg_of r field) group

abbrev pub own_data : Option String → String → Data → Response
own_data none group found_data = error forbidden
own_data (some field) group (array rows) =
    if field === "" then error forbidden else ok (array (select (is_own_row field group) rows))
own_data (some field) group (row r) =
    if field === "" || not (is_text (arg_of r field) group) then error forbidden else ok (row r)
own_data (some field) group other = if field === "" then error forbidden else ok other

abbrev pub needs_approval : Caller → Access → Bool
needs_approval (agent ctx) approval = true
needs_approval _ _ = false

module _ {W : Type 0} where
  -- The registered command, or that of the text before the last '-' with the rest as its id.
  abbrev pub shortened :
      DispatchEnv W → Request → Option (String × String) → Option (Command W × Request)
  shortened env req none = none
  shortened env req (some (before, tail)) =
      if before === "" then none else elim (lookup env.registry before) [
        | none ↦ none
        | some cmd ↦ some (
          cmd,
          record req {
            command = before;
            args = put_args req.args (("id", or_value (arg_of req.args "id") (text tail)) ∷ []);
          },
        )
      ]

  unfoldable pub find_command : DispatchEnv W → Request → Option (Command W × Request)
  unfolding lookup split_last_dash arg_of put_args
  find_command env req = elim (lookup env.registry req.command) [
    | some cmd ↦ some (cmd, req)
    | none ↦ shortened env req (split_last_dash req.command)
  ]

  -- `getSession(id)` and its agent group: no id is a number, and the other values cannot be bound.
  abbrev pub check_session : DispatchEnv W → W → Args → Value → String → Scoped
  check_session env w args (text id) group =
      if opt_eq (env.session_group w id) (some group) then passes args else refused handler_error
  check_session env w args (flag b) group = throws
  check_session env w args object group = throws
  check_session env w args _ group = refused handler_error

  abbrev pub gets_session : Command W → Request → Args → Bool
  gets_session cmd req args =
      opt_eq cmd.resource (some "sessions")
      && req.command === "sessions-get"
      && is_true (arg_of args "id")

  -- `sessions-get` of a session of another group answers as for one that does not exist.
  unfoldable pub scope_filled : DispatchEnv W → W → Command W → Request → String → Args → Scoped
  unfolding arg_of
  scope_filled env w cmd req group args =
      if gets_session cmd req args
      then check_session env w args (arg_of args "id") group
      else passes args

  unfoldable pub scope_args : DispatchEnv W → W → Command W → Request → String → Scoped
  unfolding arg_of put_args fill scope_filled
  scope_args env w cmd req group =
      if is_scoped cmd.resource req.args group
      then scope_filled env w cmd req group (put_args req.args (fill cmd.resource req.args group))
      else refused forbidden

  abbrev pub scope_of : DispatchEnv W → W → String → String
  scope_of env w group = or_else (env.cli_scope w group) "group"

  -- The enforcement for agent callers.
  unfoldable pub enforce_scope : DispatchEnv W → W → Command W → Request → Caller → Scoped
  unfolding scope_args
  enforce_scope env w cmd req host = passes req.args
  enforce_scope env w cmd req (agent ctx) =
      let scope = scope_of env w ctx.agent_group_id in
      if scope === "disabled"
      then refused forbidden
      else if scope === "group"
      then scope_args env w cmd req ctx.agent_group_id
      else passes req.args

  abbrev pub scope_field_of : DispatchEnv W → Option String → Option String
  scope_field_of env none = none
  scope_field_of env (some resource) = env.scope_field resource

  -- What an agent gets of the data of a generic handler.
  unfoldable pub filter_data : DispatchEnv W → W → Command W → Caller → Data → Response
  unfolding select arg_of
  filter_data env w cmd host found_data = ok found_data
  filter_data env w cmd (agent ctx) found_data =
      if is_truthy cmd.resource && cmd.generic && scope_of env w ctx.agent_group_id === "group"
      then own_data (scope_field_of env cmd.resource) ctx.agent_group_id found_data
      else ok found_data

  abbrev pub handled : DispatchEnv W → Command W → Caller → W × Option Data → W × Response
  handled env cmd caller (w, none) = (w, error handler_error)
  handled env cmd caller (w, some found_data) = (w, filter_data env w cmd caller found_data)

  unfoldable pub run_command : DispatchEnv W → W → Command W → Args → Caller → W × Response
  unfolding filter_data
  run_command env w cmd args caller = elim (cmd.parse_args args) [
    | none ↦ (w, error invalid_args)
    | some parsed ↦ handled env cmd caller (cmd.handler w parsed caller)
  ]

  -- A command that wants an approval is not run for an agent.
  unfoldable pub ask_approval : DispatchEnv W → W → AgentCaller → Request → W × Response
  ask_approval env w ctx req = elim (env.session_group w ctx.session_id) [
    | none ↦ (w, error handler_error)
    | some group ↦
        let asked = env.request_approval w ctx req in
        (asked.0, if asked.1 then error approval_pending else rejected)
  ]

  unfoldable pub dispatch_scoped :
      DispatchEnv W → W → Command W → Request → Caller → Args → W × Response
  unfolding ask_approval run_command
  dispatch_scoped env w cmd req (agent ctx) args =
      if needs_approval (agent ctx) cmd.access
      then ask_approval env w ctx (record req { args = args })
      else run_command env w cmd args (agent ctx)
  dispatch_scoped env w cmd req host args = run_command env w cmd args host

  unfoldable pub dispatch : DispatchEnv W → W → Request → Caller → W × Response
  unfolding find_command enforce_scope dispatch_scoped
  dispatch env w req caller = elim (find_command env req) [
    | none ↦ (w, error unknown_command)
    | some found ↦ elim (enforce_scope env w found.0 found.1 caller) [
      | refused e ↦ (w, error e)
      | throws ↦ (w, rejected)
      | passes args ↦ dispatch_scoped env w found.0 found.1 caller args
    ]
  ]
