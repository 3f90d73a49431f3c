-- ===== src/Tests/Cli.antt =====
-- A registry with the destinations and sessions, and requests of an agent of one group.
use lfontes_nanoclaw.Prelude.{
  ◌===◌, first, String, ◌≡◌, refl, Bool, true, false, none, some, [], ◌∷◌,
}
use lfontes_nanoclaw.Cli.{
  Value, undefined, text, Args, arg_of, put_arg, normalize_args, open_access, approval, array,
  AgentCaller, agent, Request, Command,
}
use lfontes_nanoclaw.Cli.Crud.{
  ColumnDef, string_type, Store, ResourceDef, CrudEnv, table_of, generic_list, generic_update,
}
use lfontes_nanoclaw.Cli.Resource.{register_resource, command_of}
use lfontes_nanoclaw.Cli.Dispatch.{DispatchEnv, passes, enforce_scope, dispatch}
use lfontes_nanoclaw.Cli.Scope.{IsPinned, enforce_scope-IsPinned, normalize_args-unpins}
use lfontes_nanoclaw.Cli.Answers.{AreOwn, dispatch-AreOwn}
use lfontes_nanoclaw.Cli.Update.{Spares, generic_update-Spares}

abbrev column_def : String → Bool → ColumnDef
column_def name updatable = record {
  name = name;
  type = string_type;
  generated = false;
  required = true;
  updatable = updatable;
  default = undefined;
  enum = none;
}

abbrev sessions_def : ResourceDef
sessions_def = record {
  name = "session";
  plural = "sessions";
  table = "sessions";
  id_column = "id";
  scope_field = some "agent_group_id";
  columns =
      column_def "id" false ∷ column_def "agent_group_id" false ∷ column_def "status" true ∷ [];
  operations = record {
    list = some open_access;
    get = none;
    create = none;
    update = some approval;
    delete = none;
  };
  custom_operations = [];
}

abbrev same_text : Value → Value → Bool
same_text (text a) (text b) = a === b
same_text _ _ = false

abbrev crud : CrudEnv
crud = record {
  uuid = "u-1";
  now = "now";
  to_number = λ v. v;
  to_string = λ v. "";
  sql_eq = same_text;
  limit = λ v. some 10;
  with_defaults = λ t r. r;
  accepts = λ s. true;
}

abbrev session_row : String → String → Args
session_row id group =
    ("id", text id) ∷ ("agent_group_id", text group) ∷ ("status", text "active") ∷ []

abbrev store : Store
store = ("sessions", session_row "s-1" "ag-1" ∷ session_row "s-2" "ag-2" ∷ []) ∷ []

abbrev list_sessions : Command Store
list_sessions =
    command_of sessions_def "list" open_access true
      (λ s args caller. generic_list crud sessions_def s args)

abbrev env : DispatchEnv Store
env = record {
  registry = list_sessions ∷ [];
  cli_scope = λ s group. none;
  session_group = λ s id. some "ag-1";
  request_approval = λ s ctx req. (s, true);
  scope_field = λ r. some "agent_group_id";
}

abbrev caller : AgentCaller
caller = record { session_id = "s-1"; agent_group_id = "ag-1"; messaging_group_id = "mg-1" }

-- The list asks for nothing, and is filled in with the agent's group.
abbrev list_request : Request
list_request = record { id = "r-1"; command = "sessions-list"; args = [] }

registered :
    register_resource crud sessions_def []
    ≡ some (
        list_sessions
        ∷ command_of sessions_def "update" approval false
            (λ s args caller. generic_update crud sessions_def s args)
        ∷ [])
unfolding register_resource
registered = refl

dispatch-AreOwn_example :
    AreOwn (some "agent_group_id") "ag-1" (array (some (session_row "s-1" "ag-1") ∷ []))
unfolding dispatch first generic_list normalize_args
dispatch-AreOwn_example =
    dispatch-AreOwn env store list_request list_request caller list_sessions
      (array (some (session_row "s-1" "ag-1") ∷ [])) refl refl refl refl refl

enforce_scope-IsPinned_example :
    IsPinned
      (some "sessions")
      (("agent_group_id", text "ag-1") ∷ ("group", text "ag-1") ∷ [])
      "ag-1"
unfolding enforce_scope
enforce_scope-IsPinned_example =
    enforce_scope-IsPinned env store list_sessions list_request caller
      (("agent_group_id", text "ag-1") ∷ ("group", text "ag-1") ∷ []) refl refl

abbrev add_destination : Command Store
add_destination = record list_sessions {
  name = "destinations-add";
  resource = some "destinations";
  generic = false;
  access = approval;
}

abbrev two_spellings : Request
two_spellings = record {
  id = "r-2";
  command = "destinations-add";
  args = ("agent_group_id", text "ag-1") ∷ ("agent-group-id", text "ag-2") ∷ [];
}

normalize_args-unpins_example :
    (args : Args) × (enforce_scope env store add_destination two_spellings (agent caller)
      ≡ passes args)
    × (arg_of (normalize_args args) "agent_group_id" ≡ text "ag-2")
normalize_args-unpins_example =
    normalize_args-unpins env store add_destination two_spellings caller "destinations" "ag-2" refl
      refl refl refl

abbrev close_session : Args
close_session =
    ("id", text "s-1") ∷ ("status", text "closed") ∷ ("agent_group_id", text "ag-2") ∷ []

closed_status :
    table_of (generic_update crud sessions_def store close_session).0 "sessions"
    ≡ put_arg (session_row "s-1" "ag-1") "status" (text "closed") ∷ session_row "s-2" "ag-2" ∷ []
unfolding generic_update
closed_status = refl

generic_update-Spares_example :
    Spares crud sessions_def store close_session "agent_group_id"
      (generic_update crud sessions_def store close_session).0
generic_update-Spares_example =
    generic_update-Spares crud sessions_def store close_session "agent_group_id" refl refl
