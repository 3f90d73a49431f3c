-- ===== src/Cli/Resource.antt =====
-- The registration of a resource's commands (`registerResource` of `src/cli/crud.ts`).
use Prim.Native.Char.{code}
use Prim.Native.String.{◌++◌ as string_append}
use lfontes_nanoclaw.Prelude.{
  ◌==◌, if◌then◌else◌, String, Bool, true, false, Option, none, some, List, [], ◌∷◌,
}
use lfontes_nanoclaw.Cli.{Args, normalize_args, Access, Data, Caller, Command, register}
use lfontes_nanoclaw.Cli.Crud.{
  Store, CustomOperation, ResourceDef, CrudEnv, generic_list, generic_get, generic_create,
  generic_update, generic_delete,
}

abbrev pub command_name : String → String → String
command_name plural verb = string_append plural (string_append "-" verb)

-- `verb.replace(/ /g, '-')`
unfoldable pub dashed : String → String
dashed String.[] = String.[]
dashed (String.◌∷◌ c s) = String.◌∷◌ (if code c == b' ' then "-" else c) (dashed s)

abbrev pub command_of :
    ResourceDef
    → String
    → Access
    → Bool
    → (Store → Args → Caller → Store × Option Data)
    → Command Store
command_of def verb access generic handler = record {
  name = command_name def.plural verb;
  access = access;
  resource = some def.plural;
  generic = generic;
  parse_args = λ raw. some (normalize_args raw);
  handler = handler;
}

-- A standard operation, where it is enabled.
abbrev pub register_if :
    ResourceDef
    → String
    → Bool
    → (Store → Args → Store × Option Data)
    → Option Access
    → Option (List (Command Store))
    → Option (List (Command Store))
register_if def verb generic handler access none = none
register_if def verb generic handler none (some registry) = some registry
register_if def verb generic handler (some access) (some registry) =
    register registry (command_of def verb access generic (λ store args caller. handler store args))

unfoldable pub register_custom :
    ResourceDef
    → List (String × CustomOperation)
    → Option (List (Command Store))
    → Option (List (Command Store))
unfolding register dashed normalize_args
register_custom def [] registry = registry
register_custom def ((verb, op) ∷ ops) none = none
register_custom def ((verb, op) ∷ ops) (some registry) =
    register_custom def ops
      (register registry (command_of def (dashed verb) op.access false op.handler))

-- `none` where a name is taken, which throws.
unfoldable pub register_resource :
    CrudEnv → ResourceDef → List (Command Store) → Option (List (Command Store))
unfolding register register_custom generic_list generic_get generic_create generic_update
    generic_delete normalize_args
register_resource env def registry =
    let o = def.operations in
    let listed = register_if def "list" true (generic_list env def) o.list (some registry) in
    let got = register_if def "get" true (generic_get env def) o.get listed in
    let created = register_if def "create" false (generic_create env def) o.create got in
    let updated = register_if def "update" false (generic_update env def) o.update created in
    let deleted = register_if def "delete" false (generic_delete env def) o.delete updated in
    register_custom def def.custom_operations deleted
