-- ===== src/Cli/Crud.antt =====
-- The generic commands on a table (`src/cli/crud.ts`). A row is its columns and values; a statement
-- that SQLite refuses throws.
use lfontes_nanoclaw.Prelude.{
  ◌===◌, if◌then◌else◌, take, any, all, select, first, update, delete, ℕ, String, Bool, true, false,
  ◌&&◌, ◌||◌, not, Option, none, some, List, [], ◌∷◌, ◌++◌, map, reverse,
}
use lfontes_nanoclaw.Text.{codes, starts_with}
use lfontes_nanoclaw.Cli.{
  Value, undefined, object, text, flag, Args, arg_of, put_arg, put_args, is_true, is_undefined,
  Access, Data, array, row, other, Caller,
}

pub data ColumnType : Type 0 where
  string_type number_type boolean_type json_type : ColumnType

pub record ColumnDef : Type 0 where
  pub name : String
  pub type : ColumnType
  pub generated : Bool
  pub required : Bool
  pub updatable : Bool
  pub default : Value
  pub enum : Option (List String)

-- The tables by their names.
abbrev pub Store : Type 0
Store = List (String × List Args)

pub record CustomOperation : Type 0 where
  pub access : Access
  pub handler : Store → Args → Caller → Store × Option Data

pub record Operations : Type 0 where
  pub list : Option Access
  pub get : Option Access
  pub create : Option Access
  pub update : Option Access
  pub delete : Option Access

pub record ResourceDef : Type 0 where
  pub name : String
  pub plural : String
  pub table : String
  pub id_column : String
  pub scope_field : Option String
  pub columns : List ColumnDef
  pub operations : Operations
  pub custom_operations : List (String × CustomOperation)

-- The parameters: the generated id and the clock as text, `Number(v)`, `String(v)`, and SQLite: its
-- `=`, the number of a LIMIT (`none`: refused), the defaults of a table, and its constraints.
pub record CrudEnv : Type 0 where
  pub uuid : String
  pub now : String
  pub to_number : Value → Value
  pub to_string : Value → String
  pub sql_eq : Value → Value → Bool
  pub limit : Value → Option ℕ
  pub with_defaults : String → Args → Args
  pub accepts : Store → Bool

unfoldable pub table_of : Store → String → List Args
table_of [] name = []
table_of ((n, rows) ∷ store) name = if n === name then rows else table_of store name

unfoldable pub put_table : Store → String → List Args → Store
put_table [] name rows = (name, rows) ∷ []
put_table ((n, old) ∷ store) name rows =
    if n === name then (n, rows) ∷ store else (n, old) ∷ put_table store name rows

-- What better-sqlite3 can bind.
abbrev pub is_bindable : Value → Bool
is_bindable undefined = false
is_bindable object = false
is_bindable (flag b) = false
is_bindable _ = true

abbrev pub all_bindable : Args → Bool
all_bindable args = all (λ (p : String × Value). is_bindable p.1) args

unfoldable pub visible_columns : ResourceDef → List String
visible_columns def = map (λ (c : ColumnDef). c.name) def.columns

-- `SELECT cols`
abbrev pub projected : List String → Args → Args
projected cols r = map (λ c. (c, arg_of r c)) cols

abbrev pub is_filter : ResourceDef → String → Bool
is_filter def k =
    not (k === "id" || k === "limit")
    && any (λ (c : ColumnDef). not c.generated && c.name === k) def.columns

abbrev pub filters : ResourceDef → Args → Args
filters def args = select (λ (p : String × Value). is_filter def p.0) args

abbrev pub meets : CrudEnv → Args → Args → Bool
meets env conditions r = all (λ (p : String × Value). env.sql_eq (arg_of r p.0) p.1) conditions

abbrev pub limit_of : CrudEnv → Value → Option ℕ
limit_of env undefined = some 200
limit_of env v = env.limit v

unfoldable pub generic_list : CrudEnv → ResourceDef → Store → Args → Store × Option Data
unfolding visible_columns table_of arg_of select
generic_list env def store args = elim (limit_of env (arg_of args "limit")) [
  | none ↦ (store, none)
  | some n ↦
      if all_bindable (filters def args)
      then (
        store,
        some (
            array (
              map (λ r. some (projected (visible_columns def) r))
                (take n (select (meets env (filters def args)) (table_of store def.table))))),
      )
      else (store, none)
]

abbrev pub has_id : CrudEnv → ResourceDef → Value → Args → Bool
has_id env def id r = env.sql_eq (arg_of r def.id_column) id

-- An id that is given and can be bound.
abbrev pub is_id : Value → Bool
is_id id = is_true id && is_bindable id

abbrev pub answered : ResourceDef → Option Args → Option Data
answered def none = none
answered def (some r) = some (row (projected (map (λ (c : ColumnDef). c.name) def.columns) r))

unfoldable pub generic_get : CrudEnv → ResourceDef → Store → Args → Store × Option Data
unfolding table_of arg_of first
generic_get env def store args =
    let id = arg_of args "id" in
    if is_id id
    then (store, answered def (first (has_id env def id) (table_of store def.table)))
    else (store, none)

abbrev pub in_enum : CrudEnv → Option (List String) → Value → Bool
in_enum env none v = true
in_enum env (some names) v = any (λ s. s === env.to_string v) names

abbrev pub converted : CrudEnv → ColumnType → Value → Value
converted env number_type v = env.to_number v
converted env _ v = v

abbrev pub generated_value : CrudEnv → ResourceDef → ColumnDef → Args → Args
generated_value env def col out =
    if col.name === def.id_column
    then put_arg out col.name (text env.uuid)
    else if starts_with (reverse (codes col.name)) (reverse (codes "_at"))
    then put_arg out col.name (text env.now)
    else out

-- One column of a row to be created; `none` where it throws.
unfoldable pub created_value : CrudEnv → ResourceDef → ColumnDef → Args → Args → Option Args
unfolding put_arg arg_of starts_with
created_value env def col args out =
    let v = arg_of args col.name in
    if col.generated
    then some (generated_value env def col out)
    else if not (is_undefined v)
    then (if in_enum env col.enum v
        then some (put_arg out col.name (converted env col.type v))
        else none)
    else if col.required
    then none
    else if is_undefined col.default
    then some out
    else some (put_arg out col.name col.default)

unfoldable pub created_values : CrudEnv → ResourceDef → List ColumnDef → Args → Args → Option Args
unfolding created_value
created_values env def [] args out = some out
created_values env def (col ∷ cols) args out = elim (created_value env def col args out) [
  | none ↦ none
  | some out' ↦ created_values env def cols args out'
]

-- A change of a table, where the constraints hold afterwards.
abbrev pub stored : CrudEnv → Store → Store → Data → Store × Option Data
stored env store store' found = if env.accepts store' then (store', some found) else (store, none)

unfoldable pub generic_create : CrudEnv → ResourceDef → Store → Args → Store × Option Data
unfolding created_values table_of put_table
generic_create env def store args = elim (created_values env def def.columns args []) [
  | none ↦ (store, none)
  | some values ↦
      if all_bindable values
      then stored env store
          (put_table store def.table
            (table_of store def.table ++ env.with_defaults def.table values ∷ []))
          (row values)
      else (store, none)
]

-- `updates` of `genericUpdate`; `none` where it throws.
unfoldable pub updates_of : CrudEnv → List ColumnDef → Args → Args → Option Args
unfolding put_arg arg_of
updates_of env [] args out = some out
updates_of env (col ∷ cols) args out =
    let v = arg_of args col.name in
    let skipped = updates_of env cols args out in
    let taken = updates_of env cols args (put_arg out col.name (converted env col.type v)) in
    if is_undefined v then skipped else if in_enum env col.enum v then taken else none

abbrev pub updatable_columns : ResourceDef → List ColumnDef
updatable_columns def = select (λ (c : ColumnDef). c.updatable) def.columns

unfoldable pub updated_store : CrudEnv → ResourceDef → Store → Value → Args → Store
unfolding table_of put_table update put_args
updated_store env def store id updates =
    put_table store def.table
      (update (has_id env def id) (λ r. put_args r updates) (table_of store def.table))

abbrev pub is_empty_args : Args → Bool
is_empty_args [] = true
is_empty_args (p ∷ args) = false

-- The row that the last SELECT finds; it may find none where the id itself was changed.
abbrev pub reread : CrudEnv → ResourceDef → Value → Store → Data
reread env def id store = elim (first (has_id env def id) (table_of store def.table)) [
  | none ↦ other
  | some r ↦ row (projected (visible_columns def) r)
]

abbrev pub apply_updates : CrudEnv → ResourceDef → Store → Value → Args → Store × Option Data
apply_updates env def store id updates =
    if is_empty_args updates || not (all_bindable updates)
    then (store, none)
    else if any (has_id env def id) (table_of store def.table)
    then stored env store (updated_store env def store id updates)
        (reread env def id (updated_store env def store id updates))
    else (store, none)

unfoldable pub generic_update : CrudEnv → ResourceDef → Store → Args → Store × Option Data
unfolding updates_of updated_store table_of visible_columns first select arg_of
generic_update env def store args =
    let id = arg_of args "id" in
    if is_true id
    then elim (updates_of env (updatable_columns def) args []) [
      | none ↦ (store, none)
      | some updates ↦
          if is_bindable id then apply_updates env def store id updates else (store, none)
    ]
    else (store, none)

unfoldable pub generic_delete : CrudEnv → ResourceDef → Store → Args → Store × Option Data
unfolding table_of put_table delete
generic_delete env def store args =
    let id = arg_of args "id" in
    if is_id id && any (has_id env def id) (table_of store def.table)
    then stored env store
        (put_table store def.table (delete (has_id env def id) (table_of store def.table)))
        (row (("deleted", id) ∷ []))
    else (store, none)
