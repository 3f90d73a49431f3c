-- ===== src/Cli.antt =====
-- The arguments, commands and answers of the `ncl` command line (`src/cli/frame.ts`,
-- `src/cli/registry.ts`, `normalizeArgs` of `src/cli/crud.ts`).
pub mod Answers
pub mod Crud
pub mod Dispatch
pub mod Requests
pub mod Resource
pub mod Update
pub mod Scope
use Prim.Native.Char.{Char, code}
use lfontes_nanoclaw.Prelude.{
  ltb, leb, ◌==◌, ◌===◌, if◌then◌else◌, ltb→lt, leb→le, ==_iff, ===_iff, ===_refl, Bool-cases,
  Option-cases, &&-true, is_some, opt_eq, opt_eq_refl, opt_eq_iff, or_else, length, take, drop, any,
  all, All, All-imp, All-and, All-append, All-take, length-append, length-take-le, In, All-In,
  In-All, any-In, In-append_left, In-append_right, In-map, select, first, update, delete, max_of,
  insert_by, order_by, All-select, All-delete, All-update, All-insert_by, All-order_by,
  select_holds, In-select, first-In, delete-append, select-delete, select-delete_inside,
  delete_none, any-delete, any-none, delete_fails, le-max_of, any-false, first-some, first-All,
  first_added, some_injective, some≢none, true≢false, first-none, first-none_of,
  select-update_outside, map-update, update_twice, update_clears, select-append, any-append,
  any-update, length-update, update_congr, update_idempotent, select_none, update_union,
  update_same, ℕ, zero, suc, ◌+◌, ◌-◌, ◌*◌, ◌/◌, ◌%◌, ◌^◌, ◌≤◌, ◌<◌, min, max, String, ◌≡◌, refl,
  sym, ap, ◌∙◌, ◌≢◌, ◌↔◌, ◌⊎◌, inl, inr, Bool, true, false, ◌&&◌, ◌||◌, not, Option, none, some,
  List, [], ◌∷◌, ◌++◌, map, reverse, arith,
}

-- A JavaScript value. An object is only told from the others.
pub data Value : Type 0 where
  undefined null object : Value
  text : String → Value
  number : ℕ → Value
  flag : Bool → Value

-- An object with these keys, in the order of insertion.
abbrev pub Args : Type 0
Args = List (String × Value)

-- `args[key]`
unfoldable pub arg_of : Args → String → Value
arg_of [] key = undefined
arg_of ((k, v) ∷ args) key = if k === key then v else arg_of args key

-- `args[key] = value`: a key that is there keeps its place.
unfoldable pub put_arg : Args → String → Value → Args
put_arg [] key value = (key, value) ∷ []
put_arg ((k, v) ∷ args) key value =
    if k === key then (k, value) ∷ args else (k, v) ∷ put_arg args key value

-- `{ ...args, ...fill }`
unfoldable pub put_args : Args → Args → Args
unfolding put_arg
put_args args [] = args
put_args args ((k, v) ∷ fill) = put_args (put_arg args k v) fill

abbrev pub is_true : Value → Bool
is_true undefined = false
is_true null = false
is_true object = true
is_true (text s) = not (s === "")
is_true (number n) = not (n == 0)
is_true (flag b) = b

abbrev pub is_undefined : Value → Bool
is_undefined undefined = true
is_undefined _ = false

-- `value === s`
abbrev pub is_text : Value → String → Bool
is_text (text t) s = t === s
is_text _ s = false

-- `value ?? other`
abbrev pub or_value : Value → Value → Value
or_value undefined other = other
or_value null other = other
or_value value other = value

-- `k.replace(/-/g, '_')`
unfoldable pub underscored : String → String
underscored String.[] = String.[]
underscored (String.◌∷◌ c s) = String.◌∷◌ (if code c == b'-' then "_" else c) (underscored s)

unfoldable pub normalize_from : Args → Args → Args
unfolding put_arg underscored
normalize_from out [] = out
normalize_from out ((k, v) ∷ raw) = normalize_from (put_arg out (underscored k) v) raw

unfoldable pub normalize_args : Args → Args
unfolding normalize_from
normalize_args raw = normalize_from [] raw

pub data Access : Type 0 where
  open_access approval hidden : Access

pub data ErrorCode : Type 0 where
  unknown_command invalid_args permission_denied forbidden approval_pending not_found : ErrorCode
  handler_error transport_error : ErrorCode

-- What a handler returns: an array, whose elements are rows or no objects, a row, or anything else.
pub data Data : Type 0 where
  array : List (Option Args) → Data
  row : Args → Data
  other : Data

pub record AgentCaller : Type 0 where
  pub session_id : String
  pub agent_group_id : String
  pub messaging_group_id : String

pub data Caller : Type 0 where
  host : Caller
  agent : AgentCaller → Caller

pub record Request : Type 0 where
  pub id : String
  pub command : String
  pub args : Args

-- `rejected`: the call threw.
pub data Response : Type 0 where
  ok : Data → Response
  error : ErrorCode → Response
  rejected : Response

-- A command over a state `W`; `none` where parsing or the handler throws.
pub record Command (W : Type 0) : Type 0 where
  pub name : String
  pub access : Access
  pub resource : Option String
  pub generic : Bool
  pub parse_args : Args → Option Args
  pub handler : W → Args → Caller → W × Option Data

module _ {W : Type 0} where
  -- `none` where the name is taken, which throws.
  unfoldable pub register : List (Command W) → Command W → Option (List (Command W))
  register registry def =
      if any (λ (c : Command W). c.name === def.name) registry
      then none
      else some (registry ++ def ∷ [])

  unfoldable pub lookup : List (Command W) → String → Option (Command W)
  lookup registry name = first (λ (c : Command W). c.name === name) registry
