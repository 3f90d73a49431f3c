-- ===== src/Cli/Answers.antt =====
-- What an agent is shown: rows of its own group.
use lfontes_nanoclaw.Prelude.{
  ◌===◌, Bool-cases, Option-cases, All, select, select_holds, String, ◌≡◌, refl, sym, ◌∙◌, ◌≢◌, ◌⊎◌,
  inl, inr, true, ◌||◌, not, Option, none, some, arith,
}
use lfontes_nanoclaw.Sessions.{is_truthy}
use lfontes_nanoclaw.Cli.{
  Args, arg_of, is_text, Data, array, row, other, AgentCaller, agent, Request, ok, error, rejected,
  ErrorCode, invalid_args, handler_error, approval_pending, Command,
}
use lfontes_nanoclaw.Cli.Dispatch.{
  DispatchEnv, Scoped, passes, refused, throws, find_command, scope_of, enforce_scope, is_own_row,
  own_data, scope_field_of, filter_data, handled, run_command, needs_approval, ask_approval,
  dispatch_scoped, dispatch,
}

-- Every row carries the group in the resource's scope field.
abbrev pub AreOwn : Option String → String → Data → Type 0
AreOwn none group found = ⊥
AreOwn (some field) group (array rows) =
    All (λ (r : Option Args). is_own_row field group r ≡ true) rows
AreOwn (some field) group (row r) = is_text (arg_of r field) group ≡ true
AreOwn (some field) group other = Unit

ok_injective : (a b : Data) → ok a ≡ ok b → a ≡ b
ok_injective a b e = ground arith

error≢ok : (c : ErrorCode) (d : Data) → error c ≢ ok d
error≢ok c d e = ground arith

rejected≢ok : (d : Data) → rejected ≢ ok d
rejected≢ok d e = ground arith

own_data-AreOwn :
    (field : Option String) (group : String) (found d : Data)
    → own_data field group found ≡ ok d
    → AreOwn field group d
own_data-AreOwn none group found d e = absurd (error≢ok _ d e)
own_data-AreOwn (some field) group (array rows) d e = elim (Bool-cases (field === "")) [
  | inl b ↦ absurd (error≢ok _ d (rw b at e))
  | inr b ↦
      let q = ok_injective (array (select (is_own_row field group) rows)) d (rw b at e) in
      rw (← q) (select_holds (is_own_row field group) rows)
]
own_data-AreOwn (some field) group (row r) d e =
    elim (Bool-cases (field === "" || not (is_text (arg_of r field) group))) [
      | inl b ↦ absurd (error≢ok _ d (rw b at e))
      | inr b ↦
          let q = ok_injective (row r) d (rw b at e) in
          let own : is_text (arg_of r field) group ≡ true = ground arith in rw (← q) own
    ]
own_data-AreOwn (some field) group other d e = elim (Bool-cases (field === "")) [
  | inl b ↦ absurd (error≢ok _ d (rw b at e))
  | inr b ↦ rw (← ok_injective other d (rw b at e)) tt
]

Scoped-cases :
    (s : Scoped)
    → ((args : Args) × (s ≡ passes args)) ⊎ ((c : ErrorCode) × (s ≡ refused c)) ⊎ (s ≡ throws)
Scoped-cases (passes args) = inl (args, refl)
Scoped-cases (refused c) = inr (inl (c, refl))
Scoped-cases throws = inr (inr refl)

module _ {W : Type 0} (env : DispatchEnv W) (ctx : AgentCaller) (cmd : Command W)
    (generic : cmd.generic ≡ true) (resource : is_truthy cmd.resource ≡ true) (d : Data) where
  handled-AreOwn :
      (answer : W × Option Data)
      → scope_of env (handled env cmd (agent ctx) answer).0 ctx.agent_group_id ≡ "group"
      → (handled env cmd (agent ctx) answer).1 ≡ ok d
      → AreOwn (scope_field_of env cmd.resource) ctx.agent_group_id d
  unfolding filter_data
  handled-AreOwn (w, none) s e = absurd (error≢ok _ d e)
  handled-AreOwn (w, some found) s e =
      own_data-AreOwn (scope_field_of env cmd.resource) ctx.agent_group_id found d
        (sym (rw (filter_data, generic, resource, s) refl) ∙ e)

  run_command-AreOwn :
      (w : W) (args : Args)
      → scope_of env (run_command env w cmd args (agent ctx)).0 ctx.agent_group_id ≡ "group"
      → (run_command env w cmd args (agent ctx)).1 ≡ ok d
      → AreOwn (scope_field_of env cmd.resource) ctx.agent_group_id d
  unfolding run_command
  run_command-AreOwn w args s e = elim (Option-cases (cmd.parse_args args)) [
    | inl n ↦ absurd (error≢ok invalid_args d (rw (run_command, n) at e))
    | inr (parsed, k) ↦
        handled-AreOwn (cmd.handler w parsed (agent ctx)) (rw (run_command, k) at s)
          (rw (run_command, k) at e)
  ]

  ask_approval-refused : (w : W) (req : Request) → (ask_approval env w ctx req).1 ≢ ok d
  unfolding ask_approval
  ask_approval-refused w req e = elim (Option-cases (env.session_group w ctx.session_id)) [
    | inl n ↦ error≢ok handler_error d (rw (ask_approval, n) at e)
    | inr (g, k) ↦ elim (Bool-cases (env.request_approval w ctx req).1) [
      | inl b ↦ error≢ok approval_pending d (rw (ask_approval, k, b) at e)
      | inr b ↦ rejected≢ok d (rw (ask_approval, k, b) at e)
    ]
  ]

  dispatch_scoped-AreOwn :
      (w : W) (req : Request) (args : Args)
      → scope_of env (dispatch_scoped env w cmd req (agent ctx) args).0 ctx.agent_group_id ≡ "group"
      → (dispatch_scoped env w cmd req (agent ctx) args).1 ≡ ok d
      → AreOwn (scope_field_of env cmd.resource) ctx.agent_group_id d
  unfolding dispatch_scoped
  dispatch_scoped-AreOwn w req args s e =
      elim (Bool-cases (needs_approval (agent ctx) cmd.access)) [
        | inl b ↦
            absurd
              (ask_approval-refused w (record req { args = args }) (rw (dispatch_scoped, b) at e))
        | inr b ↦
            run_command-AreOwn w args (rw (dispatch_scoped, b) at s) (rw (dispatch_scoped, b) at e)
      ]

  dispatch-AreOwn_found :
      (w : W) (req found : Request)
      → find_command env req ≡ some (cmd, found)
      → scope_of env (dispatch env w req (agent ctx)).0 ctx.agent_group_id ≡ "group"
      → (dispatch env w req (agent ctx)).1 ≡ ok d
      → AreOwn (scope_field_of env cmd.resource) ctx.agent_group_id d
  unfolding dispatch
  dispatch-AreOwn_found w req found k s e =
      elim (Scoped-cases (enforce_scope env w cmd found (agent ctx))) [
        | inl (args, p) ↦
            dispatch_scoped-AreOwn w found args (rw (dispatch, k, p) at s)
              (rw (dispatch, k, p) at e)
        | inr (inl (c, p)) ↦ absurd (error≢ok c d (rw (dispatch, k, p) at e))
        | inr (inr p) ↦ absurd (rejected≢ok d (rw (dispatch, k, p) at e))
      ]

-- Whatever an agent asks for and whatever is in the database: what a generic list or get command
-- answers it, where its scope is its group when the handler has run, are rows with its own group in
-- the resource's scope field (and no answer comes where the resource has none).
pub dispatch-AreOwn :
    {W : Type 0} (env : DispatchEnv W) (w : W) (req found : Request) (ctx : AgentCaller)
    (cmd : Command W) (d : Data)
    → find_command env req ≡ some (cmd, found)
    → cmd.generic ≡ true
    → is_truthy cmd.resource ≡ true
    → scope_of env (dispatch env w req (agent ctx)).0 ctx.agent_group_id ≡ "group"
    → (dispatch env w req (agent ctx)).1 ≡ ok d
    → AreOwn (scope_field_of env cmd.resource) ctx.agent_group_id d
dispatch-AreOwn env w req found ctx cmd d k generic resource s e =
    dispatch-AreOwn_found env ctx cmd generic resource d w req found k s e
