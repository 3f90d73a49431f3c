-- ===== src/PollLoop.antt =====
-- The loop of the agent runner (`container/agent-runner/src/poll-loop.ts`): its state and parameters,
-- the session state (`db/session-state.ts`) and the scripts before tasks (`scheduling/task-script.ts`).
pub mod Answer
pub mod Query
pub mod Round
pub mod Acks
pub mod Kept
pub mod Completed
pub mod Batches
pub mod Progress
pub mod Streak
use lfontes_nanoclaw.Prelude.{
  ltb, leb, ◌==◌, ◌===◌, if◌then◌else◌, ltb→lt, leb→le, ==_iff, ===_iff, ===_refl, Bool-cases,
  Option-cases, &&-true, is_some, opt_eq, opt_eq_refl, opt_eq_iff, or_else, length, take, drop, any,
  all, All, All-imp, All-and, All-append, All-take, length-append, length-take-le, In, All-In,
  In-All, any-In, In-append_left, In-append_right, In-map, select, first, update, delete, max_of,
  insert_by, order_by, All-select, All-delete, All-update, All-insert_by, All-order_by,
  select_holds, In-select, first-In, delete-append, select-delete, select-delete_inside,
  delete_none, any-delete, any-none, delete_fails, le-max_of, any-false, first-some, first-All,
  first_added, some_injective, some≢none, true≢false, first-none, first-none_of,
  select-update_outside, map-update, update_twice, update_clears, select-append, any-append,
  any-update, length-update, update_congr, update_idempotent, select_none, update_union,
  update_same, ℕ, zero, suc, ◌+◌, ◌-◌, ◌*◌, ◌/◌, ◌%◌, ◌^◌, ◌≤◌, ◌<◌, min, max, String, ◌≡◌, refl,
  sym, ap, ◌∙◌, ◌≢◌, ◌↔◌, ◌⊎◌, inl, inr, Bool, true, false, ◌&&◌, ◌||◌, not, Option, none, some,
  List, [], ◌∷◌, ◌++◌, map, reverse, arith,
}
use lfontes_nanoclaw.Text.{Text, Content}
use lfontes_nanoclaw.SessionDb.{MessageIn, InDb, OutDb}
use lfontes_nanoclaw.Container.Commands.{is_chat, is_clear_command}

pub record StateRow : Type 0 where
  pub key : String
  pub value : String

-- What the container writes: outbound.db with its session_state, and the variable of
-- `current-batch.ts`.
pub record Runner : Type 0 where
  pub outbound : OutDb
  pub session_state : List StateRow
  pub current_in_reply_to : Option String

pub data ProviderEvent : Type 0 where
  init : String → ProviderEvent
  result : Option String → ProviderEvent
  error progress activity : ProviderEvent

-- How a poll for follow-ups ends once its scripts have run: the messages are pushed; the query was
-- over by then; the formatting, the push or the acknowledgement of what was pushed throws.
pub data PushEnd : Type 0 where
  pushes query_over : PushEnd
  format_throws push_throws mark_throws : Text → PushEnd

-- How it ends once the messages are claimed: the scripts throw, or they run.
pub data FollowUpEnd : Type 0 where
  script_throws : Text → FollowUpEnd
  scripts_run : PushEnd → FollowUpEnd

-- What happens while a query is open: an event of the provider; a poll for follow-ups, with how it
-- ends where it claims messages; a poll that throws before it claims any. Each comes with its time
-- and with the inbound.db that it reads.
pub data Happening : Type 0 where
  event : ℕ → InDb → ProviderEvent → Happening
  follow_up : ℕ → InDb → FollowUpEnd → Happening
  failed_poll : Text → Happening

-- The stream of a query, the error that it ends with, if any, and whether it ends within the 100 ms
-- between a decision to exit and the exit.
pub record Stream : Type 0 where
  pub happenings : List Happening
  pub thrown : Option Text
  pub ends_before_exit : Bool

pub data Destination : Type 0 where
  channel : String → String → Destination
  agent : String → Destination

-- The text of a result, cut by the regular expression for message blocks.
pub data Segment : Type 0 where
  scratch : String → Segment
  block : String → String → Segment

-- The parameters: JSON, regular expressions, formatting, the destinations table, the scripts, the
-- generated ids, and the provider. `script_result` is `none` for a script that fails and else has
-- wakeAgent and the enriched content.
pub record LoopEnv : Type 0 where
  pub max_messages : ℕ
  pub parse : String → Content
  pub text_json : String → String
  pub error_json : Text → String
  pub segments : String → List Segment
  pub strip_internal_tags : String → String
  pub find_by_name : String → Option Destination
  pub format : List MessageIn → String
  pub nudge : String
  pub script_of : String → Option String
  pub script_result : MessageIn → Option (Bool × String)
  pub generate_id : OutDb → String
  pub continuation_key : String
  pub query : List MessageIn → Option String → Stream
  pub is_session_invalid : Text → Bool

unfoldable pub get_value : List StateRow → String → Option String
get_value rows key = elim (first (λ (r : StateRow). r.key === key) rows) [
  | none ↦ none
  | some r ↦ some r.value
]

-- INSERT OR REPLACE INTO session_state
unfoldable pub set_value : List StateRow → String → String → List StateRow
set_value rows key value =
    delete (λ (r : StateRow). r.key === key) rows ++ record { key = key; value = value } ∷ []

unfoldable pub delete_value : List StateRow → String → List StateRow
delete_value rows key = delete (λ (r : StateRow). r.key === key) rows

abbrev legacy_key : String
legacy_key = "sdk_session_id"

unfoldable pub migrate_legacy_continuation : LoopEnv → List StateRow → List StateRow × Option String
unfolding get_value set_value delete_value
migrate_legacy_continuation env rows =
    let current = get_value rows env.continuation_key in
    let rest = delete_value rows legacy_key in
    elim (get_value rows legacy_key) [
      | none ↦ (rows, current)
      | some legacy ↦ elim current [
        | some c ↦ (rest, some c)
        | none ↦ (set_value rest env.continuation_key legacy, some legacy)
      ]
    ]

abbrev pub set_continuation : LoopEnv → Runner → String → Runner
set_continuation env runner id = record runner {
  session_state = set_value runner.session_state env.continuation_key id;
}

abbrev pub clear_continuation : LoopEnv → Runner → Runner
clear_continuation env runner = record runner {
  session_state = delete_value runner.session_state env.continuation_key;
}

-- `extractRouting`: the fields of the first message.
pub record RoutingContext : Type 0 where
  pub platform_id : Option String
  pub channel_type : Option String
  pub thread_id : Option String
  pub in_reply_to : Option String

unfoldable pub extract_routing : List MessageIn → RoutingContext
extract_routing [] = record {
  platform_id = none;
  channel_type = none;
  thread_id = none;
  in_reply_to = none;
}
extract_routing (m ∷ messages) = record {
  platform_id = m.platform_id;
  channel_type = m.channel_type;
  thread_id = m.thread_id;
  in_reply_to = some m.id;
}

pub record TaskScriptOutcome : Type 0 where
  pub keep : List MessageIn
  pub skipped : List String

abbrev pub kept : MessageIn → TaskScriptOutcome → TaskScriptOutcome
kept m out = record out { keep = m ∷ out.keep }

abbrev pub skip : MessageIn → TaskScriptOutcome → TaskScriptOutcome
skip m out = record out { skipped = m.id ∷ out.skipped }

-- A message and the outcome of the ones behind it. The script is null where the content does not
-- parse or has none, and an empty one is not run.
unfoldable pub apply_script : LoopEnv → MessageIn → TaskScriptOutcome → TaskScriptOutcome
apply_script env m out =
    if m.kind === "task"
    then elim (env.script_of m.content) [
      | none ↦ kept m out
      | some script ↦ if script === "" then kept m out else elim (env.script_result m) [
        | none ↦ skip m out
        | some (wake, content) ↦
            if wake then kept (record m { content = content }) out else skip m out
      ]
    ]
    else kept m out

unfoldable pub apply_pre_task_scripts : LoopEnv → List MessageIn → TaskScriptOutcome
unfolding apply_script
apply_pre_task_scripts env [] = record { keep = []; skipped = [] }
apply_pre_task_scripts env (m ∷ messages) = apply_script env m (apply_pre_task_scripts env messages)

abbrev pub ids_of : List MessageIn → List String
ids_of messages = map (λ (m : MessageIn). m.id) messages

-- `ids.includes(id)`
abbrev pub includes_id : List String → String → Bool
includes_id ids id = any (λ i. i === id) ids

abbrev pub is_system : MessageIn → Bool
is_system m = m.kind === "system"

abbrev pub is_clear : LoopEnv → MessageIn → Bool
is_clear env m = is_chat m.kind && is_clear_command (env.parse m.content)
