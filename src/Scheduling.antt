-- ===== src/Scheduling.antt =====
-- Scheduled tasks: `src/modules/scheduling/db.ts` and `src/modules/scheduling/recurrence.ts`.
-- A task is a row of `messages_in` with kind 'task'; a recurring one gets a new row for each run.
pub mod Tasks
pub mod Recurrence
use lfontes_nanoclaw.Prelude.{
  ltb, leb, ◌==◌, ◌===◌, if◌then◌else◌, ltb→lt, leb→le, ==_iff, ===_iff, ===_refl, Bool-cases,
  Option-cases, &&-true, is_some, opt_eq, opt_eq_refl, opt_eq_iff, or_else, length, take, any, all,
  All, All-imp, All-and, All-append, All-take, length-append, length-take-le, In, All-In, In-All,
  In-append_left, In-append_right, select, first, update, delete, max_of, insert_by, order_by,
  All-select, All-delete, All-update, All-insert_by, All-order_by, select_holds, delete_fails,
  le-max_of, any-false, first-some, first-none, ℕ, zero, suc, ◌+◌, ◌-◌, ◌*◌, ◌/◌, ◌%◌, ◌^◌, ◌≤◌,
  ◌<◌, min, max, String, ◌≡◌, refl, sym, ap, ◌∙◌, ◌≢◌, ◌↔◌, ◌⊎◌, inl, inr, Bool, true, false, ◌&&◌,
  ◌||◌, not, Option, none, some, List, [], ◌∷◌, ◌++◌, map, reverse, arith,
}
use lfontes_nanoclaw.SessionDb.{
  Status, pending, completed, failed, paused, is_pending, is_completed, is_paused, MessageIn, InDb,
  datetime, next_even_seq, add_row,
}

pub record Task : Type 0 where
  pub id : String
  pub process_after : ℕ
  pub recurrence : Option String
  pub platform_id : Option String
  pub channel_type : Option String
  pub thread_id : Option String
  pub content : String

unfoldable pub insert_task : InDb → ℕ → Task → Option InDb
insert_task db now task = add_row db (record {
  id = task.id;
  seq = next_even_seq db;
  kind = "task";
  timestamp = datetime now * 1000;
  status = pending;
  process_after = some task.process_after;
  recurrence = task.recurrence;
  series_id = task.id;
  tries = 0;
  trigger = true;
  platform_id = task.platform_id;
  channel_type = task.channel_type;
  thread_id = task.thread_id;
  content = task.content;
  source_session_id = none;
  on_wake = false;
})

-- `(id = ? OR series_id = ?) AND kind = 'task'`
abbrev pub is_of_series : String → MessageIn → Bool
is_of_series task_id m = (m.id === task_id || m.series_id === task_id) && m.kind === "task"

abbrev pub is_live : Status → Bool
is_live s = is_pending s || is_paused s

unfoldable pub cancel_task : InDb → String → InDb
cancel_task db task_id = record db {
  messages_in =
      update (λ m. is_of_series task_id m && is_live m.status)
        (λ m. record m { status = completed; recurrence = none }) db.messages_in;
}

unfoldable pub pause_task : InDb → String → InDb
pause_task db task_id = record db {
  messages_in =
      update (λ m. is_of_series task_id m && is_pending m.status)
        (λ m. record m { status = paused }) db.messages_in;
}

unfoldable pub resume_task : InDb → String → InDb
resume_task db task_id = record db {
  messages_in =
      update (λ m. is_of_series task_id m && is_paused m.status)
        (λ m. record m { status = pending }) db.messages_in;
}

-- A field of the update is `none` where it is undefined; `some none` is null.
pub record TaskUpdate : Type 0 where
  pub prompt : Option String
  pub script : Option (Option String)
  pub recurrence : Option (Option String)
  pub process_after : Option ℕ

-- The JSON content with `prompt` and `script` replaced; `none` where JSON.parse throws.
abbrev pub Merge : Type 0
Merge = String → Option String → Option (Option String) → Option String

abbrev set_process_after : Option ℕ → Option ℕ → Option ℕ
set_process_after none old = old
set_process_after (some t) old = some t

-- The content that the row gets.
unfoldable pub merged : Merge → TaskUpdate → String → Option String
merged merge update content =
    if is_some update.prompt || is_some update.script
    then merge content update.prompt update.script
    else some content

abbrev edit : TaskUpdate → String → MessageIn → MessageIn
edit u content m = record m {
  content = content;
  process_after = set_process_after u.process_after m.process_after;
  recurrence = or_else u.recurrence m.recurrence;
}

-- The loop over the rows read first, each written back by its id; a throw rolls all of it back.
unfoldable pub edit_rows :
    Merge → TaskUpdate → List MessageIn → List MessageIn → Option (List MessageIn)
unfolding merged
edit_rows merge u [] table = some table
edit_rows merge u (row ∷ rows) table = elim (merged merge u row.content) [
  | none ↦ none
  | some c ↦ edit_rows merge u rows (update (λ m. m.id === row.id) (edit u c) table)
]

-- The number of rows touched, with the database.
unfoldable pub update_task : Merge → InDb → String → TaskUpdate → Option (ℕ × InDb)
update_task merge db task_id u =
    let rows = select (λ m. is_of_series task_id m && is_live m.status) db.messages_in in
    elim (edit_rows merge u rows db.messages_in) [
      | none ↦ none
      | some table ↦ some (length rows, record db { messages_in = table })
    ]

abbrev pub is_recurring_done : MessageIn → Bool
is_recurring_done m = is_completed m.status && is_some m.recurrence

unfoldable pub get_completed_recurring : InDb → List MessageIn
get_completed_recurring db = select is_recurring_done db.messages_in

unfoldable pub insert_recurrence : InDb → ℕ → MessageIn → String → Option ℕ → Option InDb
insert_recurrence db now msg new_id next_run = add_row db (record {
  id = new_id;
  seq = next_even_seq db;
  kind = msg.kind;
  timestamp = datetime now * 1000;
  status = pending;
  process_after = next_run;
  recurrence = msg.recurrence;
  series_id = msg.series_id;
  tries = 0;
  trigger = true;
  platform_id = msg.platform_id;
  channel_type = msg.channel_type;
  thread_id = msg.thread_id;
  content = msg.content;
  source_session_id = none;
  on_wake = false;
})

unfoldable pub clear_recurrence : InDb → String → InDb
clear_recurrence db message_id = record db {
  messages_in =
      update (λ m. m.id === message_id) (λ m. record m { recurrence = none }) db.messages_in;
}

-- What the sweep takes from outside: the cron parser's next run in milliseconds (`none` where it
-- throws), and the id made from the clock and a random number.
pub record Cron : Type 0 where
  pub next : String → Option ℕ
  pub new_id : MessageIn → String

-- One round of the loop. The catch block leaves the row for the next sweep.
unfoldable pub recur : Cron → ℕ → InDb → MessageIn → InDb
recur cron now db msg = elim (cron.next (or_else msg.recurrence "")) [
  | none ↦ db
  | some next_run ↦ elim (insert_recurrence db now msg (cron.new_id msg) (some next_run)) [
    | none ↦ db
    | some db' ↦ clear_recurrence db' msg.id
  ]
]

unfoldable pub recur_all : Cron → ℕ → List MessageIn → InDb → InDb
recur_all cron now [] db = db
recur_all cron now (m ∷ ms) db = recur_all cron now ms (recur cron now db m)

unfoldable pub handle_recurrence : Cron → ℕ → InDb → InDb
handle_recurrence cron now db = recur_all cron now (get_completed_recurring db) db
