-- ===== src/Scheduling/Tasks.antt =====
-- Cancelling, pausing and resuming a task series (`src/modules/scheduling/db.ts`).
use lfontes_nanoclaw.Prelude.{
  if◌then◌else◌, All, All-imp, select-update_outside, update_twice, update_clears, String, ◌≡◌, ap,
  true, false, ◌&&◌, none, arith,
}
use lfontes_nanoclaw.SessionDb.{pending, completed, paused, is_pending, is_paused, MessageIn, InDb}
use lfontes_nanoclaw.Scheduling.{
  is_of_series, is_live, cancel_task, pause_task, resume_task, is_recurring_done,
  get_completed_recurring,
}

cancelled_not_done :
    (id : String) (m : MessageIn)
    → (is_of_series id m && is_live m.status) ≡ true
    → (is_recurring_done m ≡ false)
      × (is_recurring_done (record m { status = completed; recurrence = none }) ≡ false)
cancelled_not_done id m h = ground arith

cancelled_not_live :
    (id : String) (m : MessageIn)
    → (is_of_series id m && is_live m.status) ≡ true
    → (is_of_series id m && is_live completed) ≡ false
cancelled_not_live id m h = ground arith

resumed :
    (id : String) (m : MessageIn)
    → (is_of_series id m && is_paused m.status) ≡ false
    → let p =
        if is_of_series id m && is_pending m.status then record m { status = paused } else m in
      (if is_of_series id p && is_paused p.status then record p { status = pending } else p) ≡ m
resumed id m h = ground arith

-- Cancelling leaves no live row of the series, and gives the recurrence sweep no row to clone that
-- it did not have before.
pub cancel_task_stops :
    (db : InDb) (id : String)
    → All (λ m. (is_of_series id m && is_live m.status) ≡ false) (cancel_task db id).messages_in
      × (get_completed_recurring (cancel_task db id) ≡ get_completed_recurring db)
unfolding cancel_task get_completed_recurring
cancel_task_stops db id = (
  update_clears _ _ db.messages_in (λ m h. (cancelled_not_live id m h)),
  select-update_outside is_recurring_done _ _ db.messages_in (cancelled_not_done id),
)

-- Pausing a series and resuming it gives the table back, if no row of the series was paused before.
pub resume-pause :
    (db : InDb) (id : String)
    → All (λ m. (is_of_series id m && is_paused m.status) ≡ false) db.messages_in
    → resume_task (pause_task db id) id ≡ db
unfolding resume_task pause_task
resume-pause db id h =
    ap (λ rows. record db { messages_in = rows })
      (update_twice _ _ _ _ db.messages_in (All-imp _ _ db.messages_in (resumed id) h))
