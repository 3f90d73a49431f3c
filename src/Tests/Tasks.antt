-- ===== src/Tests/Tasks.antt =====
-- Task series at concrete tables.
use lfontes_nanoclaw.Prelude.{length, All, select, ◌+◌, ◌≡◌, refl, false, ◌&&◌, none, some, [], ◌∷◌}
use lfontes_nanoclaw.SessionDb.{pending, completed, InDb}
use lfontes_nanoclaw.Scheduling.{
  is_of_series, is_live, cancel_task, pause_task, resume_task, get_completed_recurring, Cron,
  handle_recurrence,
}
use lfontes_nanoclaw.Scheduling.Tasks.{cancel_task_stops, resume-pause}
use lfontes_nanoclaw.Scheduling.Recurrence.{handle_recurrence_drains}
use lfontes_nanoclaw.Tests.Data.{task}

abbrev daily : InDb
daily = record {
  messages_in = task "t-1" 2 completed (some "0 9 * * *") ∷ task "t-2" 4 pending none ∷ [];
  delivered = [];
}

abbrev cron : Cron
cron = record { next = λ expression. some 90000; new_id = λ m. "t-3" }

cancel_task_stops_example :
    All
      (λ m. (is_of_series "t-1" m && is_live m.status) ≡ false)
      (cancel_task daily "t-1").messages_in
    × (get_completed_recurring (cancel_task daily "t-1") ≡ get_completed_recurring daily)
cancel_task_stops_example = cancel_task_stops daily "t-1"

resume-pause_example : resume_task (pause_task daily "t-1") "t-1" ≡ daily
resume-pause_example = resume-pause daily "t-1" (refl, (refl, tt))

handle_recurrence_drains_example :
    let swept = handle_recurrence cron 5000 daily in
    (length swept.messages_in ≡ length daily.messages_in + length (get_completed_recurring daily))
    × (get_completed_recurring swept ≡ [])
    × (handle_recurrence cron 7000 swept ≡ swept)
unfolding get_completed_recurring select
handle_recurrence_drains_example =
    handle_recurrence_drains cron 5000 7000 daily ((refl, refl), tt, tt)
