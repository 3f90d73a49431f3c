-- ===== src/Tests/Data.antt =====
-- A session's databases with a few rows.
use lfontes_nanoclaw.Prelude.{ℕ, String, true, false, Option, none, some, [], ◌∷◌}
use lfontes_nanoclaw.SessionDb.{
  Status, pending, completed, MessageIn, InDb, MessageOut, Ack, AckStatus, OutDb, Outcome,
}

abbrev pub message : String → ℕ → Status → ℕ → MessageIn
message id seq status tries = record {
  id = id;
  seq = seq;
  kind = "chat";
  timestamp = 0;
  status = status;
  process_after = none;
  recurrence = none;
  series_id = id;
  tries = tries;
  trigger = true;
  platform_id = some "42";
  channel_type = some "telegram";
  thread_id = none;
  content = "hi";
  source_session_id = none;
  on_wake = false;
}

-- A task of the series "t-1".
abbrev pub task : String → ℕ → Status → Option String → MessageIn
task id seq status cron = record (message id seq status 0) {
  kind = "task";
  series_id = "t-1";
  recurrence = cron;
}

abbrev pub out : String → ℕ → MessageOut
out id seq = record {
  id = id;
  seq = seq;
  in_reply_to = none;
  timestamp = 0;
  deliver_after = none;
  recurrence = none;
  kind = "chat";
  platform_id = some "42";
  channel_type = some "telegram";
  thread_id = none;
  content = "{}";
}

abbrev pub in_db : InDb
in_db = record {
  messages_in =
      message "m-1" 2 completed 0
      ∷ message "m-2" 4 pending 1
      ∷ message "m-3" 6 pending 5
      ∷ message "m-4" 8 pending 0
      ∷ [];
  delivered =
      record {
        message_out_id = "o-1";
        platform_message_id = some "77";
        status = Outcome.delivered;
        delivered_at = 0;
      }
      ∷ [];
}

abbrev pub claim : String → ℕ → Ack
claim id t = record { message_id = id; status = AckStatus.processing; status_changed = some t }

abbrev pub out_db : OutDb
out_db = record {
  messages_out = out "o-1" 3 ∷ out "o-2" 5 ∷ [];
  processing_ack =
      record { message_id = "m-1"; status = AckStatus.completed; status_changed = some 1000 }
      ∷ claim "m-2" 1000
      ∷ claim "m-3" 1000
      ∷ [];
  container_state = none;
}
