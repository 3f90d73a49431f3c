-- ===== src/Tests/Loop.antt =====
-- Rounds of the poll loop at concrete inputs.
use lfontes_nanoclaw.Prelude.{
  leb, select, delete, order_by, ℕ, String, ◌≡◌, refl, Bool, true, false, none, some, List, [], ◌∷◌,
  ◌++◌, map,
}
use lfontes_nanoclaw.Text.{codes, json}
use lfontes_nanoclaw.SessionDb.{MessageIn, InDb, MessageOut, pending}
use lfontes_nanoclaw.Container.MessagesIn.{
  put_acks, put_ack, fetch_window, get_pending_messages, is_acked,
}
use lfontes_nanoclaw.Container.MessagesOut.{add_out_row}
use lfontes_nanoclaw.Container.Commands.{is_clear_command}
use lfontes_nanoclaw.PollLoop.{
  init, result, Happening, event, follow_up, pushes, scripts_run, failed_poll, Stream, channel,
  scratch, block, LoopEnv, ids_of, includes_id,
}
use lfontes_nanoclaw.PollLoop.Query.{is_corruption_error, process_query}
use lfontes_nanoclaw.PollLoop.Round.{Loop, poll_once}
use lfontes_nanoclaw.PollLoop.Acks.{is_done}
use lfontes_nanoclaw.PollLoop.Progress.{poll_once-completes}
use lfontes_nanoclaw.PollLoop.Streak.{errors, process_query-exiting}

abbrev message : String → ℕ → String → Bool → MessageIn
message id seq kind trigger = record {
  id = id;
  seq = seq;
  kind = kind;
  timestamp = 0;
  status = pending;
  process_after = none;
  recurrence = none;
  series_id = id;
  tries = 0;
  trigger = trigger;
  platform_id = some "C1";
  channel_type = some "slack";
  thread_id = some "t-1";
  content = "{}";
  source_session_id = none;
  on_wake = false;
}

abbrev inbox : InDb
inbox = record {
  messages_in =
      message "a" 2 "chat" false ∷ message "b" 4 "task" true ∷ message "c" 6 "chat" true ∷ [];
  delivered = [];
}

-- One more message, which comes while the query is open.
abbrev inbox_later : InDb
inbox_later = record inbox { messages_in = inbox.messages_in ++ message "d" 8 "chat" true ∷ [] }

abbrev stream : Stream
stream = record {
  happenings =
      event 10 inbox (init "s-1")
      ∷ follow_up 11 inbox_later (scripts_run pushes)
      ∷ failed_poll (codes "SQLITE_CORRUPT")
      ∷ event 12 inbox_later (result (some "hi"))
      ∷ [];
  thrown = none;
  ends_before_exit = false;
}

abbrev env : LoopEnv
env = record {
  max_messages = 10;
  parse = λ s. json (some (codes "hello"));
  text_json = λ s. s;
  error_json = λ t. "error";
  segments = λ s. scratch "thinking" ∷ block "family" "hi" ∷ [];
  strip_internal_tags = λ s. s;
  find_by_name = λ name. some (channel "slack" "C1");
  format = λ messages. "prompt";
  nudge = "please wrap";
  script_of = λ content. some "exit 1";
  script_result = λ m. none;
  generate_id = λ out. "msg-1";
  continuation_key = "continuation:claude";
  query = λ messages continuation. stream;
  is_session_invalid = λ e. false;
}

abbrev start : Loop
start = record {
  runner = record {
    outbound = record { messages_out = []; processing_ack = []; container_state = none };
    session_state = [];
    current_in_reply_to = none;
  };
  continuation = none;
  died = false;
}

abbrev after : Loop
after = poll_once env inbox true 9 start

-- The answer goes to the thread of the newest message of its chat.
answer_is_threaded :
    map (λ (m : MessageOut). m.thread_id) after.runner.outbound.messages_out ≡ some "t-1" ∷ []
unfolding poll_once select fetch_window order_by is_acked is_clear_command put_acks put_ack delete
    add_out_row
answer_is_threaded = refl

poll_once-completes_example :
    (is_done after.runner.outbound "b" ≡ true)
    × (includes_id (ids_of (get_pending_messages inbox_later after.runner.outbound 10 false 20)) "b"
        ≡ false)
unfolding poll_once select fetch_window order_by is_acked is_clear_command put_acks put_ack delete
    add_out_row
poll_once-completes_example =
    poll_once-completes env inbox inbox_later true false 9 20 10 start "b" refl refl refl

-- Ten corruption errors, each with a successful poll behind it.
abbrev corrupt_and_fine : List Happening
corrupt_and_fine =
    failed_poll (codes "SQLITE_CORRUPT")
    ∷ follow_up 9 (record { messages_in = []; delivered = [] }) (scripts_run pushes)
    ∷ []

abbrev ten_times : List Happening
ten_times =
    let two = corrupt_and_fine ++ corrupt_and_fine in let four = two ++ two in four ++ four ++ two

process_query-exiting_example :
    (process_query env
      (record { platform_id = none; channel_type = none; thread_id = none; in_reply_to = none })
      []
      ten_times
      start.runner).exiting
    ≡ leb 10 (errors ten_times)
unfolding is_corruption_error get_pending_messages fetch_window order_by select
process_query-exiting_example =
    process_query-exiting env
      (record { platform_id = none; channel_type = none; thread_id = none; in_reply_to = none }) []
      ten_times start.runner
      (
        refl,
        (
          refl,
          (
            refl,
            (
              refl,
              (
                refl,
                (
                  refl,
                  (
                    refl,
                    (
                      refl,
                      (
                        refl,
                        (
                          refl,
                          (
                            refl,
                            (
                              refl,
                              (refl, (refl, (refl, (refl, (refl, (refl, (refl, (refl, tt)))))))),
                            ),
                          ),
                        ),
                      ),
                    ),
                  ),
                ),
              ),
            ),
          ),
        ),
      )
