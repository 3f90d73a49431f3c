-- ===== src/PollLoop/Query.antt =====
-- An open query (`processQuery` of `container/agent-runner/src/poll-loop.ts`): the events of the provider
-- and the polls for follow-ups, one after the other.
use lfontes_nanoclaw.Prelude.{
  leb, ◌==◌, ◌===◌, if◌then◌else◌, length, any, select, ℕ, ◌+◌, String, Bool, true, false, ◌||◌,
  not, Option, none, some, List, [], ◌∷◌, ◌++◌,
}
use lfontes_nanoclaw.Text.{Text, starts_with, codes}
use lfontes_nanoclaw.SessionDb.{MessageIn, InDb, OutDb}
use lfontes_nanoclaw.Container.Commands.{is_runner_command}
use lfontes_nanoclaw.Container.MessagesIn.{get_pending_messages, mark_processing, mark_completed}
use lfontes_nanoclaw.PollLoop.{
  Runner, ProviderEvent, init, result, error, progress, activity, Happening, event, follow_up,
  PushEnd, pushes, query_over, format_throws, push_throws, mark_throws, FollowUpEnd, script_throws,
  scripts_run, failed_poll, LoopEnv, RoutingContext, set_continuation, apply_pre_task_scripts,
  ids_of, is_system,
}
use lfontes_nanoclaw.PollLoop.Answer.{WrittenOut, dispatch_result_text}

-- `s.includes(t)`
unfoldable pub includes_text : Text → Text → Bool
unfolding starts_with
includes_text [] t = starts_with [] t
includes_text (c ∷ s) t = starts_with (c ∷ s) t || includes_text s t

unfoldable pub is_corruption_error : Text → Bool
unfolding includes_text
is_corruption_error msg =
    includes_text msg (codes "database disk image is malformed")
    || includes_text msg (codes "SQLITE_CORRUPT")
    || includes_text msg (codes "file is not a database")

abbrev pub corruption_streak_exit : ℕ
corruption_streak_exit = 10

-- Where a query stands. `exiting` is the end of the process that a streak of corruption errors has
-- asked for; `threw` is a write of an answer that has failed.
pub record Query : Type 0 where
  pub runner : Runner
  pub continuation : Option String
  pub unwrapped_nudged : Bool
  pub ended_for_command : Bool
  pub corruption_streak : ℕ
  pub exiting : Bool
  pub pushed : List String
  pub threw : Bool

abbrev pub with_outbound : Query → OutDb → Query
with_outbound q db = record q { runner = record q.runner { outbound = db } }

-- The `catch` of a poll.
unfoldable pub count_error : Query → Text → Query
unfolding is_corruption_error
count_error q msg =
    if is_corruption_error msg
    then record q {
      corruption_streak = q.corruption_streak + 1;
      exiting = q.exiting || leb corruption_streak_exit (q.corruption_streak + 1);
    }
    else record q { corruption_streak = 0 }

abbrev pub with_push : LoopEnv → Query → List MessageIn → Query
with_push env q keep = record q {
  unwrapped_nudged = false;
  pushed = q.pushed ++ env.format keep ∷ [];
}

-- The messages of a poll that are kept are pushed and are done with, unless something throws.
unfoldable pub push_kept : LoopEnv → Query → ℕ → List MessageIn → PushEnd → Query
unfolding mark_completed count_error
push_kept env q now keep pushes =
    with_outbound (with_push env q keep) (mark_completed q.runner.outbound now (ids_of keep))
push_kept env q now keep query_over = q
push_kept env q now keep (format_throws msg) = count_error q msg
push_kept env q now keep (push_throws msg) = count_error (record q { unwrapped_nudged = false }) msg
push_kept env q now keep (mark_throws msg) = count_error (with_push env q keep) msg

unfoldable pub take_follow_ups : LoopEnv → Query → ℕ → List MessageIn → FollowUpEnd → Query
unfolding mark_processing mark_completed apply_pre_task_scripts count_error push_kept
take_follow_ups env q now messages (script_throws msg) =
    count_error (with_outbound q (mark_processing q.runner.outbound now (ids_of messages))) msg
take_follow_ups env q now messages (scripts_run end) =
    let claimed = mark_processing q.runner.outbound now (ids_of messages) in
    let pre_task = apply_pre_task_scripts env messages in
    let taken = with_outbound q (mark_completed claimed now pre_task.skipped) in
    if length pre_task.keep == 0 then taken else push_kept env taken now pre_task.keep end

-- A poll that could read the databases.
unfoldable pub poll_follow_ups : LoopEnv → Query → ℕ → InDb → FollowUpEnd → Query
unfolding get_pending_messages is_runner_command take_follow_ups
poll_follow_ups env q now inbound end =
    let pending = get_pending_messages inbound q.runner.outbound env.max_messages false now in
    let messages = select (λ m. not (is_system m)) pending in
    if any (λ (m : MessageIn). is_runner_command m.kind (env.parse m.content)) pending
    then record q { ended_for_command = true }
    else if length messages == 0
    then q
    else take_follow_ups env q now messages end

abbrev pub nudge_if : LoopEnv → Query → Bool → Query
nudge_if env q false = q
nudge_if env q true =
    if q.unwrapped_nudged
    then q
    else record q { unwrapped_nudged = true; pushed = q.pushed ++ env.nudge ∷ [] }

abbrev pub after_dispatch : LoopEnv → Query → WrittenOut × Bool → Query
after_dispatch env q (w, has_unwrapped) =
    if w.threw
    then record (with_outbound q w.outbound) { threw = true }
    else nudge_if env (with_outbound q w.outbound) has_unwrapped

abbrev pub answer_text : LoopEnv → RoutingContext → Query → ℕ → InDb → Option String → Query
answer_text env routing q now inbound none = q
answer_text env routing q now inbound (some text) =
    if text === ""
    then q
    else after_dispatch env q (dispatch_result_text env inbound q.runner.outbound now text routing)

-- An event of the provider; a result completes the batch that the query was opened for.
unfoldable pub take_event :
    LoopEnv → RoutingContext → List String → Query → ℕ → InDb → ProviderEvent → Query
unfolding mark_completed dispatch_result_text
take_event env routing batch q now inbound (init id) = record q {
  continuation = some id;
  runner = set_continuation env q.runner id;
}
take_event env routing batch q now inbound (result text) =
    answer_text env routing (with_outbound q (mark_completed q.runner.outbound now batch)) now
      inbound text
take_event env routing batch q now inbound error = q
take_event env routing batch q now inbound progress = q
take_event env routing batch q now inbound activity = q

-- No poll does anything once the query was ended for a command or the process is to exit.
unfoldable pub take_happening : LoopEnv → RoutingContext → List String → Query → Happening → Query
unfolding take_event poll_follow_ups count_error
take_happening env routing batch q (event now inbound e) =
    take_event env routing batch q now inbound e
take_happening env routing batch q (follow_up now inbound end) =
    if q.ended_for_command || q.exiting then q else poll_follow_ups env q now inbound end
take_happening env routing batch q (failed_poll msg) =
    if q.ended_for_command || q.exiting then q else count_error q msg

-- An answer that cannot be written ends the query.
unfoldable pub run : LoopEnv → RoutingContext → List String → List Happening → Query → Query
unfolding take_happening
run env routing batch [] q = q
run env routing batch (h ∷ happenings) q =
    let q' = take_happening env routing batch q h in
    let rest = run env routing batch happenings q' in if q'.threw then q' else rest

abbrev pub open_query : Runner → Query
open_query runner = record {
  runner = runner;
  continuation = none;
  unwrapped_nudged = false;
  ended_for_command = false;
  corruption_streak = 0;
  exiting = false;
  pushed = [];
  threw = false;
}

unfoldable pub process_query :
    LoopEnv → RoutingContext → List String → List Happening → Runner → Query
unfolding run
process_query env routing batch happenings runner =
    run env routing batch happenings (open_query runner)
