-- ===== src/PollLoop/Round.antt =====
-- One round of `runPollLoop` (`container/agent-runner/src/poll-loop.ts`), its own steps at one time.
use lfontes_nanoclaw.Prelude.{
  ◌==◌, ◌===◌, if◌then◌else◌, opt_eq, length, any, select, ℕ, String, Bool, true, false, ◌&&◌, ◌||◌,
  not, Option, none, some, List, [], ◌∷◌,
}
use lfontes_nanoclaw.Text.{Text, codes}
use lfontes_nanoclaw.SessionDb.{MessageIn, InDb, OutDb}
use lfontes_nanoclaw.Container.MessagesIn.{
  get_pending_messages, mark_processing, mark_completed, clear_stale_processing_acks,
}
use lfontes_nanoclaw.Container.MessagesOut.{WriteMessageOut}
use lfontes_nanoclaw.PollLoop.{
  Runner, Stream, LoopEnv, RoutingContext, extract_routing, set_continuation, clear_continuation,
  apply_pre_task_scripts, ids_of, includes_id, is_system, is_clear, migrate_legacy_continuation,
}
use lfontes_nanoclaw.PollLoop.Answer.{write_out}
use lfontes_nanoclaw.PollLoop.Query.{Query, process_query}

-- The runner with the variable `continuation`, and whether the process is gone.
pub record Loop : Type 0 where
  pub runner : Runner
  pub continuation : Option String
  pub died : Bool

abbrev pub with_acks : Loop → OutDb → Loop
with_acks l db = record l { runner = record l.runner { outbound = db } }

-- A message of the runner to the chat of the batch.
abbrev pub notice : LoopEnv → OutDb → RoutingContext → String → WriteMessageOut
notice env outbound routing content = record {
  id = env.generate_id outbound;
  in_reply_to = none;
  deliver_after = none;
  recurrence = none;
  kind = "chat";
  platform_id = routing.platform_id;
  channel_type = routing.channel_type;
  thread_id = routing.thread_id;
  content = content;
}

-- A notice that cannot be written ends the process.
unfoldable pub tell : LoopEnv → InDb → ℕ → RoutingContext → Loop → String → Loop
unfolding write_out
tell env inbound now routing l content =
    let db = l.runner.outbound in
    let w = write_out inbound db now (notice env db routing content) in
    record (with_acks l w.outbound) { died = w.threw }

abbrev pub forget : LoopEnv → Loop → Loop
forget env l = record l { runner = clear_continuation env l.runner; continuation = none }

-- The loop over the messages, as far as the clear commands go.
unfoldable pub clear_sessions : LoopEnv → InDb → ℕ → RoutingContext → List MessageIn → Loop → Loop
unfolding tell
clear_sessions env inbound now routing [] l = l
clear_sessions env inbound now routing (m ∷ messages) l =
    let l' =
      if is_clear env m
      then tell env inbound now routing (forget env l) (env.text_json "Session cleared.")
      else l in
    let rest = clear_sessions env inbound now routing messages l' in if l'.died then l' else rest

abbrev pub command_ids : LoopEnv → List MessageIn → List String
command_ids env messages = ids_of (select (is_clear env) messages)

abbrev pub normal_messages : LoopEnv → List MessageIn → List MessageIn
normal_messages env messages = select (λ m. not (is_clear env m)) messages

-- The ids that are in neither list.
abbrev pub ids_without : List String → List String → List String → List String
ids_without commands skipped ids =
    select (λ id. not (includes_id commands id) && not (includes_id skipped id)) ids

abbrev pub complete : Loop → ℕ → List String → Loop
complete l now ids = with_acks l (mark_completed l.runner.outbound now ids)

-- `result.continuation && result.continuation !== continuation`
abbrev pub adopt : LoopEnv → Loop → Option String → Loop
adopt env l none = l
adopt env l (some c) =
    if c === "" || opt_eq l.continuation (some c)
    then l
    else record l { runner = set_continuation env l.runner c; continuation = some c }

abbrev pub is_stale : LoopEnv → Option String → Text → Bool
is_stale env none e = false
is_stale env (some c) e = not (c === "") && env.is_session_invalid e

abbrev pub write_failure : Text
write_failure = codes "UNIQUE constraint failed"

-- The catch block.
unfoldable pub recover : LoopEnv → InDb → ℕ → RoutingContext → Loop → Text → Loop
unfolding tell
recover env inbound now routing l e =
    tell env inbound now routing (if is_stale env l.continuation e then forget env l else l)
      (env.error_json e)

abbrev pub failure_of : Query → Stream → Option Text
failure_of q stream = if q.threw then some write_failure else stream.thrown

-- The try and the catch block around the query.
unfoldable pub settle : LoopEnv → InDb → ℕ → RoutingContext → Stream → Query → Loop → Loop
unfolding recover
settle env inbound now routing stream q l =
    let after = record l { runner = q.runner } in
    elim (failure_of q stream) [
      | none ↦ adopt env after q.continuation
      | some e ↦ recover env inbound now routing after e
    ]

-- The finally block and the acknowledgement behind it, which a dying process does not reach.
unfoldable pub finish : Loop → ℕ → List String → Loop
unfolding mark_completed
finish l now processing =
    let l' = record l { runner = record l.runner { current_in_reply_to = none } } in
    if l.died then l' else complete l' now processing

-- Whether the process is gone before the query has ended.
abbrev pub exits : Query → Stream → Bool
exits q stream = q.exiting && not stream.ends_before_exit

abbrev pub publish : Loop → Option String → Loop
publish l id = record l { runner = record l.runner { current_in_reply_to = id } }

unfoldable pub ask_agent :
    LoopEnv → InDb → ℕ → RoutingContext → List String → List MessageIn → Loop → Loop
unfolding process_query settle finish
ask_agent env inbound now routing processing keep l =
    let stream = env.query keep l.continuation in
    let start = publish l routing.in_reply_to in
    let q = process_query env routing processing stream.happenings start.runner in
    if exits q stream
    then record start { runner = q.runner; died = true }
    else finish (settle env inbound now routing stream q start) now processing

-- What is left after the commands.
unfoldable pub handle_normal : LoopEnv → InDb → ℕ → RoutingContext → List MessageIn → Loop → Loop
unfolding apply_pre_task_scripts ask_agent mark_completed
handle_normal env inbound now routing messages l =
    let commands = command_ids env messages in
    let normal = normal_messages env messages in
    let pre_task = apply_pre_task_scripts env normal in
    let skipped = complete l now pre_task.skipped in
    if length normal == 0
    then complete l now (ids_without commands [] (ids_of messages))
    else if length pre_task.keep == 0
    then skipped
    else ask_agent env inbound now routing (ids_without commands pre_task.skipped (ids_of messages))
        pre_task.keep skipped

unfoldable pub handle_batch : LoopEnv → InDb → ℕ → List MessageIn → Loop → Loop
unfolding mark_processing mark_completed clear_sessions extract_routing handle_normal
handle_batch env inbound now messages l =
    let routing = extract_routing messages in
    let claimed = with_acks l (mark_processing l.runner.outbound now (ids_of messages)) in
    let cleared = clear_sessions env inbound now routing messages claimed in
    if cleared.died
    then cleared
    else handle_normal env inbound now routing messages
        (complete cleared now (command_ids env messages))

-- The messages of a round.
abbrev pub batch_of : LoopEnv → InDb → OutDb → Bool → ℕ → List MessageIn
batch_of env inbound outbound is_first now =
    select (λ m. not (is_system m))
      (get_pending_messages inbound outbound env.max_messages is_first now)

-- A batch that wakes nobody is left pending.
unfoldable pub poll_once : LoopEnv → InDb → Bool → ℕ → Loop → Loop
unfolding get_pending_messages handle_batch
poll_once env inbound is_first now l =
    let messages = batch_of env inbound l.runner.outbound is_first now in
    if any (λ (m : MessageIn). m.trigger) messages
    then handle_batch env inbound now messages l
    else l

abbrev rotated : LoopEnv → (String → Bool) → Loop → Loop
rotated env must_rotate l = elim l.continuation [
  | none ↦ l
  | some c ↦ if not (c === "") && must_rotate c then forget env l else l
]

-- What comes before the loop: the stored continuation, rotated if the provider says so, and the
-- claims of a container before this one.
unfoldable pub start_loop : LoopEnv → (String → Bool) → Runner → Loop
unfolding migrate_legacy_continuation clear_stale_processing_acks
start_loop env must_rotate runner =
    let (rows, continuation) = migrate_legacy_continuation env runner.session_state in
    let l : Loop = rotated env must_rotate (record {
      runner = record runner { session_state = rows };
      continuation = continuation;
      died = false;
    }) in
    with_acks l (clear_stale_processing_acks l.runner.outbound)
