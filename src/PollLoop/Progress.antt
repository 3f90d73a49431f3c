-- ===== src/PollLoop/Progress.antt =====
-- What a round of the loop does with the messages that it fetches
-- (`runPollLoop` of `container/agent-runner/src/poll-loop.ts`).
use lfontes_nanoclaw.Prelude.{
  any, true≢false, ℕ, String, ◌≡◌, sym, ◌∙◌, Bool, true, false, List, arith,
}
use lfontes_nanoclaw.SessionDb.{MessageIn, InDb}
use lfontes_nanoclaw.Container.MessagesIn.{get_pending_messages, mark_processing}
use lfontes_nanoclaw.PollLoop.{LoopEnv, extract_routing, ids_of, includes_id}
use lfontes_nanoclaw.PollLoop.Round.{
  Loop, clear_sessions, command_ids, complete, handle_batch, batch_of, poll_once, with_acks,
}
use lfontes_nanoclaw.PollLoop.Acks.{is_done, is_done-is_acked, get_pending_messages-unacked}
use lfontes_nanoclaw.PollLoop.Batches.{Completes, Completes-if, done-complete, done-handle_normal}

handle_batch-Completes :
    (env : LoopEnv) (inbound : InDb) (now : ℕ) (messages : List MessageIn) (l : Loop) (id : String)
    → includes_id (ids_of messages) id ≡ true
    → Completes id (handle_batch env inbound now messages l)
unfolding handle_batch
handle_batch-Completes env inbound now messages l id h =
    let routing = extract_routing messages in
    let claimed = with_acks l (mark_processing l.runner.outbound now (ids_of messages)) in
    let cleared = clear_sessions env inbound now routing messages claimed in
    let commands = command_ids env messages in
    Completes-if id cleared.died cleared _ (λ d alive. absurd (true≢false (sym d ∙ alive)))
      (λ d.
        done-handle_normal env inbound now id routing messages (complete cleared now commands)
          (λ c. done-complete env inbound now id cleared commands ∙ ground (arith, c)) h)

poll_once-Completes :
    (env : LoopEnv) (inbound : InDb) (is_first : Bool) (now : ℕ) (l : Loop) (id : String)
    → any (λ (m : MessageIn). m.trigger) (batch_of env inbound l.runner.outbound is_first now)
      ≡ true
    → includes_id (ids_of (batch_of env inbound l.runner.outbound is_first now)) id ≡ true
    → Completes id (poll_once env inbound is_first now l)
unfolding poll_once
poll_once-Completes env inbound is_first now l id wakes h =
    let messages = batch_of env inbound l.runner.outbound is_first now in
    Completes-if id (any (λ (m : MessageIn). m.trigger) messages) _ l
      (λ w. handle_batch-Completes env inbound now messages l id h)
      (λ w. absurd (true≢false (sym wakes ∙ w)))

-- A round that finds a message to wake for completes every message of its batch, the accumulated
-- ones, the commands and the ones that a script holds back included, unless the process dies in the
-- round; whatever the agent answers, however the query ends and whatever comes in meanwhile. And no
-- later poll fetches such a message again.
pub poll_once-completes :
    (env : LoopEnv) (inbound later : InDb) (is_first is_first_later : Bool)
    (now now_later limit : ℕ) (l : Loop) (id : String)
    → any (λ (m : MessageIn). m.trigger) (batch_of env inbound l.runner.outbound is_first now)
      ≡ true
    → includes_id (ids_of (batch_of env inbound l.runner.outbound is_first now)) id ≡ true
    → (poll_once env inbound is_first now l).died ≡ false
    → (is_done (poll_once env inbound is_first now l).runner.outbound id ≡ true)
      × (includes_id
            (ids_of (
              get_pending_messages later
                (poll_once env inbound is_first now l).runner.outbound
                limit
                is_first_later
                now_later))
            id
          ≡ false)
poll_once-completes env inbound later is_first is_first_later now now_later limit l id wakes h
      alive =
    let after = poll_once env inbound is_first now l in
    let done : is_done after.runner.outbound id ≡ true =
      poll_once-Completes env inbound is_first now l id wakes h alive in
    (
      done,
      get_pending_messages-unacked later after.runner.outbound limit is_first_later now_later id
          (is_done-is_acked after.runner.outbound id done),
    )
