-- ===== src/PollLoop/Answer.antt =====
-- Answers of the agent: the blocks of a result and where they go (`dispatchResultText`,
-- `sendToDestination` and `resolveDestinationThread` of `container/agent-runner/src/poll-loop.ts`).
use lfontes_nanoclaw.Prelude.{
  ◌==◌, ◌===◌, if◌then◌else◌, opt_eq, select, order_by, ℕ, ◌+◌, String, Bool, true, false, ◌&&◌,
  not, Option, none, some, List, [], ◌∷◌,
}
use Prim.Native.String
use lfontes_nanoclaw.SessionDb.{MessageIn, InDb, OutDb, newest_first}
use lfontes_nanoclaw.Container.MessagesOut.{WriteMessageOut, write_message_out}
use lfontes_nanoclaw.PollLoop.{
  Destination, channel, agent, Segment, scratch, block, LoopEnv, RoutingContext,
}

-- outbound.db, and whether a write threw.
pub record WrittenOut : Type 0 where
  pub outbound : OutDb
  pub threw : Bool

unfoldable pub write_out : InDb → OutDb → ℕ → WriteMessageOut → WrittenOut
unfolding write_message_out
write_out inbound outbound now message = elim (write_message_out inbound outbound now message) [
  | none ↦ record { outbound = outbound; threw = true }
  | some (seq, db) ↦ record { outbound = db; threw = false }
]

unfoldable pub resolve_destination_thread :
    InDb → String → String → Option (Option String × Option String)
resolve_destination_thread inbound channel_type platform_id =
    elim (order_by newest_first (
      select
        (λ (m : MessageIn).
          opt_eq m.channel_type (some channel_type) && opt_eq m.platform_id (some platform_id))
        inbound.messages_in)) [ [] ↦ none | m ∷ rest ↦ some (m.thread_id, some m.id) ]

abbrev platform_of : Destination → String
platform_of (channel channel_type platform_id) = platform_id
platform_of (agent agent_group_id) = agent_group_id

abbrev channel_of : Destination → String
channel_of (channel channel_type platform_id) = channel_type
channel_of (agent agent_group_id) = "agent"

unfoldable pub message_for :
    LoopEnv → InDb → OutDb → Destination → String → RoutingContext → WriteMessageOut
unfolding resolve_destination_thread
message_for env inbound outbound dest body routing =
    let found = resolve_destination_thread inbound (channel_of dest) (platform_of dest) in
    record {
      id = env.generate_id outbound;
      in_reply_to = elim found [ none ↦ routing.in_reply_to | some (thread, id) ↦ id ];
      deliver_after = none;
      recurrence = none;
      kind = "chat";
      platform_id = some (platform_of dest);
      channel_type = some (channel_of dest);
      thread_id = elim found [ none ↦ none | some (thread, id) ↦ thread ];
      content = env.text_json body;
    }

unfoldable pub send_to_destination :
    LoopEnv → InDb → OutDb → ℕ → Destination → String → RoutingContext → WrittenOut
unfolding write_out message_for
send_to_destination env inbound outbound now dest body routing =
    write_out inbound outbound now (message_for env inbound outbound dest body routing)

-- Where the loop over the blocks stands.
pub record Dispatch : Type 0 where
  pub written : WrittenOut
  pub sent : ℕ
  pub scratchpad : String

abbrev add_scratch : Dispatch → String → Dispatch
add_scratch d s = record d { scratchpad = String.◌++◌ d.scratchpad s }

abbrev dropped : String → String → String
dropped name body =
    String.◌++◌ "[dropped: unknown destination \"" (String.◌++◌ name (String.◌++◌ "\"] " body))

unfoldable pub dispatch_segment :
    LoopEnv → InDb → ℕ → RoutingContext → Dispatch → Segment → Dispatch
unfolding send_to_destination
dispatch_segment env inbound now routing d (scratch s) = add_scratch d s
dispatch_segment env inbound now routing d (block name body) = elim (env.find_by_name name) [
  | none ↦ add_scratch d (dropped name body)
  | some dest ↦
      let w = send_to_destination env inbound d.written.outbound now dest body routing in
      record d { written = w; sent = if w.threw then d.sent else d.sent + 1 }
]

-- A write that throws ends the loop.
unfoldable pub dispatch_segments :
    LoopEnv → InDb → ℕ → RoutingContext → List Segment → Dispatch → Dispatch
unfolding dispatch_segment
dispatch_segments env inbound now routing [] d = d
dispatch_segments env inbound now routing (s ∷ segments) d =
    let d' = dispatch_segment env inbound now routing d s in
    let rest = dispatch_segments env inbound now routing segments d' in
    if d'.written.threw then d' else rest

-- The result, and `hasUnwrapped`.
unfoldable pub dispatch_result_text :
    LoopEnv → InDb → OutDb → ℕ → String → RoutingContext → WrittenOut × Bool
unfolding dispatch_segments
dispatch_result_text env inbound outbound now text routing =
    let d = dispatch_segments env inbound now routing (env.segments text) (record {
      written = record { outbound = outbound; threw = false };
      sent = 0;
      scratchpad = "";
    }) in
    (d.written, d.sent == 0 && not (env.strip_internal_tags d.scratchpad === ""))
