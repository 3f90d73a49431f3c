-- ===== src/Lib.antt =====
-- NanoClaw: a host process that routes chat messages to agents in containers.
--
-- A session has two SQLite files, each with one writer: inbound.db (the host) and outbound.db (the
-- container). The host's router writes a message to inbound.db and wakes a container; the container
-- polls inbound.db, acknowledges in outbound.db and answers there; the host delivers the answers and
-- sweeps the session: it takes over the acknowledgements, kills a silent container, gives back what
-- a dead one had claimed, and adds the next run of each recurring task.
--
-- SessionDb        rows and statements of both files (src/db/session-db.ts, src/db/schema.ts);
--                  next_even_seq is nextEvenSeq, insert_message is insertMessage, and so on.
-- Container        the container's side (container/agent-runner/src/db): MessagesIn, MessagesOut, Commands.
-- PollLoop         the loop of the agent runner (container/agent-runner/src/poll-loop.ts, with
--                  db/session-state.ts and scheduling/task-script.ts): Answer (dispatchResultText), Query
--                  (processQuery as a sequence of events and polls), Round (one round of runPollLoop); on
--                  them Acks, Kept, Completed, Batches, Progress and Streak.
-- Protocol         what both sides keep together: Seq, Lookup.
-- Scheduling       tasks and their recurrence (src/modules/scheduling).
-- HostSweep        the periodic sweep (src/host-sweep.ts).
-- Text             the JavaScript string functions that commands are read with.
-- Permissions      roles, members, access and approvers (src/modules/permissions, and pickApprover of
--                  src/modules/approvals/primitive.ts).
-- Senders          unknown senders (src/modules/permissions/index.ts): Dm (user-dm.ts), Request
--                  (sender-approval.ts), Gates (the hooks of the router), Answers (the clicks on cards);
--                  on them Ranks and GateRanks (what is left alone), KeptOut, Outsiders, Approved, Admitted.
--                  Its tables are those of the central database as it sees them: users,
--                  chats and roles stand there again, next to those of Permissions and Router.
-- CommandGate      slash commands at the host (src/command-gate.ts); Container.Commands has the
--                  runner's side (container/agent-runner/src/formatter.ts).
-- Sessions         session rows and how a message finds its session (src/db/sessions.ts, and
--                  resolveSession of src/session-manager.ts).
-- Router           routeInbound (src/router.ts): State (rows, hooks), Deliver (evaluateEngage,
--                  deliverToAgent), Fanout (the loop over the wired agents), Inbound (around it).
-- AgentToAgent     messages between agents (src/modules/agent-to-agent): Destinations
--                  (db/agent-destinations.ts), Files and Route (agent-route.ts: resolveTargetSession,
--                  routeAgentMessage); on them Written, ReturnPath and Reach.
-- Delivery         the way out (src/delivery.ts): Message (deliverMessage), Drain (drainSession,
--                  deliverSessionMessages); on them Keeps, Kept, Progress and Rounds (the attempts),
--                  Allowed (the permission), Idle.
-- ChatState        the chat library's state (src/state-sqlite.ts); on it Expiry, Locks, Queue, Refines.
-- CircuitBreaker   the startup backoff (src/circuit-breaker.ts).
-- MountSecurity    the mounts of a group (src/modules/mount-security/index.ts); on it Safe.
-- Cli              the command line (src/cli): values, arguments and commands; Dispatch (dispatch.ts), Crud
--                  and Resource (crud.ts), Requests (delivery-action.ts); on them Scope, Answers, Update.
-- Tests            concrete inputs.
--
-- A table is a list of rows in order of insertion; an insert that SQLite refuses is `none`. Times
-- are natural numbers of milliseconds. Subtractions that JavaScript may take below zero stop at 0,
-- with a remark where that matters. The clock, the cron parser, generated ids, JSON,
-- regular expressions and the answers of the agent are parameters. So are the hooks in Router, of
-- which Senders defines three. What happens while a query is open is a finite list of events and
-- polls, and a request for an approval runs to its end, so no fuel is needed for either. Logging,
-- files, processes and network adapters are not modelled.
pub mod Prelude
pub mod SessionDb
pub mod Container
pub mod Protocol
pub mod Scheduling
pub mod HostSweep
mod Tests
pub mod Text
pub mod Permissions
pub mod CommandGate
pub mod Sessions
pub mod Router
pub mod AgentToAgent
pub mod Delivery
pub mod ChatState
pub mod CircuitBreaker
pub mod MountSecurity
pub mod Cli
pub mod Senders
pub mod PollLoop
