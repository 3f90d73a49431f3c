-- ===== src/HostSweep.antt =====
-- The periodic sweep of a session: `src/host-sweep.ts`.
--
-- Ages are truncated subtractions: the code compares an age only with a bound that is not negative,
-- and a clock that runs behind gives it a negative age, which is below every bound as 0 is.
pub mod Stuck
pub mod Reset
use lfontes_nanoclaw.Prelude.{
  ltb, leb, ◌==◌, ◌===◌, if◌then◌else◌, ltb→lt, leb→le, ==_iff, ===_iff, ===_refl, Bool-cases,
  Option-cases, &&-true, is_some, opt_eq, opt_eq_refl, opt_eq_iff, or_else, length, take, any, all,
  All, All-imp, All-and, All-append, All-take, length-append, length-take-le, In, All-In, In-All,
  any-In, In-append_left, In-append_right, In-map, select, first, update, delete, max_of, insert_by,
  order_by, All-select, All-delete, All-update, All-insert_by, All-order_by, select_holds,
  delete_fails, le-max_of, any-false, first-some, first-none, select-update_outside, map-update,
  update_twice, update_clears, select-append, any-append, any-update, length-update, ℕ, zero, suc,
  ◌+◌, ◌-◌, ◌*◌, ◌/◌, ◌%◌, ◌^◌, ◌≤◌, ◌<◌, min, max, String, ◌≡◌, refl, sym, ap, ◌∙◌, ◌≢◌, ◌↔◌, ◌⊎◌,
  inl, inr, Bool, true, false, ◌&&◌, ◌||◌, not, Option, none, some, List, [], ◌∷◌, ◌++◌, map,
  reverse, arith,
}
use lfontes_nanoclaw.SessionDb.{
  MessageIn, InDb, Ack, ContainerState, OutDb, is_pending, count_due_messages, mark_message_failed,
  retry_with_backoff, get_message_for_retry, sync_processing_acks, get_processing_claims,
  delete_orphan_processing_claims, get_container_state,
}
use lfontes_nanoclaw.Scheduling.{Cron, handle_recurrence}

abbrev pub absolute_ceiling_ms : ℕ
absolute_ceiling_ms = 30 * 60 * 1000

abbrev pub claim_stuck_ms : ℕ
claim_stuck_ms = 60 * 1000

abbrev pub max_tries : ℕ
max_tries = 5

abbrev pub backoff_base_ms : ℕ
backoff_base_ms = 5000

pub data StuckDecision : Type 0 where
  ok : StuckDecision
  kill_ceiling : (heartbeat_age_ms ceiling_ms : ℕ) → StuckDecision
  kill_claim : (message_id : String) (claim_age_ms tolerance_ms : ℕ) → StuckDecision

-- `heartbeat_mtime_ms` is 0 when the heartbeat file is absent.
pub record StuckArgs : Type 0 where
  pub now : ℕ
  pub heartbeat_mtime_ms : ℕ
  pub container_state : Option ContainerState
  pub claims : List Ack

unfoldable pub bash_timeout_ms : Option ContainerState → Option ℕ
bash_timeout_ms none = none
bash_timeout_ms (some state) =
    if opt_eq state.current_tool (some "Bash") then state.tool_declared_timeout_ms else none

-- The loop over the claims: the first that is older than the tolerance and has seen no heartbeat.
unfoldable pub decide_claims : ℕ → ℕ → ℕ → List Ack → StuckDecision
decide_claims now heartbeat tolerance [] = ok
decide_claims now heartbeat tolerance (claim ∷ claims) =
    let rest = decide_claims now heartbeat tolerance claims in
    elim claim.status_changed [
      | none ↦ rest
      | some claimed_at ↦
          if leb (now - claimed_at) tolerance
          then rest
          else if ltb claimed_at heartbeat
          then rest
          else kill_claim claim.message_id (now - claimed_at) tolerance
    ]

unfoldable pub decide_stuck_action : StuckArgs → StuckDecision
unfolding bash_timeout_ms
decide_stuck_action args =
    let declared = or_else (bash_timeout_ms args.container_state) 0 in
    let ceiling = max absolute_ceiling_ms declared in
    let age = args.now - args.heartbeat_mtime_ms in
    if not (args.heartbeat_mtime_ms == 0) && ltb ceiling age
    then kill_ceiling age ceiling
    else decide_claims args.now args.heartbeat_mtime_ms (max claim_stuck_ms declared) args.claims

-- `msg.processAfter && parseSqliteUtc(msg.processAfter) > now`
abbrev pub is_rescheduled : ℕ → Option ℕ → Bool
is_rescheduled now none = false
is_rescheduled now (some t) = ltb now t

unfoldable pub backoff_sec : ℕ → ℕ
backoff_sec tries = backoff_base_ms * 2 ^ tries / 1000

-- One round of the loop of `resetStuckProcessingRows`.
abbrev pub reset_message : InDb → ℕ → Option MessageIn → InDb
reset_message db now none = db
reset_message db now (some msg) =
    if is_rescheduled now msg.process_after
    then db
    else if leb max_tries msg.tries
    then mark_message_failed db msg.id
    else retry_with_backoff db now msg.id (backoff_sec msg.tries)

unfoldable pub reset_claims : ℕ → List Ack → InDb → InDb
reset_claims now [] db = db
reset_claims now (claim ∷ claims) db =
    reset_claims now claims
      (reset_message db now (get_message_for_retry db claim.message_id is_pending))

-- `can_write` says whether outbound.db could be opened for writing; a failure is only logged.
unfoldable pub reset_stuck_processing_rows : ℕ → Bool → InDb × OutDb → InDb × OutDb
reset_stuck_processing_rows now can_write (in_db, out_db) = (
  reset_claims now (get_processing_claims out_db) in_db,
  if can_write then delete_orphan_processing_claims out_db else out_db,
)

-- The session as the sweep sees it. `out_db` is `none` where outbound.db cannot be opened.
pub record SweepState : Type 0 where
  pub in_db : InDb
  pub out_db : Option OutDb
  pub running : Bool

-- What one sweep meets: the clock, the heartbeat file, whether a container is up after the wake that
-- it asks for, what others write while it waits for that, and whether outbound.db can be written.
pub record SweepEnv : Type 0 where
  pub now : ℕ
  pub heartbeat_mtime_ms : ℕ
  pub woken : Bool
  pub meanwhile : InDb × OutDb → InDb × OutDb
  pub can_write : Bool

abbrev pub stuck_args : SweepEnv → OutDb → StuckArgs
stuck_args env out_db = record {
  now = env.now;
  heartbeat_mtime_ms = env.heartbeat_mtime_ms;
  container_state = get_container_state out_db;
  claims = get_processing_claims out_db;
}

-- Either kill stops the container and resets its rows; the flag says whether it was killed.
abbrev after_decision : SweepEnv → StuckDecision → InDb × OutDb → InDb × OutDb × Bool
after_decision env ok (i, o) = (i, o, false)
after_decision env _ dbs =
    let (i, o) = reset_stuck_processing_rows env.now env.can_write dbs in (i, o, true)

abbrev left_running : InDb × OutDb × Bool → InDb × OutDb × Bool
left_running (i, o, killed) = (i, o, not killed)

abbrev stopped : InDb × OutDb → InDb × OutDb × Bool
stopped (i, o) = (i, o, false)

unfoldable pub enforce_running_container_sla : SweepEnv → InDb × OutDb → InDb × OutDb × Bool
enforce_running_container_sla env (i, o) =
    after_decision env (decide_stuck_action (stuck_args env o)) (i, o)

-- Steps 1 to 4 where outbound.db is open: acknowledgements, wake, then the rules for a live
-- container or the clean-up after a dead one. Returns whether a container is left running.
unfoldable pub sweep_dbs : SweepEnv → Bool → InDb × OutDb → InDb × OutDb × Bool
sweep_dbs env running (i, o) =
    let synced = sync_processing_acks i o in
    let wakes = ltb 0 (count_due_messages synced env.now) && not running in
    let dbs = if wakes then env.meanwhile (synced, o) else (synced, o) in
    let alive = if wakes then env.woken else running in
    if alive
    then left_running (enforce_running_container_sla env dbs)
    else stopped (reset_stuck_processing_rows env.now env.can_write dbs)

-- The same where outbound.db is not there: only the wake is left.
abbrev wake_only : SweepEnv → SweepState → Bool
wake_only env s =
    if ltb 0 (count_due_messages s.in_db env.now) && not s.running then env.woken else s.running

unfoldable pub sweep_session : Cron → SweepEnv → SweepState → SweepState
sweep_session cron env s = elim s.out_db [
  | none ↦ record s { in_db = handle_recurrence cron env.now s.in_db; running = wake_only env s }
  | some o ↦
      let (i', o', running) = sweep_dbs env s.running (s.in_db, o) in
      record { in_db = handle_recurrence cron env.now i'; out_db = some o'; running = running }
]
