-- ===== src/Tests/Sweep.antt =====
-- The host sweep at concrete databases.
use lfontes_nanoclaw.Prelude.{
  ◌===◌, any, All, update, ℕ, ◌≤◌, ◌≡◌, refl, true, false, Option, none, some, [], ◌∷◌, arith,
}
use lfontes_nanoclaw.SessionDb.{ContainerState, MessageIn, get_processing_claims}
use lfontes_nanoclaw.HostSweep.{
  ok, kill_ceiling, kill_claim, StuckArgs, decide_claims, decide_stuck_action, max_tries,
  reset_stuck_processing_rows,
}
use lfontes_nanoclaw.HostSweep.Stuck.{Explains, decide_stuck_action-Explains}
use lfontes_nanoclaw.HostSweep.Reset.{
  given_back, UniqueIds, reset_stuck_processing_rows_lem, reset_stuck_processing_rows_idempotent,
  reset_spares_next_container, reset_tries_bounded,
}
use lfontes_nanoclaw.Tests.Data.{claim, in_db, out_db}

abbrev bash : ℕ → Option ContainerState
bash t = some (record { current_tool = some "Bash"; tool_declared_timeout_ms = some t })

abbrev silent : Option ContainerState → StuckArgs
silent state = record {
  now = 1000000;
  heartbeat_mtime_ms = 500;
  container_state = state;
  claims = claim "m-2" 900000 ∷ [];
}

-- A container that is silent since its claim is killed, unless Bash was declared to take longer.
stuck_tests :
    (decide_stuck_action (silent none) ≡ kill_claim "m-2" 100000 60000)
    × (decide_stuck_action (silent (bash 200000)) ≡ ok)
    × (decide_stuck_action (record (silent none) { now = 2000000 }) ≡ kill_ceiling 1999500 1800000)
unfolding decide_stuck_action decide_claims
stuck_tests = (refl, refl, refl)

decide_stuck_action-Explains_example : Explains (silent none) (decide_stuck_action (silent none))
decide_stuck_action-Explains_example = decide_stuck_action-Explains (silent none)

in_db-UniqueIds : UniqueIds in_db.messages_in
in_db-UniqueIds = ((refl, (refl, (refl, tt))), ((refl, (refl, tt)), ((refl, tt), (tt, tt))))

reset_stuck_processing_rows_lem_example :
    ((reset_stuck_processing_rows 10000 false (in_db, out_db)).0 ≡ record in_db {
      messages_in =
          update
            (λ m. any (λ c. m.id === c.message_id) (get_processing_claims out_db))
            (given_back 10000)
            in_db.messages_in;
    })
    × (get_processing_claims (reset_stuck_processing_rows 10000 false (in_db, out_db)).1
        ≡ get_processing_claims out_db)
reset_stuck_processing_rows_lem_example =
    reset_stuck_processing_rows_lem 10000 false in_db out_db in_db-UniqueIds

reset_stuck_processing_rows_idempotent_example :
    let once = reset_stuck_processing_rows 10000 true (in_db, out_db) in
    (reset_stuck_processing_rows 10000 false once).0 ≡ once.0
reset_stuck_processing_rows_idempotent_example =
    reset_stuck_processing_rows_idempotent 10000 in_db out_db true false in_db-UniqueIds

reset_spares_next_container_example :
    decide_stuck_action (record {
      now = 9000000;
      heartbeat_mtime_ms = 0;
      container_state = none;
      claims = get_processing_claims (reset_stuck_processing_rows 10000 true (in_db, out_db)).1;
    })
    ≡ ok
reset_spares_next_container_example = reset_spares_next_container 10000 9000000 in_db out_db none

reset_tries_bounded_example :
    All
      (λ (m : MessageIn). m.tries ≤ max_tries)
      (reset_stuck_processing_rows 10000 true (in_db, out_db)).0.messages_in
reset_tries_bounded_example =
    reset_tries_bounded 10000 true in_db out_db in_db-UniqueIds (omega arith)
