-- ===== src/Tests/Startup.antt =====
-- Startups a minute apart.
use lfontes_nanoclaw.Prelude.{ℕ, ◌+◌, ◌*◌, ◌≤◌, min, ◌≡◌, none, some, [], ◌∷◌, arith}
use lfontes_nanoclaw.CircuitBreaker.{
  at, backoff_schedule_s, crashes, enforce_startup_backoff, enforce_startup_backoff-crashes,
  reset_circuit_breaker, enforce_startup_backoff-bounded,
}

enforce_startup_backoff-crashes_example :
    (enforce_startup_backoff 180000 (crashes (0 ∷ 60000 ∷ 120000 ∷ []) none)).1
    ≡ at backoff_schedule_s (min (1 + 2) 6)
enforce_startup_backoff-crashes_example =
    enforce_startup_backoff-crashes 0 (60000 ∷ 120000 ∷ []) 180000 (omega arith, (omega arith, tt))
      (omega arith)

enforce_startup_backoff-bounded_example :
    ((d : ℕ) × ((enforce_startup_backoff 5 (some (record { attempt = 40; timestamp = 1 }))).1
        ≡ some d)
      × (d ≤ 15 * 60))
    × ((enforce_startup_backoff 5
          (reset_circuit_breaker (some (record { attempt = 40; timestamp = 1 })))).1
        ≡ some 0)
enforce_startup_backoff-bounded_example =
    enforce_startup_backoff-bounded 5 (some (record { attempt = 40; timestamp = 1 }))
