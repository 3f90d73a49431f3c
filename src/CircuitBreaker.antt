-- ===== src/CircuitBreaker.antt =====
-- The delay of a startup after crashes (`src/circuit-breaker.ts`). The state is the file, `none` where
-- it is missing or does not parse; a clean shutdown removes it.
use lfontes_nanoclaw.Prelude.{
  ltb, if◌then◌else◌, length, All, ℕ, zero, suc, ◌+◌, ◌-◌, ◌*◌, ◌≤◌, ◌<◌, min, ◌≡◌, refl, ap, ◌∙◌,
  Option, none, some, List, [], ◌∷◌, arith,
}

abbrev pub reset_window_ms : ℕ
reset_window_ms = 60 * 60 * 1000

abbrev pub backoff_schedule_s : List ℕ
backoff_schedule_s = 0 ∷ 0 ∷ 10 ∷ 30 ∷ 120 ∷ 300 ∷ 900 ∷ []

pub record CircuitBreakerState : Type 0 where
  pub attempt : ℕ
  pub timestamp : ℕ

-- `a[i]`
abbrev pub at : List ℕ → ℕ → Option ℕ
at [] i = none
at (x ∷ xs) zero = some x
at (x ∷ xs) (suc i) = at xs i

-- Undefined where the index is out of range; the attempt is at least 1, so no index is below 0.
unfoldable pub get_delay : ℕ → Option ℕ
get_delay attempt = at backoff_schedule_s (min (attempt - 1) (length backoff_schedule_s - 1))

-- A clock that went back counts as no time elapsed, which is as far inside the window.
abbrev pub next_attempt : ℕ → Option CircuitBreakerState → ℕ
next_attempt now none = 1
next_attempt now (some prev) =
    if ltb (now - prev.timestamp) reset_window_ms then prev.attempt + 1 else 1

-- The state that a startup writes, and its delay in seconds.
unfoldable pub enforce_startup_backoff :
    ℕ → Option CircuitBreakerState → Option CircuitBreakerState × Option ℕ
unfolding get_delay
enforce_startup_backoff now prev =
    let attempt = next_attempt now prev in
    (some (record { attempt = attempt; timestamp = now }), get_delay attempt)

abbrev pub reset_circuit_breaker : Option CircuitBreakerState → Option CircuitBreakerState
reset_circuit_breaker state = none

-- The state after startups at these times, with no clean shutdown between them.
unfoldable pub crashes : List ℕ → Option CircuitBreakerState → Option CircuitBreakerState
unfolding enforce_startup_backoff
crashes [] state = state
crashes (now ∷ times) state = crashes times (enforce_startup_backoff now state).0

-- Each time lies within the window after the one before.
abbrev pub Within : ℕ → List ℕ → Type 0
Within last [] = Unit
Within last (now ∷ times) = (now < last + reset_window_ms) × Within now times

abbrev pub last_of : ℕ → List ℕ → ℕ
last_of t [] = t
last_of t (now ∷ times) = last_of now times

next_attempt-within :
    (n last now : ℕ)
    → now < last + reset_window_ms
    → next_attempt now (some (record { attempt = n; timestamp = last })) ≡ n + 1
next_attempt-within n last now h = ground arith

crashes-attempt :
    (times : List ℕ) (n last : ℕ)
    → Within last times
    → crashes times (some (record { attempt = n; timestamp = last }))
      ≡ some (record { attempt = n + length times; timestamp = last_of last times })
unfolding crashes enforce_startup_backoff
crashes-attempt [] n last h =
    let e : n ≡ n + 0 = omega arith in
    ap (λ (k : ℕ). some (record { attempt = k; timestamp = last })) e
crashes-attempt (now ∷ times) n last h =
    let e : n + 1 + length times ≡ n + suc (length times) = omega arith in
    ap (λ (k : ℕ). crashes times (some (record { attempt = k; timestamp = now })))
      (next_attempt-within n last now h.0)
    ∙ crashes-attempt times (n + 1) now h.1
    ∙ ap (λ (k : ℕ). some (record { attempt = k; timestamp = last_of now times })) e

-- After startups none of which ended cleanly, each within an hour of the one before, the next one
-- within an hour waits as long as the schedule says for their number, the last entry for more.
pub enforce_startup_backoff-crashes :
    (start : ℕ) (times : List ℕ) (now : ℕ)
    → Within start times
    → now < last_of start times + reset_window_ms
    → (enforce_startup_backoff now (crashes (start ∷ times) none)).1
      ≡ at backoff_schedule_s (min (1 + length times) 6)
unfolding crashes enforce_startup_backoff get_delay
enforce_startup_backoff-crashes start times now h k =
    let e : 1 + length times + 1 - 1 ≡ 1 + length times = omega arith in
    rw
      (
        crashes-attempt times 1 start h,
        next_attempt-within (1 + length times) (last_of start times) now k,
        e,
      )
      refl

at-All :
    (bound : ℕ) (xs : List ℕ) (i : ℕ)
    → All (λ x. x ≤ bound) xs
    → i < length xs
    → (d : ℕ) × (at xs i ≡ some d) × (d ≤ bound)
at-All bound [] i h l = let x : ⊥ = omega (arith, l) in absurd x
at-All bound (x ∷ xs) zero h l = (x, refl, h.0)
at-All bound (x ∷ xs) (suc i) h l = at-All bound xs i h.1 (omega (arith, l))

schedule-bounded : All (λ d. d ≤ 15 * 60) backoff_schedule_s
schedule-bounded = (
  omega arith,
  (omega arith, (omega arith, (omega arith, (omega arith, (omega arith, (omega arith, tt)))))),
)

-- Whatever the file says, a startup has a delay, of at most fifteen minutes, and after a clean
-- shutdown it has none.
pub enforce_startup_backoff-bounded :
    (now : ℕ) (state : Option CircuitBreakerState)
    → ((d : ℕ) × ((enforce_startup_backoff now state).1 ≡ some d) × (d ≤ 15 * 60))
      × ((enforce_startup_backoff now (reset_circuit_breaker state)).1 ≡ some 0)
unfolding enforce_startup_backoff get_delay
enforce_startup_backoff-bounded now state = (
  at-All (15 * 60) backoff_schedule_s (min (next_attempt now state - 1) 6) schedule-bounded
      (omega arith),
  refl,
)
