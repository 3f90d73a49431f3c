-- ===== src/HostSweep/Stuck.antt =====
-- When a running container is killed (`decideStuckAction`, `src/host-sweep.ts`).
use lfontes_nanoclaw.Prelude.{
  ltb, leb, ◌==◌, if◌then◌else◌, Bool-cases, or_else, All, In, ℕ, ◌+◌, ◌-◌, ◌≤◌, ◌<◌, max, ◌≡◌,
  refl, ◌≢◌, inl, inr, true, false, ◌&&◌, not, Option, none, some, List, [], ◌∷◌, arith,
}
use lfontes_nanoclaw.SessionDb.{Ack}
use lfontes_nanoclaw.HostSweep.{
  absolute_ceiling_ms, claim_stuck_ms, StuckDecision, ok, kill_ceiling, kill_claim, StuckArgs,
  bash_timeout_ms, decide_claims, decide_stuck_action,
}

-- The time that Bash was declared to take, 0 if another tool or none is running.
abbrev pub declared_ms : StuckArgs → ℕ
declared_ms args = or_else (bash_timeout_ms args.container_state) 0

-- A heartbeat was seen, and the last one is older than half an hour and than Bash was declared to take.
abbrev pub IsSilent : StuckArgs → Type 0
IsSilent args =
    (args.heartbeat_mtime_ms ≢ 0)
    × (args.heartbeat_mtime_ms + absolute_ceiling_ms < args.now)
    × (args.heartbeat_mtime_ms + declared_ms args < args.now)

-- The claim is older than a minute and than Bash was declared to take, and no heartbeat came after it.
abbrev pub IsStuck : ℕ → ℕ → ℕ → Ack → Type 0
IsStuck now heartbeat declared claim =
    (t : ℕ) × (claim.status_changed ≡ some t)
    × (t + claim_stuck_ms < now)
    × (t + declared < now)
    × (heartbeat ≤ t)

-- What each decision means.
abbrev pub Explains : StuckArgs → StuckDecision → Type 0
Explains args ok =
    (¬ IsSilent args)
    × All (λ c. ¬ IsStuck args.now args.heartbeat_mtime_ms (declared_ms args) c) args.claims
Explains args (kill_ceiling age ceiling) =
    IsSilent args
    × (age + args.heartbeat_mtime_ms ≡ args.now)
    × (ceiling ≡ max absolute_ceiling_ms (declared_ms args))
Explains args (kill_claim id age tolerance) =
    (¬ IsSilent args)
    × ((c : Ack) × In c args.claims
        × IsStuck args.now args.heartbeat_mtime_ms (declared_ms args) c
        × (c.message_id ≡ id))

abbrev ClaimsExplained : ℕ → ℕ → ℕ → List Ack → StuckDecision → Type 0
ClaimsExplained now hb declared claims ok = All (λ c. ¬ IsStuck now hb declared c) claims
ClaimsExplained now hb declared claims (kill_ceiling age ceiling) = ⊥
ClaimsExplained now hb declared claims (kill_claim id age tolerance) =
    (c : Ack) × In c claims × IsStuck now hb declared c × (c.message_id ≡ id)

later_claim :
    (now hb declared : ℕ) (c : Ack) (claims : List Ack) (d : StuckDecision)
    → (¬ IsStuck now hb declared c)
    → ClaimsExplained now hb declared claims d
    → ClaimsExplained now hb declared (c ∷ claims) d
later_claim now hb declared c claims ok n h = (n, h)
later_claim now hb declared c claims (kill_ceiling a b) n h = h
later_claim now hb declared c claims (kill_claim id a b) n (k, m, s, e) = (k, inr m, s, e)

abbrev step_claim : ℕ → ℕ → ℕ → Ack → StuckDecision → Option ℕ → StuckDecision
step_claim now hb tolerance c rest none = rest
step_claim now hb tolerance c rest (some t) =
    if leb (now - t) tolerance
    then rest
    else if ltb t hb
    then rest
    else kill_claim c.message_id (now - t) tolerance

step_claim_explained :
    (now hb declared : ℕ) (c : Ack) (claims : List Ack) (rest : StuckDecision) (o : Option ℕ)
    → c.status_changed ≡ o
    → ClaimsExplained now hb declared claims rest
    → ClaimsExplained now hb declared
        (c ∷ claims)
        (step_claim now hb (max claim_stuck_ms declared) c rest o)
step_claim_explained now hb declared c claims rest none e h =
    later_claim now hb declared c claims rest (λ s. cc (e, s.1)) h
step_claim_explained now hb declared c claims rest (some t) e h =
    elim (Bool-cases (leb (now - t) (max claim_stuck_ms declared))) [
      | inl young ↦ rw young (later_claim now hb declared c claims rest (λ s. ground (arith, s)) h)
      | inr old ↦ elim (Bool-cases (ltb t hb)) [
        | inl seen ↦
            rw (old, seen) (later_claim now hb declared c claims rest (λ s. ground (arith, s)) h)
        | inr silent ↦
            rw (old, silent) (c, inl refl, (t, e, ground arith, ground arith, ground arith), refl)
      ]
    ]

decide_claims_explained :
    (now hb declared : ℕ) (claims : List Ack)
    → ClaimsExplained now hb declared claims
        (decide_claims now hb (max claim_stuck_ms declared) claims)
unfolding decide_claims
decide_claims_explained now hb declared [] = tt
decide_claims_explained now hb declared (c ∷ claims) =
    step_claim_explained now hb declared c claims _ c.status_changed refl
      (decide_claims_explained now hb declared claims)

silent_iff :
    (hb now declared : ℕ)
    → (not (hb == 0) && ltb (max absolute_ceiling_ms declared) (now - hb)) ≡ true
    → (hb ≢ 0) × (hb + absolute_ceiling_ms < now) × (hb + declared < now)
silent_iff hb now declared h = ground arith

not_silent :
    (hb now declared : ℕ)
    → (not (hb == 0) && ltb (max absolute_ceiling_ms declared) (now - hb)) ≡ false
    → ¬ ((hb ≢ 0) × (hb + absolute_ceiling_ms < now) × (hb + declared < now))
not_silent hb now declared h s = ground arith

claims_decided :
    (args : StuckArgs) (d : StuckDecision)
    → (¬ IsSilent args)
    → ClaimsExplained args.now args.heartbeat_mtime_ms (declared_ms args) args.claims d
    → Explains args d
claims_decided args ok n h = (n, h)
claims_decided args (kill_ceiling a b) n h = absurd h
claims_decided args (kill_claim id a b) n h = (n, h)

-- The decision is explained by the facts: "ceiling" means that the last heartbeat is older than half
-- an hour and than Bash was declared to take, with its age and the bound reported; "claim" that
-- this is not so, but some claim is older than a minute and than Bash was declared to take, with no
-- heartbeat after it; "ok" that neither holds.
pub decide_stuck_action-Explains : (args : StuckArgs) → Explains args (decide_stuck_action args)
unfolding decide_stuck_action
decide_stuck_action-Explains args =
    elim (Bool-cases (
      not (args.heartbeat_mtime_ms == 0)
      && ltb (max absolute_ceiling_ms (declared_ms args)) (args.now - args.heartbeat_mtime_ms))) [
        | inl s ↦
            rw s
              (silent_iff args.heartbeat_mtime_ms args.now (declared_ms args) s, ground arith, refl)
        | inr n ↦ rw n (
            claims_decided args _ (not_silent args.heartbeat_mtime_ms args.now (declared_ms args) n)
              (decide_claims_explained args.now args.heartbeat_mtime_ms (declared_ms args)
                args.claims))
      ]
