-- ===== src/PollLoop/Streak.antt =====
-- The count of corruption errors in the polls of a query
-- (`container/agent-runner/src/poll-loop.ts`).
use lfontes_nanoclaw.Prelude.{
  leb, if◌then◌else◌, Bool-cases, length, All, select, ℕ, suc, ◌+◌, String, ◌≡◌, refl, sym, ap, ◌∙◌,
  inl, inr, Bool, true, false, ◌||◌, List, [], ◌∷◌, arith,
}
use lfontes_nanoclaw.Text.{Text}
use lfontes_nanoclaw.SessionDb.{InDb, OutDb}
use lfontes_nanoclaw.Container.MessagesIn.{get_pending_messages}
use lfontes_nanoclaw.PollLoop.{
  Happening, event, follow_up, FollowUpEnd, failed_poll, LoopEnv, RoutingContext, Runner,
}
use lfontes_nanoclaw.PollLoop.Query.{
  Query, poll_follow_ups, count_error, corruption_streak_exit, is_corruption_error, take_happening,
  run, open_query, process_query,
}

-- A poll that throws a corruption error.
abbrev pub is_corrupt : Happening → Bool
is_corrupt (failed_poll msg) = is_corruption_error msg
is_corrupt _ = false

-- A poll that reads the databases and finds nothing, or one that throws a corruption error.
abbrev pub IsIdlePoll : LoopEnv → OutDb → Happening → Type 0
IsIdlePoll env outbound (event now inbound e) = ⊥
IsIdlePoll env outbound (follow_up now inbound end) =
    get_pending_messages inbound outbound env.max_messages false now ≡ []
IsIdlePoll env outbound (failed_poll msg) = is_corruption_error msg ≡ true

-- How many of them threw.
abbrev pub errors : List Happening → ℕ
errors happenings = length (select is_corrupt happenings)

past_exit :
    (s a b : ℕ)
    → leb corruption_streak_exit s ≡ true
    → leb corruption_streak_exit (s + a) ≡ leb corruption_streak_exit (s + b)
past_exit s a b h = ground arith

module _ (env : LoopEnv) (routing : RoutingContext) (batch : List String) (outbound : OutDb) where
  if_same : (b : Bool) (x y : Query) → y ≡ x → (if b then x else y) ≡ x
  if_same true x y h = refl
  if_same false x y h = h

  -- A poll that finds nothing does nothing.
  take_happening-follow_up :
      (q : Query) (now : ℕ) (inbound : InDb) (end : FollowUpEnd)
      → get_pending_messages inbound q.runner.outbound env.max_messages false now ≡ []
      → take_happening env routing batch q (follow_up now inbound end) ≡ q
  unfolding take_happening poll_follow_ups select
  take_happening-follow_up q now inbound end e =
      if_same (q.ended_for_command || q.exiting) q (poll_follow_ups env q now inbound end)
        (rw (poll_follow_ups, e) refl)

  -- The query after one more error.
  abbrev counted : Query → Query
  counted q = record q {
    corruption_streak = q.corruption_streak + 1;
    exiting = q.exiting || leb corruption_streak_exit (q.corruption_streak + 1);
  }

  take_happening-failed_poll :
      (q : Query) (msg : Text)
      → q.ended_for_command ≡ false
      → q.exiting ≡ false
      → is_corruption_error msg ≡ true
      → take_happening env routing batch q (failed_poll msg) ≡ counted q
  unfolding take_happening count_error
  take_happening-failed_poll q msg n x c = rw (take_happening, n, x, c) refl

  take_happening-exiting :
      (q : Query) (msg : Text)
      → q.exiting ≡ true
      → take_happening env routing batch q (failed_poll msg) ≡ q
  unfolding take_happening
  take_happening-exiting q msg x = elim (Bool-cases q.ended_for_command) [
    | inl n ↦ rw (take_happening, n) refl
    | inr n ↦ rw (take_happening, n, x) refl
  ]

  run-next :
      (q q' : Query) (h : Happening) (happenings : List Happening)
      → take_happening env routing batch q h ≡ q'
      → q'.threw ≡ false
      → run env routing batch (h ∷ happenings) q ≡ run env routing batch happenings q'
  unfolding run
  run-next q q' h happenings e t = rw (run, e, t) refl

  run-exiting :
      (happenings : List Happening) (q : Query)
      → All (IsIdlePoll env outbound) happenings
      → q.runner.outbound ≡ outbound
      → q.ended_for_command ≡ false
      → q.threw ≡ false
      → q.exiting ≡ leb corruption_streak_exit q.corruption_streak
      → (run env routing batch happenings q).exiting
        ≡ leb corruption_streak_exit (q.corruption_streak + errors happenings)
  unfolding run select
  run-exiting [] q i o n t x = x ∙ ap (leb corruption_streak_exit) (omega arith)
  run-exiting (event now inbound e ∷ happenings) q i o n t x = absurd i.0
  run-exiting (follow_up now inbound end ∷ happenings) q i o n t x =
      ap (λ (r : Query). r.exiting)
        (run-next q q (follow_up now inbound end) happenings
          (take_happening-follow_up q now inbound end (rw o i.0)) t)
      ∙ run-exiting happenings q i.1 o n t x
  run-exiting (failed_poll msg ∷ happenings) q i o n t x = elim (Bool-cases q.exiting) [
    | inl y ↦
        ap (λ (r : Query). r.exiting)
          (run-next q q (failed_poll msg) happenings (take_happening-exiting q msg y) t)
        ∙ run-exiting happenings q i.1 o n t x
        ∙ rw i.0 (
            past_exit q.corruption_streak (errors happenings)
              (suc (length (select is_corrupt happenings))) (sym x ∙ y))
    | inr y ↦
        ap (λ (r : Query). r.exiting)
          (run-next q (counted q) (failed_poll msg) happenings
            (take_happening-failed_poll q msg n y i.0) t)
        ∙ run-exiting happenings (counted q) i.1 o n t (rw y refl)
        ∙ rw i.0 (ap (leb corruption_streak_exit) (omega arith))
  ]

-- Over polls that find nothing or throw corruption errors, the process is to exit exactly if ten
-- or more of them threw, wherever the polls between them that read the databases without an error
-- stand: a successful poll does not set the count back.
pub process_query-exiting :
    (env : LoopEnv) (routing : RoutingContext) (batch : List String) (happenings : List Happening)
    (runner : Runner)
    → All (IsIdlePoll env runner.outbound) happenings
    → (process_query env routing batch happenings runner).exiting ≡ leb 10 (errors happenings)
unfolding process_query
process_query-exiting env routing batch happenings runner i =
    run-exiting env routing batch runner.outbound happenings (open_query runner) i refl refl refl
      refl
    ∙ ap (leb corruption_streak_exit) (omega arith)
