-- ===== src/HostSweep/Reset.antt =====
-- Giving back what a dead container had claimed (`resetStuckProcessingRows`, `src/host-sweep.ts`).
use lfontes_nanoclaw.Prelude.{
  ltb, leb, ◌===◌, if◌then◌else◌, ===_iff, Bool-cases, any, All, All-imp, In-All, first, update,
  All-update, delete_fails, first-some, first-none, first-none_of, update_congr, update_idempotent,
  select_none, update_union, update_same, ℕ, zero, suc, ◌+◌, ◌*◌, ◌^◌, ◌≤◌, ◌<◌, String, ◌≡◌, refl,
  sym, ap, ◌∙◌, inl, inr, Bool, true, false, ◌&&◌, ◌||◌, not, Option, none, some, List, [], ◌∷◌,
  arith,
}
use native.Mathlib.Nat.{pow-suc}
use lfontes_nanoclaw.SessionDb.{
  failed, is_pending, datetime, MessageIn, InDb, Ack, ContainerState, OutDb, mark_message_failed,
  retry_with_backoff, get_message_for_retry, get_processing_claims, delete_orphan_processing_claims,
}
use lfontes_nanoclaw.HostSweep.{
  max_tries, backoff_sec, is_rescheduled, reset_message, reset_claims, reset_stuck_processing_rows,
  ok, decide_claims, decide_stuck_action,
}

-- A time after the present one.
abbrev pub is_later : ℕ → Option ℕ → Bool
is_later now none = false
is_later now (some t) = ltb now t

-- What becomes of a claimed message: a pending one that is not due later fails at five tries; before
-- that it has one try more, and waits for five seconds, doubled for each try that it had.
abbrev pub given_back : ℕ → MessageIn → MessageIn
given_back now m =
    if not (is_pending m.status) || is_later now m.process_after
    then m
    else if leb 5 m.tries
    then record m { status = failed }
    else record m {
      tries = m.tries + 1;
      process_after = some ((datetime now + 5 * 2 ^ m.tries) * 1000);
    }

backoff_sec_lem : (n : ℕ) → backoff_sec n ≡ 5 * 2 ^ n
unfolding backoff_sec
backoff_sec_lem n = omega arith

-- PRIMARY KEY (id)
abbrev pub UniqueIds : List MessageIn → Type 0
UniqueIds [] = Unit
UniqueIds (m ∷ rows) = All (λ x. (x.id === m.id) ≡ false) rows × UniqueIds rows

abbrev with_rows : InDb → List MessageIn → InDb
with_rows db rows = record db { messages_in = rows }

is_message : String → MessageIn → Bool
is_message id m = m.id === id && is_pending m.status

-- An id stands for one row.
unique_hit :
    (id : String) (rows : List MessageIn) (msg : MessageIn)
    → UniqueIds rows
    → first (is_message id) rows ≡ some msg
    → All (λ x. (x.id === id) ≡ true → x ≡ msg) rows
unfolding first is_message
unique_hit id [] msg u e = tt
unique_hit id (m ∷ rows) msg u e = elim (Bool-cases (m.id === id)) [
  | inr other ↦ (λ h. ground arith, unique_hit id rows msg u.1 (ground arith))
  | inl hit ↦
      let same : m.id ≡ id = (===_iff m.id id).0 hit in
      let gone : All (λ x. (x.id === id) ≡ false) rows = rw (← same) u.0 in
      elim (Bool-cases (is_pending m.status)) [
        | inl live ↦ (λ h. ground arith, All-imp _ _ rows (λ x k h. ground arith) gone)
        | inr dead ↦ ground (
          arith,
          first-none_of (is_message id) rows (All-imp _ _ rows (λ x k. ground arith) gone),
        )
      ]
]

given_back_id : (now : ℕ) (m : MessageIn) → (given_back now m).id ≡ m.id
given_back_id now m = ground arith

-- On the row that it meets, any update that does the same may stand for another.
same_on_hit :
    (id : String) (rows : List MessageIn) (msg : MessageIn) (f g : MessageIn → MessageIn)
    → All (λ x. (x.id === id) ≡ true → x ≡ msg) rows
    → f msg ≡ g msg
    → update (λ m. m.id === id) f rows ≡ update (λ m. m.id === id) g rows
same_on_hit id rows msg f g only e =
    update_congr (λ m. m.id === id) f g rows
      (All-imp _ _ rows (λ x k h. ap f (k h) ∙ e ∙ sym (ap g (k h))) only)

reset_found :
    (now : ℕ) (db : InDb) (id : String) (o : Option MessageIn)
    → UniqueIds db.messages_in
    → first (is_message id) db.messages_in ≡ o
    → reset_message db now o
      ≡ record db { messages_in = update (λ m. m.id === id) (given_back now) db.messages_in }
unfolding mark_message_failed retry_with_backoff is_message
reset_found now db id none u e =
    ap (λ rows. record db { messages_in = rows })
      (sym (
        update_same _ _ db.messages_in (
          All-imp _ _ db.messages_in (λ m h k. ground arith)
            (first-none (is_message id) db.messages_in e))))
reset_found now db id (some msg) u e =
    let hit = first-some (is_message id) db.messages_in msg e in
    let same : msg.id ≡ id = (===_iff msg.id id).0 (ground arith) in
    let only = unique_hit id db.messages_in msg u e in
    let rows = db.messages_in in
    let put = λ (rs : List MessageIn). record db { messages_in = rs } in
    elim (Bool-cases (is_rescheduled now msg.process_after)) [
      | inl r ↦ rw r (
          ap put (
            sym
              (update_same (λ m. m.id === id) (λ m. m) rows (All-imp _ _ rows (λ x k h. refl) only))
            ∙ same_on_hit id rows msg (λ m. m) (given_back now) only (ground arith)))
      | inr r ↦ elim (Bool-cases (leb max_tries msg.tries)) [
        | inl t ↦
            rw (r, t, same)
              (ap put (same_on_hit id rows msg _ (given_back now) only (ground arith)))
        | inr t ↦
            rw (r, t, same, backoff_sec_lem msg.tries)
              (ap put (same_on_hit id rows msg _ (given_back now) only (ground arith)))
      ]
    ]

UniqueIds-update :
    (p : MessageIn → Bool) (now : ℕ) (rows : List MessageIn)
    → UniqueIds rows
    → UniqueIds (update p (given_back now) rows)
unfolding update
UniqueIds-update p now [] u = tt
UniqueIds-update p now (m ∷ rows) u = (
  All-update _ p (given_back now) rows (λ x t h. ground arith)
      (All-imp _ _ rows (λ x h. ground arith) u.0),
  UniqueIds-update p now rows u.1,
)

-- A row that a reset leaves alone.
abbrev pub is_settled : ℕ → MessageIn → Bool
is_settled now m = not (is_pending m.status) || is_rescheduled now m.process_after

settled : (now : ℕ) (m : MessageIn) → is_settled now m ≡ true → given_back now m ≡ m
settled now m h = ground arith

one-le-pow : (n : ℕ) → 1 ≤ 2 ^ n
one-le-pow zero = omega arith
one-le-pow (suc n) = omega (arith, pow-suc 2 n, one-le-pow n)

five-le-backoff : (n : ℕ) → 5 ≤ 5 * 2 ^ n
five-le-backoff n = omega (arith, one-le-pow n)

in_future : (now b : ℕ) → 5 ≤ b → now < (datetime now + b) * 1000
in_future now b h = omega arith

given_back_settled : (now : ℕ) (m : MessageIn) → is_settled now (given_back now m) ≡ true
given_back_settled now m = ground (arith, in_future now (5 * 2 ^ m.tries) (five-le-backoff m.tries))

get_message_for_retry_lem :
    (db : InDb) (id : String)
    → get_message_for_retry db id is_pending ≡ first (is_message id) db.messages_in
unfolding get_message_for_retry is_message
get_message_for_retry_lem db id = refl

no_claims : (o : OutDb) → get_processing_claims (delete_orphan_processing_claims o) ≡ []
unfolding get_processing_claims delete_orphan_processing_claims
no_claims o = select_none _ _ (delete_fails _ o.processing_ack)

-- A reset keeps the number of tries within the limit.
pub given_back-tries :
    (now : ℕ) (m : MessageIn) → m.tries ≤ max_tries → (given_back now m).tries ≤ max_tries
given_back-tries now m h = ground arith

reset_claims_rows :
    (now : ℕ) (claims : List Ack) (db : InDb)
    → UniqueIds db.messages_in
    → reset_claims now claims db ≡ record db {
      messages_in =
          update (λ m. any (λ c. m.id === c.message_id) claims) (given_back now) db.messages_in;
    }
unfolding reset_claims
reset_claims_rows now [] db u =
    ap (λ rows. record db { messages_in = rows })
      (sym (
        update_same (λ m. false) (given_back now) db.messages_in
          (In-All _ db.messages_in (λ m k h. cc h))))
reset_claims_rows now (c ∷ claims) db u =
    rw (get_message_for_retry_lem db c.message_id, reset_found now db c.message_id _ u refl)
      (reset_claims_rows now claims _
          (UniqueIds-update (λ m. m.id === c.message_id) now db.messages_in u)
        ∙ ap (λ rows. record db { messages_in = rows })
            (update_union (λ m. m.id === c.message_id)
              (λ m. any (λ k. m.id === k.message_id) claims) (given_back now) db.messages_in
              (λ m. settled now _ (given_back_settled now m))
              (λ m. ap (λ i. any (λ k. i === k.message_id) claims) (given_back_id now m))))

-- Where ids are unique, and whether outbound.db can be written or not: a reset gives back each
-- claimed message (`given_back`: a pending one that is not due later fails at five tries, and is
-- otherwise put off by five seconds, doubled for each try that it had) and changes no other row.
-- It leaves no claim behind if outbound.db can be written, and else all of them.
pub reset_stuck_processing_rows_lem :
    (now : ℕ) (can_write : Bool) (i : InDb) (o : OutDb)
    → UniqueIds i.messages_in
    → ((reset_stuck_processing_rows now can_write (i, o)).0 ≡ record i {
      messages_in =
          update
            (λ m. any (λ c. m.id === c.message_id) (get_processing_claims o))
            (given_back now)
            i.messages_in;
    })
      × (get_processing_claims (reset_stuck_processing_rows now can_write (i, o)).1
          ≡ (if can_write then [] else get_processing_claims o))
unfolding reset_stuck_processing_rows
reset_stuck_processing_rows_lem now true i o u =
    (reset_claims_rows now (get_processing_claims o) i u, no_claims o)
reset_stuck_processing_rows_lem now false i o u =
    (reset_claims_rows now (get_processing_claims o) i u, refl)

-- Where ids are unique, a second reset at the same time changes no message, whether or not the
-- first one could delete the claims, and whether or not the second one can.
pub reset_stuck_processing_rows_idempotent :
    (now : ℕ) (i : InDb) (o : OutDb) (first_can_write second_can_write : Bool)
    → UniqueIds i.messages_in
    → let once = reset_stuck_processing_rows now first_can_write (i, o) in
      (reset_stuck_processing_rows now second_can_write once).0 ≡ once.0
unfolding reset_stuck_processing_rows reset_claims
reset_stuck_processing_rows_idempotent now i o true second_can_write u = rw (no_claims o) refl
reset_stuck_processing_rows_idempotent now i o false second_can_write u =
    let claimed = λ (m : MessageIn). any (λ c. m.id === c.message_id) (get_processing_claims o) in
    rw (reset_claims_rows now (get_processing_claims o) i u) (
      reset_claims_rows now (get_processing_claims o) _
        (UniqueIds-update claimed now i.messages_in u)
      ∙ ap (λ rows. record i { messages_in = rows })
          (update_idempotent claimed (given_back now) i.messages_in
            (λ m. settled now _ (given_back_settled now m))
            (λ m.
              ap (λ id. any (λ k. id === k.message_id) (get_processing_claims o))
                (given_back_id now m))))

-- After a reset that could write outbound.db, the container that is spawned next, with no heartbeat
-- file yet, is not killed for the claims of the one before it.
pub reset_spares_next_container :
    (now later : ℕ) (i : InDb) (o : OutDb) (state : Option ContainerState)
    → decide_stuck_action (record {
      now = later;
      heartbeat_mtime_ms = 0;
      container_state = state;
      claims = get_processing_claims (reset_stuck_processing_rows now true (i, o)).1;
    })
      ≡ ok
unfolding decide_stuck_action reset_stuck_processing_rows decide_claims
reset_spares_next_container now later i o state = rw (no_claims o)

-- Where ids are unique and no message is past five tries, a reset takes none past them.
pub reset_tries_bounded :
    (now : ℕ) (w : Bool) (i : InDb) (o : OutDb)
    → UniqueIds i.messages_in
    → All (λ (m : MessageIn). m.tries ≤ max_tries) i.messages_in
    → All
        (λ (m : MessageIn). m.tries ≤ max_tries)
        (reset_stuck_processing_rows now w (i, o)).0.messages_in
unfolding reset_stuck_processing_rows
reset_tries_bounded now w i o u h =
    rw (reset_claims_rows now (get_processing_claims o) i u)
      (All-update _ _ (given_back now) i.messages_in (λ m _ k. given_back-tries now m k) h)
