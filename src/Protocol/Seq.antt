-- ===== src/Protocol/Seq.antt =====
-- Sequence numbers across the two databases: the host takes even ones in inbound.db
-- (`nextEvenSeq`, `src/db/session-db.ts`), the container odd ones in outbound.db
-- (`writeMessageOut`, `container/agent-runner/src/db/messages-out.ts`).
use lfontes_nanoclaw.Prelude.{
  Option-cases, All, All-imp, All-append, le-max_of, map-update, ℕ, ◌%◌, ◌<◌, String, ◌≡◌, refl, ap,
  ◌∙◌, ◌≢◌, inl, inr, Option, none, some, List, [], ◌∷◌, ◌++◌, map, arith,
}
use mathlib.Core.List.{map-append}
use lfontes_nanoclaw.SessionDb.{
  Ack, MessageIn, InDb, MessageOut, OutDb, NewMessage, next_even_seq, add_row, insert_message,
  mark_message_failed, retry_with_backoff, complete_message, complete_all, sync_processing_acks,
}
use lfontes_nanoclaw.SessionDb.Rows.{in_seqs, next_even_seq-even, next_even_seq-above, add_row-some}
use lfontes_nanoclaw.Scheduling.{
  Task, insert_task, cancel_task, pause_task, resume_task, insert_recurrence, clear_recurrence,
}
use lfontes_nanoclaw.Container.MessagesOut.{
  WriteMessageOut, next_odd_seq, add_out_row, with_seq, write_message_out,
}

abbrev pub out_seqs : OutDb → List ℕ
out_seqs db = map (λ (m : MessageOut). m.seq) db.messages_out

abbrev pub Distinct : List ℕ → Type 0
Distinct [] = Unit
Distinct (x ∷ xs) = All (λ y. x ≢ y) xs × Distinct xs

-- The two name spaces: every inbound number is even, every outbound one odd, and none is used twice.
pub record AreSeparate (inbound : InDb) (outbound : OutDb) : Type 0 where
  pub even : All (λ s. s % 2 ≡ 0) (in_seqs inbound)
  pub odd : All (λ s. s % 2 ≡ 1) (out_seqs outbound)
  pub distinct_in : Distinct (in_seqs inbound)
  pub distinct_out : Distinct (out_seqs outbound)

All-map {ℓ} :
    {A : Type 0} (P : ℕ → Type ℓ) (f : A → ℕ) (xs : List A)
    → All (λ x. P (f x)) xs
    → All P (map f xs)
All-map P f [] h = tt
All-map P f (x ∷ xs) h = (h.0, All-map P f xs h.1)

-- A number above all others keeps the list distinct.
Distinct-append :
    (xs : List ℕ) (n : ℕ) → All (λ x. x < n) xs → Distinct xs → Distinct (xs ++ n ∷ [])
Distinct-append [] n h d = (tt, tt)
Distinct-append (x ∷ xs) n h d =
    (All-append (λ y. x ≢ y) xs (n ∷ []) d.0 (omega arith, tt), Distinct-append xs n h.1 d.1)

next_odd_seq-odd : (i : InDb) (o : OutDb) → next_odd_seq i o % 2 ≡ 1
unfolding next_odd_seq
next_odd_seq-odd i o = ground arith

next_odd_seq-above : (i : InDb) (o : OutDb) → All (λ m. m.seq < next_odd_seq i o) o.messages_out
unfolding next_odd_seq
next_odd_seq-above i o =
    All-imp _ _ o.messages_out (λ m h. ground arith)
      (le-max_of (λ (m : MessageOut). m.seq) o.messages_out)

-- A host insert takes the next even number, or throws.
in_append :
    (i j : InDb) (o : OutDb) (row : MessageIn)
    → row.seq ≡ next_even_seq i
    → add_row i row ≡ some j
    → AreSeparate i o
    → AreSeparate j o
in_append i j o row n e h =
    let seqs = ap in_seqs (add_row-some i j row e) ∙ map-append _ i.messages_in _ in
    record {
      even = rw (seqs, n) (All-append _ (in_seqs i) _ h.even (next_even_seq-even i, tt));
      odd = h.odd;
      distinct_in =
          rw (seqs, n)
            (Distinct-append (in_seqs i) _
              (All-map (λ s. s < next_even_seq i) _ i.messages_in (next_even_seq-above i))
              h.distinct_in);
      distinct_out = h.distinct_out;
    }

add_out_row-some :
    (o p : OutDb) (row : MessageOut)
    → add_out_row o row ≡ some p
    → p ≡ record o { messages_out = o.messages_out ++ row ∷ [] }
unfolding add_out_row
add_out_row-some o p row e = ground arith

out_append :
    (i : InDb) (o p : OutDb) (row : MessageOut)
    → row.seq ≡ next_odd_seq i o
    → add_out_row o row ≡ some p
    → AreSeparate i o
    → AreSeparate i p
out_append i o p row n e h =
    let seqs = ap out_seqs (add_out_row-some o p row e) ∙ map-append _ o.messages_out _ in
    record {
      even = h.even;
      odd = rw (seqs, n) (All-append _ (out_seqs o) _ h.odd (next_odd_seq-odd i o, tt));
      distinct_in = h.distinct_in;
      distinct_out =
          rw (seqs, n)
            (Distinct-append (out_seqs o) _
              (All-map (λ s. s < next_odd_seq i o) _ o.messages_out (next_odd_seq-above i o))
              h.distinct_out);
    }

-- One write by either side, at its time. What throws leaves the databases as they were.
pub data Write : Type 0 where
  insert : NewMessage → Write
  schedule : Task → Write
  recurrence : MessageIn → String → Option ℕ → Write
  clear : String → Write
  cancel pause resume : String → Write
  fail : String → Write
  retry : String → ℕ → Write
  sync : Write
  reply : WriteMessageOut → Write

abbrev in_or : InDb → Option InDb → InDb
in_or old none = old
in_or old (some new) = new

abbrev out_or : OutDb → Option (ℕ × OutDb) → OutDb
out_or old none = old
out_or old (some (_, new)) = new

unfoldable pub apply_write : ℕ → Write → InDb × OutDb → InDb × OutDb
apply_write now (insert m) (i, o) = (in_or i (insert_message i m), o)
apply_write now (schedule t) (i, o) = (in_or i (insert_task i now t), o)
apply_write now (recurrence m id next_run) (i, o) =
    (in_or i (insert_recurrence i now m id next_run), o)
apply_write now (clear id) (i, o) = (clear_recurrence i id, o)
apply_write now (cancel id) (i, o) = (cancel_task i id, o)
apply_write now (pause id) (i, o) = (pause_task i id, o)
apply_write now (resume id) (i, o) = (resume_task i id, o)
apply_write now (fail id) (i, o) = (mark_message_failed i id, o)
apply_write now (retry id sec) (i, o) = (retry_with_backoff i now id sec, o)
apply_write now sync (i, o) = (sync_processing_acks i o, o)
apply_write now (reply m) (i, o) = (i, out_or o (write_message_out i o now m))

unfoldable pub run_writes : List (ℕ × Write) → InDb × OutDb → InDb × OutDb
run_writes [] dbs = dbs
run_writes ((now, w) ∷ ws) dbs = run_writes ws (apply_write now w dbs)

-- An update keeps the numbers, and so all that is said of them.
same_seqs : (i j : InDb) (o : OutDb) → in_seqs j ≡ in_seqs i → AreSeparate i o → AreSeparate j o
same_seqs i j o e h = record {
  even = rw e h.even;
  odd = h.odd;
  distinct_in = rw e h.distinct_in;
  distinct_out = h.distinct_out;
}

complete_all-seqs :
    (acks : List Ack) (rows : List MessageIn)
    → map (λ (m : MessageIn). m.seq) (complete_all acks rows) ≡ map (λ (m : MessageIn). m.seq) rows
unfolding complete_all complete_message
complete_all-seqs [] rows = refl
complete_all-seqs (a ∷ acks) rows =
    complete_all-seqs acks _ ∙ map-update (λ (m : MessageIn). m.seq) _ _ rows (λ m. refl)

inserted :
    (i : InDb) (o : OutDb) (row : MessageIn)
    → row.seq ≡ next_even_seq i
    → AreSeparate i o
    → AreSeparate (in_or i (add_row i row)) o
inserted i o row n h = elim (Option-cases (add_row i row)) [
  | inl e ↦ rw e h
  | inr (j, e) ↦ rw e (in_append i j o row n e h)
]

replied_row :
    (i : InDb) (o : OutDb) (row : MessageOut)
    → row.seq ≡ next_odd_seq i o
    → AreSeparate i o
    → AreSeparate i (out_or o (with_seq row.seq (add_out_row o row)))
replied_row i o row n h = elim (Option-cases (add_out_row o row)) [
  | inl e ↦ rw e h
  | inr (p, e) ↦ rw e (out_append i o p row n e h)
]

replied :
    (i : InDb) (o : OutDb) (now : ℕ) (m : WriteMessageOut)
    → AreSeparate i o
    → AreSeparate i (out_or o (write_message_out i o now m))
unfolding write_message_out
replied i o now m h = replied_row i o _ refl h

apply_write-AreSeparate :
    (now : ℕ) (w : Write) (i : InDb) (o : OutDb)
    → AreSeparate i o
    → AreSeparate (apply_write now w (i, o)).0 (apply_write now w (i, o)).1
unfolding apply_write insert_message insert_task insert_recurrence clear_recurrence cancel_task
    pause_task resume_task mark_message_failed retry_with_backoff sync_processing_acks
apply_write-AreSeparate now (insert m) i o h = inserted i o _ refl h
apply_write-AreSeparate now (schedule t) i o h = inserted i o _ refl h
apply_write-AreSeparate now (recurrence m id n) i o h = inserted i o _ refl h
apply_write-AreSeparate now sync i o h = same_seqs i _ o (complete_all-seqs _ i.messages_in) h
apply_write-AreSeparate now (reply m) i o h = replied i o now m h
apply_write-AreSeparate now (clear id) i o h =
    same_seqs i _ o (map-update (λ (m : MessageIn). m.seq) _ _ i.messages_in (λ m. refl)) h
apply_write-AreSeparate now (cancel id) i o h =
    same_seqs i _ o (map-update (λ (m : MessageIn). m.seq) _ _ i.messages_in (λ m. refl)) h
apply_write-AreSeparate now (pause id) i o h =
    same_seqs i _ o (map-update (λ (m : MessageIn). m.seq) _ _ i.messages_in (λ m. refl)) h
apply_write-AreSeparate now (resume id) i o h =
    same_seqs i _ o (map-update (λ (m : MessageIn). m.seq) _ _ i.messages_in (λ m. refl)) h
apply_write-AreSeparate now (fail id) i o h =
    same_seqs i _ o (map-update (λ (m : MessageIn). m.seq) _ _ i.messages_in (λ m. refl)) h
apply_write-AreSeparate now (retry id sec) i o h =
    same_seqs i _ o (map-update (λ (m : MessageIn). m.seq) _ _ i.messages_in (λ m. refl)) h

-- Whatever the host and the container write, and in whatever order, from databases whose numbers
-- are apart: the inbound numbers stay even, the outbound ones odd, and no number is used twice.
pub run_writes-AreSeparate :
    (ws : List (ℕ × Write)) (i : InDb) (o : OutDb)
    → AreSeparate i o
    → AreSeparate (run_writes ws (i, o)).0 (run_writes ws (i, o)).1
unfolding run_writes
run_writes-AreSeparate [] i o h = h
run_writes-AreSeparate ((now, w) ∷ ws) i o h =
    run_writes-AreSeparate ws (apply_write now w (i, o)).0 (apply_write now w (i, o)).1
      (apply_write-AreSeparate now w i o h)
