-- ===== src/ChatState/Refines.antt =====
-- The queues of `src/state-sqlite.ts` refine bounded first-in first-out queues.
use lfontes_nanoclaw.Prelude.{
  leb, ◌==◌, ◌===◌, ===_iff, Bool-cases, length, All, select, delete, select-delete, delete_none,
  select-append, ℕ, ◌-◌, String, ◌≡◌, refl, ap, inl, inr, Bool, true, false, ◌&&◌, not, Option,
  none, some, List, [], ◌∷◌, ◌++◌, arith,
}
use mathlib.Core.List.{append-nil}
use lfontes_nanoclaw.ChatState.{
  StateDb, ListRow, in_list, is_expired, expiry, cleanup, next_idx, trim_list, append_to_list,
  queue_key, enqueue, dequeue,
}
use lfontes_nanoclaw.ChatState.Queue.{
  live-Rows, Holds, bounded, enqueue-Holds, dequeue-Holds, dequeue-empty,
}

-- What is called, with its time: the operations of one queue, the cleanup that every `get` does, and
-- an append to some list.
pub data Call : Type 0 where
  call_enqueue : ℕ → String → ℕ → Call
  call_dequeue : Call
  call_cleanup : ℕ → Call
  call_append : ℕ → String → String → Option ℕ → Option ℕ → Call

pub data Reply : Type 0 where
  depth : ℕ → Reply
  entry : Option String → Reply
  done : Reply

unfoldable pub answer : String → StateDb → Call → StateDb × Reply
unfolding enqueue dequeue cleanup append_to_list
answer thread_id db (call_enqueue now value max_size) =
    let r = enqueue db now thread_id value max_size in (r.0, depth r.1)
answer thread_id db call_dequeue = let r = dequeue db thread_id in (r.0, entry r.1)
answer thread_id db (call_cleanup now) = (cleanup db now, done)
answer thread_id db (call_append now key value max_length ttl_ms) =
    (append_to_list db now key value max_length ttl_ms, done)

unfoldable pub answers : String → List Call → StateDb → List Reply
unfolding answer
answers thread_id [] db = []
answers thread_id (c ∷ calls) db =
    let r = answer thread_id db c in r.1 ∷ answers thread_id calls r.0

-- The abstract queue: a list of entries, the oldest first.
unfoldable pub queue_answer : List String → Call → List String × Reply
queue_answer q (call_enqueue now value max_size) =
    let q' = bounded max_size (q ++ value ∷ []) in (q', depth (length q'))
queue_answer [] call_dequeue = ([], entry none)
queue_answer (v ∷ q) call_dequeue = (q, entry (some v))
queue_answer q _ = (q, done)

unfoldable pub queue_answers : List Call → List String → List Reply
unfolding queue_answer
queue_answers [] q = []
queue_answers (c ∷ calls) q = let r = queue_answer q c in r.1 ∷ queue_answers calls r.0

-- An append goes to some other list.
abbrev pub spares_queue : String → Call → Bool
spares_queue thread_id (call_append now key value max_length ttl_ms) =
    not (key === queue_key thread_id)
spares_queue thread_id _ = true

select-delete_outside :
    {A : Type 0} (p q : A → Bool) (xs : List A)
    → ((x : A) → p x ≡ true → q x ≡ false)
    → select p (delete q xs) ≡ select p xs
unfolding select delete
select-delete_outside p q [] k = refl
select-delete_outside p q (x ∷ xs) k = ground (arith, k x, select-delete_outside p q xs k)

cleanup-Holds :
    (db : StateDb) (now : ℕ) (thread_id : String) (q : List String)
    → Holds db thread_id q
    → Holds (cleanup db now) thread_id q
unfolding cleanup
cleanup-Holds db now thread_id q (a, h) =
    let rows = select (in_list (queue_key thread_id)) db.lists in
    (
      a,
      rw
          (
            select-delete (in_list (queue_key thread_id))
                (λ (r : ListRow). is_expired now r.expires_at) db.lists,
            delete_none (λ (r : ListRow). is_expired now r.expires_at) rows
                (live-Rows now a rows q h),
          )
          h,
    )

other_rows :
    (key key' : String) (c : ℕ) (r : ListRow)
    → (key' === key) ≡ false
    → in_list key r ≡ true
    → (r.key === key' && leb r.idx c) ≡ false
other_rows key key' c r n h =
    ground (arith, ===_iff key' key, ===_iff r.key key, ===_iff r.key key')

select-trim_list :
    (max_length : Option ℕ) (next : ℕ) (key key' : String) (rows : List ListRow)
    → (key' === key) ≡ false
    → select (in_list key) (trim_list max_length next key' rows) ≡ select (in_list key) rows
select-trim_list none next key key' rows n = refl
select-trim_list (some m) next key key' rows n = elim (Bool-cases (m == 0)) [
  | inl z ↦ rw z refl
  | inr z ↦ elim (Bool-cases (leb m next)) [
    | inl l ↦
        rw (z, l)
          (select-delete_outside (in_list key)
            (λ (r : ListRow). r.key === key' && leb r.idx (next - m)) rows
            (λ r h. other_rows key key' (next - m) r n h))
    | inr l ↦ rw (z, l) refl
  ]
]

append_to_list-Holds :
    (db : StateDb) (now : ℕ) (thread_id key value : String) (max_length ttl_ms : Option ℕ)
    (q : List String)
    → (key === queue_key thread_id) ≡ false
    → Holds db thread_id q
    → Holds (append_to_list db now key value max_length ttl_ms) thread_id q
unfolding append_to_list select
append_to_list-Holds db now thread_id key value max_length ttl_ms q n (a, h) =
    let row : ListRow = record {
      key = key;
      idx = next_idx db.lists key;
      value = value;
      expires_at = expiry now ttl_ms;
    } in
    let other : select (in_list (queue_key thread_id)) (row ∷ []) ≡ [] = rw n refl in
    (
      a,
      rw
          (
            select-trim_list max_length (next_idx db.lists key) (queue_key thread_id) key
                (db.lists ++ row ∷ []) n,
            select-append (in_list (queue_key thread_id)) db.lists (row ∷ []),
            other,
            append-nil (select (in_list (queue_key thread_id)) db.lists),
          )
          h,
    )

-- One call: the same answer, and the queue holds what the abstract one does.
answer-refines :
    (thread_id : String) (db : StateDb) (q : List String) (c : Call)
    → spares_queue thread_id c ≡ true
    → Holds db thread_id q
    → ((answer thread_id db c).1 ≡ (queue_answer q c).1)
      × Holds (answer thread_id db c).0 thread_id (queue_answer q c).0
unfolding answer queue_answer
answer-refines thread_id db q (call_enqueue now value max_size) s h =
    let e = enqueue-Holds db now thread_id value max_size q h in (ap depth e.1, e.0)
answer-refines thread_id db [] call_dequeue s h =
    let e = dequeue-empty db thread_id h in (ap entry e.1, e.0)
answer-refines thread_id db (v ∷ q) call_dequeue s h =
    let e = dequeue-Holds db thread_id v q h in (ap entry e.1, e.0)
answer-refines thread_id db q (call_cleanup now) s h = (refl, cleanup-Holds db now thread_id q h)
answer-refines thread_id db q (call_append now key value max_length ttl_ms) s h =
    (refl, append_to_list-Holds db now thread_id key value max_length ttl_ms q (ground arith) h)

-- The queue of a thread answers every sequence of calls as a bounded first-in first-out queue does:
-- an enqueue drops the oldest entries over its bound and gives the size, a dequeue gives the oldest
-- entry if there is one, and neither a cleanup nor an append to another list is noticed.
pub answers-refines :
    (thread_id : String) (calls : List Call) (db : StateDb) (q : List String)
    → Holds db thread_id q
    → All (λ c. spares_queue thread_id c ≡ true) calls
    → answers thread_id calls db ≡ queue_answers calls q
unfolding answers queue_answers
answers-refines thread_id [] db q h s = refl
answers-refines thread_id (c ∷ calls) db q h s =
    let r = answer-refines thread_id db q c s.0 h in
    rw (r.0, answers-refines thread_id calls (answer thread_id db c).0 (queue_answer q c).0 r.1 s.1)
      refl
