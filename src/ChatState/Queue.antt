-- ===== src/ChatState/Queue.antt =====
-- The queue of a thread is a bounded first-in first-out queue.
use lfontes_nanoclaw.Prelude.{
  leb, ◌==◌, ◌===◌, if◌then◌else◌, leb→le, ===_refl, Bool-cases, length, drop, All, length-append,
  select, first, delete, max_of, insert_by, order_by, select-delete_inside, select-append, ℕ, zero,
  suc, ◌+◌, ◌-◌, ◌≤◌, ◌<◌, max, String, ◌≡◌, refl, ap, ◌∙◌, inl, inr, true, false, ◌&&◌, none, some,
  List, [], ◌∷◌, ◌++◌, arith,
}
use lfontes_nanoclaw.ChatState.{
  StateDb, ListRow, in_list, by_idx, is_expired, next_after, next_idx, trim_list, append_to_list,
  queue_key, queue_depth, enqueue, dequeue,
}

-- The rows of a list, numbered from `a`, that hold the values and never expire.
abbrev pub Rows : ℕ → List ListRow → List String → Type 0
Rows a [] [] = Unit
Rows a (r ∷ rs) (v ∷ vs) =
    ((r.idx ≡ a) × (r.value ≡ v) × (r.expires_at ≡ none)) × Rows (suc a) rs vs
Rows a _ _ = ⊥

length-Rows : (a : ℕ) (rs : List ListRow) (vs : List String) → Rows a rs vs → length rs ≡ length vs
length-Rows a [] [] h = refl
length-Rows a [] (v ∷ vs) h = absurd h
length-Rows a (r ∷ rs) [] h = absurd h
length-Rows a (r ∷ rs) (v ∷ vs) h = omega (arith, length-Rows (suc a) rs vs h.1)

max_of-Rows :
    (a : ℕ) (r : ListRow) (rs : List ListRow) (v : String) (vs : List String)
    → Rows a (r ∷ rs) (v ∷ vs)
    → max_of (λ (r : ListRow). r.idx) (r ∷ rs) ≡ a + length vs
unfolding max_of
max_of-Rows a r [] v [] h = omega (arith, h.0.0)
max_of-Rows a r [] v (w ∷ vs) h = absurd h.1
max_of-Rows a r (s ∷ rs) v [] h = absurd h.1
max_of-Rows a r (s ∷ rs) v (w ∷ vs) h = omega (arith, h.0.0, max_of-Rows (suc a) s rs w vs h.1)

Rows-append :
    (a : ℕ) (rs : List ListRow) (vs : List String) (r : ListRow)
    → Rows a rs vs
    → r.idx ≡ a + length vs
    → r.expires_at ≡ none
    → Rows a (rs ++ r ∷ []) (vs ++ r.value ∷ [])
Rows-append a [] [] r h i e = ((omega (arith, i), refl, e), tt)
Rows-append a [] (v ∷ vs) r h i e = absurd h
Rows-append a (s ∷ rs) [] r h i e = absurd h
Rows-append a (s ∷ rs) (v ∷ vs) r h i e =
    (h.0, Rows-append (suc a) rs vs r h.1 (omega (arith, i)) e)

drop_nil : (n : ℕ) → drop {A = String} n [] ≡ []
drop_nil zero = refl
drop_nil (suc n) = refl

delete-Rows :
    (c a : ℕ) (rs : List ListRow) (vs : List String)
    → Rows a rs vs
    → Rows (max a (c + 1)) (delete (λ (r : ListRow). leb r.idx c) rs) (drop (c + 1 - a) vs)
unfolding delete
delete-Rows c a [] [] h = rw (drop_nil (c + 1 - a)) tt
delete-Rows c a [] (v ∷ vs) h = absurd h
delete-Rows c a (r ∷ rs) [] h = absurd h
delete-Rows c a (r ∷ rs) (v ∷ vs) h =
    let rest = delete-Rows c (suc a) rs vs h.1 in
    elim (Bool-cases (leb r.idx c)) [
      | inl b ↦
          let le : r.idx ≤ c = leb→le r.idx c b in
          let i = h.0.0 in
          let top : max a (c + 1) ≡ max (suc a) (c + 1) = omega (arith, le, i) in
          let count : c + 1 - a ≡ suc (c + 1 - suc a) = omega (arith, le, i) in
          rw (b, top, count) rest
      | inr b ↦
          let i = h.0.0 in
          let lt : c < r.idx = ground arith in
          let top : max a (c + 1) ≡ a = omega (arith, lt, i) in
          let count : c + 1 - a ≡ 0 = omega (arith, lt, i) in
          let top' : max (suc a) (c + 1) ≡ suc a = omega (arith, lt, i) in
          let count' : c + 1 - suc a ≡ 0 = omega (arith, lt, i) in
          rw (b, top, count) (h.0, rw (top', count') at rest)
    ]

-- ORDER BY idx changes nothing.
order_by-Rows :
    (a : ℕ) (rs : List ListRow) (vs : List String) → Rows a rs vs → order_by by_idx rs ≡ rs
unfolding order_by insert_by
order_by-Rows a [] vs h = refl
order_by-Rows a (r ∷ rs) [] h = absurd h
order_by-Rows a (r ∷ []) (v ∷ vs) h = refl
order_by-Rows a (r ∷ s ∷ rs) (v ∷ []) h = absurd h.1
order_by-Rows a (r ∷ s ∷ rs) (v ∷ w ∷ vs) h =
    let le : leb r.idx s.idx ≡ true = ground (arith, h.0.0, h.1.0.0) in
    rw (order_by-Rows (suc a) (s ∷ rs) (w ∷ vs) h.1, le) refl

-- Taking out one number below leaves all.
delete-below :
    (n a : ℕ) (rs : List ListRow) (vs : List String)
    → Rows a rs vs
    → n < a
    → delete (λ (r : ListRow). r.idx == n) rs ≡ rs
unfolding delete
delete-below n a [] vs h l = refl
delete-below n a (r ∷ rs) [] h l = absurd h
delete-below n a (r ∷ rs) (v ∷ vs) h l =
    let no : (r.idx == n) ≡ false = ground (arith, h.0.0) in
    rw (no, delete-below n (suc a) rs vs h.1 (omega (arith, l))) refl

pub live-Rows :
    (now a : ℕ) (rs : List ListRow) (vs : List String)
    → Rows a rs vs
    → All (λ (r : ListRow). is_expired now r.expires_at ≡ false) rs
live-Rows now a [] vs h = tt
live-Rows now a (r ∷ rs) [] h = absurd h
live-Rows now a (r ∷ rs) (v ∷ vs) h = (rw h.0.2 refl, live-Rows now (suc a) rs vs h.1)

-- The queue of a thread holds these entries, the oldest first.
abbrev pub Holds : StateDb → String → List String → Type 0
Holds db thread_id entries =
    (a : ℕ) × Rows a (select (in_list (queue_key thread_id)) db.lists) entries

-- A queue that holds at most a number of entries, where that is not 0, drops the oldest ones.
abbrev pub bounded : ℕ → List String → List String
bounded max_size entries =
    if max_size == 0 then entries else drop (length entries - max_size) entries

next_after-Rows :
    (a : ℕ) (rs : List ListRow) (vs : List String)
    → Rows a rs vs
    → (a' : ℕ) × Rows a' rs vs × (next_after rs ≡ a' + length vs)
unfolding max_of
next_after-Rows a [] [] h = (0, tt, refl)
next_after-Rows a [] (v ∷ vs) h = absurd h
next_after-Rows a (r ∷ rs) [] h = absurd h
next_after-Rows a (r ∷ rs) (v ∷ vs) h = (a, h, omega (arith, max_of-Rows a r rs v vs h))

trim_list-Rows :
    (a next max_size : ℕ) (key : String) (rows : List ListRow) (vs : List String)
    → Rows a (select (in_list key) rows) vs
    → next + 1 ≡ a + length vs
    → (a' : ℕ) × Rows a'
        (select (in_list key) (trim_list (some max_size) next key rows))
        (bounded max_size vs)
trim_list-Rows a next max_size key rows vs h e = elim (Bool-cases (max_size == 0)) [
  | inl z ↦ (a, rw z h)
  | inr z ↦ elim (Bool-cases (leb max_size next)) [
    | inl l ↦
        let cutoff = next - max_size in
        let le : max_size ≤ next = leb→le max_size next l in
        let count : cutoff + 1 - a ≡ length vs - max_size = omega (arith, le, e) in
        (
          max a (cutoff + 1),
          rw
              (
                z,
                l,
                select-delete_inside (in_list key) (λ (r : ListRow). leb r.idx cutoff) rows,
                ← count,
              )
              (delete-Rows cutoff a (select (in_list key) rows) vs h),
        )
    | inr l ↦
        let lt : next < max_size = ground arith in
        let count : length vs - max_size ≡ 0 = omega (arith, lt, e) in (a, rw (z, l, count) h)
  ]
]

pub enqueue-Holds :
    (db : StateDb) (now : ℕ) (thread_id entry : String) (max_size : ℕ) (entries : List String)
    → Holds db thread_id entries
    → Holds
        (enqueue db now thread_id entry max_size).0
        thread_id
        (bounded max_size (entries ++ entry ∷ []))
      × ((enqueue db now thread_id entry max_size).1
          ≡ length (bounded max_size (entries ++ entry ∷ [])))
unfolding enqueue append_to_list queue_depth next_idx select
enqueue-Holds db now thread_id entry max_size entries (a, h) =
    let key = queue_key thread_id in
    let (a', h', i) = next_after-Rows a (select (in_list key) db.lists) entries h in
    let next = next_idx db.lists key in
    let row : ListRow = record { key = key; idx = next; value = entry; expires_at = none } in
    let alone : select (in_list key) (row ∷ []) ≡ row ∷ [] = rw (===_refl key) refl in
    let rows : Rows a' (select (in_list key) (db.lists ++ row ∷ [])) (entries ++ entry ∷ []) =
      rw (select-append (in_list key) db.lists (row ∷ []), alone)
        (Rows-append a' (select (in_list key) db.lists) entries row h' i refl) in
    let size = length-append entries (entry ∷ []) in
    let (b, k) =
      trim_list-Rows a' next max_size key (db.lists ++ row ∷ []) (entries ++ entry ∷ []) rows
        (omega (arith, i, size)) in
    ((b, k), length-Rows b _ _ k)

Rows-uncons :
    (a : ℕ) (rs : List ListRow) (v : String) (vs : List String)
    → Rows a rs (v ∷ vs)
    → (r : ListRow) × (rest : List ListRow) × (rs ≡ r ∷ rest)
Rows-uncons a [] v vs h = absurd h
Rows-uncons a (r ∷ rest) v vs h = (r, rest, refl)

Rows-nil : (a : ℕ) (rs : List ListRow) → Rows a rs [] → rs ≡ []
Rows-nil a [] h = refl
Rows-nil a (r ∷ rs) h = absurd h

-- What is left where the first row is taken out.
delete-first :
    (a : ℕ) (r : ListRow) (rest : List ListRow) (v : String) (vs : List String)
    → Rows a (r ∷ rest) (v ∷ vs)
    → delete (λ (x : ListRow). x.idx == r.idx) (r ∷ rest) ≡ rest
unfolding delete
delete-first a r rest v vs h =
    let same : (r.idx == r.idx) ≡ true = ground arith in
    let below : r.idx < suc a = omega (arith, h.0.0) in
    rw same (delete-below r.idx (suc a) rest vs h.1 below)

pub dequeue-Holds :
    (db : StateDb) (thread_id entry : String) (entries : List String)
    → Holds db thread_id (entry ∷ entries)
    → Holds (dequeue db thread_id).0 thread_id entries × ((dequeue db thread_id).1 ≡ some entry)
unfolding dequeue first
dequeue-Holds db thread_id entry entries (a, h) =
    let key = queue_key thread_id in
    let rows = select (in_list key) db.lists in
    let (r, rest, e) = Rows-uncons a rows entry entries h in
    let h' : Rows a (r ∷ rest) (entry ∷ entries) = rw e at h in
    let head : first (λ (x : ListRow). true) (order_by by_idx rows) ≡ some r =
      rw (order_by-Rows a rows (entry ∷ entries) h, e) refl in
    let left : select (in_list key)
          (delete (λ (x : ListRow). x.key === key && x.idx == r.idx) db.lists)
        ≡ rest =
      select-delete_inside (in_list key) (λ (x : ListRow). x.idx == r.idx) db.lists
      ∙ rw e (delete-first a r rest entry entries h') in
    rw (dequeue, head) ((suc a, rw left h'.1), ap some h'.0.1)

pub dequeue-empty :
    (db : StateDb) (thread_id : String)
    → Holds db thread_id []
    → Holds (dequeue db thread_id).0 thread_id [] × ((dequeue db thread_id).1 ≡ none)
unfolding dequeue first order_by
dequeue-empty db thread_id (a, h) =
    let key = queue_key thread_id in
    let e = Rows-nil a (select (in_list key) db.lists) h in
    let head : first (λ (x : ListRow). true) (order_by by_idx (select (in_list key) db.lists))
        ≡ none =
      rw e refl in
    rw (dequeue, head) ((a, h), refl)
