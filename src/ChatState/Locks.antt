-- ===== src/ChatState/Locks.antt =====
-- A lock that was acquired excludes the others until it is given back or expires.
use lfontes_nanoclaw.Prelude.{
  ltb, leb, ◌===◌, ===_iff, ===_refl, Bool-cases, any, All, update, delete, delete-append,
  any-delete, some_injective, some≢none, any-append, ℕ, ◌+◌, ◌≤◌, ◌<◌, String, ◌≡◌, refl, sym, ◌∙◌,
  inl, inr, Bool, true, false, ◌&&◌, not, none, some, List, [], ◌∷◌, ◌++◌, arith,
}
use lfontes_nanoclaw.ChatState.{
  StateDb, Lock, is_lock_of, is_lock, cleanup, acquire_lock, release_lock, extend_lock,
}

-- What else may happen, with its time.
pub data Step : Type 0 where
  acquire : ℕ → String → String → ℕ → Step
  release : Lock → Step
  extend : ℕ → Lock → ℕ → Step
  clean : ℕ → Step

unfoldable pub step : StateDb → Step → StateDb
unfolding acquire_lock release_lock extend_lock cleanup
step db (acquire now token thread_id ttl_ms) = (acquire_lock db now token thread_id ttl_ms).0
step db (release lock) = release_lock db lock
step db (extend now lock ttl_ms) = (extend_lock db now lock ttl_ms).0
step db (clean now) = cleanup db now

unfoldable pub steps : List Step → StateDb → StateDb
unfolding step
steps [] db = db
steps (s ∷ rest) db = steps rest (step db s)

-- A step before the time of expiry, that neither releases nor extends the lock.
abbrev pub spares : Lock → Step → Bool
spares held (acquire now token thread_id ttl_ms) = leb now held.expires_at
spares held (release lock) = not (lock.thread_id === held.thread_id && lock.token === held.token)
spares held (extend now lock ttl_ms) =
    not (lock.thread_id === held.thread_id && lock.token === held.token)
spares held (clean now) = leb now held.expires_at

abbrev is_held : Lock → Lock → Bool
is_held held l = is_lock held.thread_id held.token l && leb held.expires_at l.expires_at

is_held-is_lock_of :
    (held : Lock) (ls : List Lock)
    → any (is_held held) ls ≡ true
    → any (is_lock_of held.thread_id) ls ≡ true
is_held-is_lock_of held [] h = ground arith
is_held-is_lock_of held (l ∷ ls) h = ground (arith, is_held-is_lock_of held ls)

any-update_not :
    {A : Type 0} (p q : A → Bool) (f : A → A) (xs : List A)
    → ((x : A) → p x ≡ true → q x ≡ false)
    → any p xs ≡ true
    → any p (update q f xs) ≡ true
unfolding update
any-update_not p q f [] k h = ground arith
any-update_not p q f (x ∷ xs) k h = ground (arith, k x, any-update_not p q f xs k)

any-append_left :
    {A : Type 0} (p : A → Bool) (xs ys : List A) → any p xs ≡ true → any p (xs ++ ys) ≡ true
any-append_left p xs ys h = rw (any-append p xs ys, h) refl

other_lock :
    (held lock l : Lock)
    → is_lock held.thread_id held.token lock ≡ false
    → is_held held l ≡ true
    → is_lock lock.thread_id lock.token l ≡ false
other_lock held lock l n h = ground (
  arith,
  ===_iff lock.thread_id held.thread_id,
  ===_iff lock.token held.token,
  ===_iff l.thread_id held.thread_id,
  ===_iff l.token held.token,
  ===_iff l.thread_id lock.thread_id,
  ===_iff l.token lock.token,
)

acquire_lock-held :
    (held : Lock) (db : StateDb) (now : ℕ) (token thread_id : String) (ttl_ms : ℕ)
    → leb now held.expires_at ≡ true
    → any (is_held held) db.locks ≡ true
    → any (is_held held) (acquire_lock db now token thread_id ttl_ms).0.locks ≡ true
unfolding acquire_lock
acquire_lock-held held db now token thread_id ttl_ms h k =
    let stale = λ (l : Lock). l.thread_id === thread_id && ltb l.expires_at now in
    let r = any-delete (is_held held) stale db.locks (λ l e. ground arith) ∙ k in
    elim (Bool-cases (any (is_lock_of thread_id) (delete stale db.locks))) [
      | inl b ↦ rw (acquire_lock, b) r
      | inr b ↦ rw (acquire_lock, b) (any-append_left (is_held held) (delete stale db.locks) _ r)
    ]

extend_lock-held :
    (held : Lock) (db : StateDb) (now : ℕ) (lock : Lock) (ttl_ms : ℕ)
    → is_lock held.thread_id held.token lock ≡ false
    → any (is_held held) db.locks ≡ true
    → any (is_held held) (extend_lock db now lock ttl_ms).0.locks ≡ true
unfolding extend_lock
extend_lock-held held db now lock ttl_ms h k =
    elim (Bool-cases (any (is_lock lock.thread_id lock.token) db.locks)) [
      | inl b ↦
          rw (extend_lock, b)
            (any-update_not (is_held held) (is_lock lock.thread_id lock.token)
              (λ l. record l { expires_at = now + ttl_ms }) db.locks
              (λ l e. other_lock held lock l h e) k)
      | inr b ↦ rw (extend_lock, b) k
    ]

step-held :
    (held : Lock) (db : StateDb) (s : Step)
    → spares held s ≡ true
    → any (is_held held) db.locks ≡ true
    → any (is_held held) (step db s).locks ≡ true
unfolding step release_lock cleanup
step-held held db (acquire now token thread_id ttl_ms) h k =
    acquire_lock-held held db now token thread_id ttl_ms h k
step-held held db (release lock) h k =
    any-delete (is_held held) (is_lock lock.thread_id lock.token) db.locks
      (λ l e. other_lock held lock l (ground arith) e)
    ∙ k
step-held held db (extend now lock ttl_ms) h k =
    extend_lock-held held db now lock ttl_ms (ground arith) k
step-held held db (clean now) h k =
    any-delete (is_held held) (λ (l : Lock). ltb l.expires_at now) db.locks (λ l e. ground arith)
    ∙ k

steps-held :
    (held : Lock) (ss : List Step) (db : StateDb)
    → All (λ s. spares held s ≡ true) ss
    → any (is_held held) db.locks ≡ true
    → any (is_held held) (steps ss db).locks ≡ true
unfolding steps
steps-held held [] db h k = k
steps-held held (s ∷ ss) db h k = steps-held held ss (step db s) h.1 (step-held held db s h.0 k)

acquire_lock-refused :
    (held : Lock) (db : StateDb) (now : ℕ) (token thread_id : String) (ttl_ms : ℕ)
    → held.thread_id ≡ thread_id
    → now ≤ held.expires_at
    → any (is_held held) db.locks ≡ true
    → (acquire_lock db now token thread_id ttl_ms).1 ≡ none
unfolding acquire_lock
acquire_lock-refused held db now token thread_id ttl_ms t h k =
    let stale = λ (l : Lock). l.thread_id === thread_id && ltb l.expires_at now in
    let r = any-delete (is_held held) stale db.locks (λ l e. ground arith) ∙ k in
    let taken : any (is_lock_of thread_id) (delete stale db.locks) ≡ true =
      rw t at (is_held-is_lock_of held (delete stale db.locks) r) in
    rw (acquire_lock, taken) refl

-- Where a lock was acquired, its row is there.
acquire_lock-row :
    (db : StateDb) (now : ℕ) (token thread_id : String) (ttl_ms : ℕ) (held : Lock)
    → (acquire_lock db now token thread_id ttl_ms).1 ≡ some held
    → (held.thread_id ≡ thread_id)
      × (held.expires_at ≡ now + ttl_ms)
      × (any (is_held held) (acquire_lock db now token thread_id ttl_ms).0.locks ≡ true)
unfolding acquire_lock
acquire_lock-row db now token thread_id ttl_ms held e =
    let stale = λ (l : Lock). l.thread_id === thread_id && ltb l.expires_at now in
    elim (Bool-cases (any (is_lock_of thread_id) (delete stale db.locks))) [
      | inl b ↦ absurd (some≢none (sym e ∙ rw (acquire_lock, b) refl))
      | inr b ↦
          let new : Lock = record {
            thread_id = thread_id;
            token = token;
            expires_at = now + ttl_ms;
          } in
          let q : new ≡ held = some_injective new held (sym (rw (acquire_lock, b) refl) ∙ e) in
          rw (← q) (
            refl,
            refl,
            rw
                (
                  acquire_lock,
                  b,
                  any-append (is_held new) (delete stale db.locks) (new ∷ []),
                  ===_refl thread_id,
                  ===_refl token,
                )
                (ground arith),
          )
    ]

-- Mutual exclusion: while a lock that was acquired has not expired, no attempt to acquire the same
-- thread succeeds, whoever makes it, after whatever acquisitions, cleanups, and releases and
-- extensions of other locks, in whatever order, each before that time.
pub acquire_lock-excludes :
    (db : StateDb) (now : ℕ) (token thread_id : String) (ttl_ms : ℕ) (held : Lock) (ss : List Step)
    (later : ℕ) (token' : String) (ttl_ms' : ℕ)
    → (acquire_lock db now token thread_id ttl_ms).1 ≡ some held
    → All (λ s. spares held s ≡ true) ss
    → later ≤ now + ttl_ms
    → (acquire_lock
        (steps ss (acquire_lock db now token thread_id ttl_ms).0)
        later
        token'
        thread_id
        ttl_ms').1
      ≡ none
acquire_lock-excludes db now token thread_id ttl_ms held ss later token' ttl_ms' e h k =
    let (t, x, r) = acquire_lock-row db now token thread_id ttl_ms held e in
    acquire_lock-refused held (steps ss (acquire_lock db now token thread_id ttl_ms).0) later token'
      thread_id ttl_ms' t (rw x k)
      (steps-held held ss (acquire_lock db now token thread_id ttl_ms).0 h r)

any-delete_absent :
    {A : Type 0} (p q : A → Bool) (xs : List A) → any p xs ≡ false → any p (delete q xs) ≡ false
unfolding delete
any-delete_absent p q [] h = refl
any-delete_absent p q (x ∷ xs) h = ground (arith, any-delete_absent p q xs)

-- A lock that nobody gives back can be acquired again once its time is over.
pub acquire_lock-expires :
    (db : StateDb) (now : ℕ) (token thread_id : String) (ttl_ms : ℕ) (held : Lock) (later : ℕ)
    (token' : String) (ttl_ms' : ℕ)
    → (acquire_lock db now token thread_id ttl_ms).1 ≡ some held
    → now + ttl_ms < later
    → (acquire_lock (acquire_lock db now token thread_id ttl_ms).0 later token' thread_id ttl_ms').1
      ≡ some (record { thread_id = thread_id; token = token'; expires_at = later + ttl_ms' })
unfolding acquire_lock delete
acquire_lock-expires db now token thread_id ttl_ms held later token' ttl_ms' e h =
    let stale = λ (t : ℕ) (l : Lock). l.thread_id === thread_id && ltb l.expires_at t in
    elim (Bool-cases (any (is_lock_of thread_id) (delete (stale now) db.locks))) [
      | inl b ↦ absurd (some≢none (sym e ∙ rw (acquire_lock, b) refl))
      | inr b ↦
          let new : Lock = record {
            thread_id = thread_id;
            token = token;
            expires_at = now + ttl_ms;
          } in
          let over : stale later new ≡ true = rw (===_refl thread_id) (ground arith) in
          let gone : delete (stale later) (new ∷ []) ≡ [] = rw over refl in
          let free : any (is_lock_of thread_id)
                (delete (stale later) (delete (stale now) db.locks ++ new ∷ []))
              ≡ false =
            rw
              (
                delete-append (stale later) (delete (stale now) db.locks) (new ∷ []),
                gone,
                any-append (is_lock_of thread_id)
                    (delete (stale later) (delete (stale now) db.locks)) [],
                any-delete_absent (is_lock_of thread_id) (stale later) (delete (stale now) db.locks)
                    b,
              )
              refl in
          rw (acquire_lock, b, acquire_lock, free) refl
    ]
