-- ===== src/ChatState.antt =====
-- The chat library's state in the central database (`src/state-sqlite.ts`): values, subscriptions,
-- locks and lists, with times of expiry. A value is the JSON text that a row holds.
pub mod Expiry
pub mod Locks
pub mod Queue
pub mod Refines
use Prim.Native.String.{◌++◌ as string_append}
use lfontes_nanoclaw.Prelude.{
  ltb, leb, ◌==◌, ◌===◌, if◌then◌else◌, ltb→lt, leb→le, ==_iff, ===_iff, ===_refl, Bool-cases,
  Option-cases, &&-true, is_some, opt_eq, opt_eq_refl, opt_eq_iff, or_else, length, take, any, all,
  All, All-imp, All-and, All-append, All-take, length-append, length-take-le, In, All-In, In-All,
  any-In, In-append_left, In-append_right, In-map, select, first, update, delete, max_of, insert_by,
  order_by, All-select, All-delete, All-update, All-insert_by, All-order_by, select_holds,
  In-select, delete_fails, le-max_of, any-false, first-some, first-All, first_added, some_injective,
  some≢none, true≢false, first-none, first-none_of, select-update_outside, map-update, update_twice,
  update_clears, select-append, any-append, any-update, length-update, update_congr,
  update_idempotent, select_none, update_union, update_same, ℕ, zero, suc, ◌+◌, ◌-◌, ◌*◌, ◌/◌, ◌%◌,
  ◌^◌, ◌≤◌, ◌<◌, min, max, String, ◌≡◌, refl, sym, ap, ◌∙◌, ◌≢◌, ◌↔◌, ◌⊎◌, inl, inr, Bool, true,
  false, ◌&&◌, ◌||◌, not, Option, none, some, List, [], ◌∷◌, ◌++◌, map, reverse, arith,
}

pub record KvRow : Type 0 where
  pub key : String
  pub value : String
  pub expires_at : Option ℕ

pub record Lock : Type 0 where
  pub thread_id : String
  pub token : String
  pub expires_at : ℕ

pub record ListRow : Type 0 where
  pub key : String
  pub idx : ℕ
  pub value : String
  pub expires_at : Option ℕ

pub record StateDb : Type 0 where
  pub kv : List KvRow
  pub subscriptions : List String
  pub locks : List Lock
  pub lists : List ListRow

-- `expires_at IS NOT NULL AND expires_at < now`
abbrev pub is_expired : ℕ → Option ℕ → Bool
is_expired now none = false
is_expired now (some t) = ltb t now

-- `expires_at IS NULL OR expires_at > now`
abbrev pub is_live : ℕ → Option ℕ → Bool
is_live now none = true
is_live now (some t) = ltb now t

-- `row.expires_at && row.expires_at < now`, where 0 is no time.
abbrev pub has_expired : ℕ → Option ℕ → Bool
has_expired now none = false
has_expired now (some t) = ltb 0 t && ltb t now

-- `ttlMs ? now + ttlMs : null`
abbrev pub expiry : ℕ → Option ℕ → Option ℕ
expiry now none = none
expiry now (some ttl) = if ttl == 0 then none else some (now + ttl)

unfoldable pub cleanup : StateDb → ℕ → StateDb
unfolding delete
cleanup db now = record db {
  kv = delete (λ (r : KvRow). is_expired now r.expires_at) db.kv;
  locks = delete (λ (l : Lock). ltb l.expires_at now) db.locks;
  lists = delete (λ (r : ListRow). is_expired now r.expires_at) db.lists;
}

abbrev pub has_key : String → KvRow → Bool
has_key key r = r.key === key

unfoldable pub delete_value : StateDb → String → StateDb
delete_value db key = record db { kv = delete (has_key key) db.kv }

abbrev pub found : ℕ → StateDb → String → Option KvRow → StateDb × Option String
found now db key none = (db, none)
found now db key (some row) =
    if has_expired now row.expires_at then (delete_value db key, none) else (db, some row.value)

unfoldable pub get : StateDb → ℕ → String → StateDb × Option String
unfolding cleanup delete_value
get db now key = let db' = cleanup db now in found now db' key (first (has_key key) db'.kv)

-- INSERT OR REPLACE
unfoldable pub set : StateDb → ℕ → String → String → Option ℕ → StateDb
set db now key value ttl_ms = record db {
  kv =
      delete (has_key key) db.kv
      ++ record { key = key; value = value; expires_at = expiry now ttl_ms } ∷ [];
}

abbrev pub without_expired : ℕ → StateDb → String → Option KvRow → StateDb
without_expired now db key none = db
without_expired now db key (some row) =
    if has_expired now row.expires_at then delete_value db key else db

unfoldable pub set_if_not_exists : StateDb → ℕ → String → String → Option ℕ → StateDb × Bool
unfolding delete_value
set_if_not_exists db now key value ttl_ms =
    let db' = without_expired now db key (first (has_key key) db.kv) in
    if any (has_key key) db'.kv then (db', false) else (
      record db' {
        kv = db'.kv ++ record { key = key; value = value; expires_at = expiry now ttl_ms } ∷ [];
      },
      true,
    )

unfoldable pub subscribe : StateDb → String → StateDb
subscribe db thread_id = record db {
  subscriptions = delete (λ t. t === thread_id) db.subscriptions ++ thread_id ∷ [];
}

unfoldable pub unsubscribe : StateDb → String → StateDb
unsubscribe db thread_id = record db {
  subscriptions = delete (λ t. t === thread_id) db.subscriptions;
}

unfoldable pub is_subscribed : StateDb → String → Bool
is_subscribed db thread_id = any (λ t. t === thread_id) db.subscriptions

abbrev pub is_lock_of : String → Lock → Bool
is_lock_of thread_id l = l.thread_id === thread_id

abbrev pub is_lock : String → String → Lock → Bool
is_lock thread_id token l = l.thread_id === thread_id && l.token === token

unfoldable pub acquire_lock : StateDb → ℕ → String → String → ℕ → StateDb × Option Lock
acquire_lock db now token thread_id ttl_ms =
    let lock : Lock = record { thread_id = thread_id; token = token; expires_at = now + ttl_ms } in
    let locks = delete (λ (l : Lock). l.thread_id === thread_id && ltb l.expires_at now) db.locks in
    if any (is_lock_of thread_id) locks
    then (record db { locks = locks }, none)
    else (record db { locks = locks ++ lock ∷ [] }, some lock)

unfoldable pub release_lock : StateDb → Lock → StateDb
release_lock db lock = record db { locks = delete (is_lock lock.thread_id lock.token) db.locks }

unfoldable pub extend_lock : StateDb → ℕ → Lock → ℕ → StateDb × Lock × Bool
extend_lock db now lock ttl_ms =
    let same = is_lock lock.thread_id lock.token in
    if any same db.locks
    then (
      record db { locks = update same (λ l. record l { expires_at = now + ttl_ms }) db.locks },
      record lock { expires_at = now + ttl_ms },
      true,
    )
    else (db, lock, false)

unfoldable pub force_release_lock : StateDb → String → StateDb
force_release_lock db thread_id = record db { locks = delete (is_lock_of thread_id) db.locks }

abbrev pub in_list : String → ListRow → Bool
in_list key r = r.key === key

-- `(maxRow?.maxIdx ?? -1) + 1`
abbrev pub next_after : List ListRow → ℕ
next_after [] = 0
next_after (r ∷ rs) = max_of (λ (r : ListRow). r.idx) (r ∷ rs) + 1

unfoldable pub next_idx : List ListRow → String → ℕ
unfolding max_of
next_idx rows key = next_after (select (in_list key) rows)

-- The oldest rows of a list go, where it has a maximum length.
abbrev pub trim_list : Option ℕ → ℕ → String → List ListRow → List ListRow
trim_list none next key rows = rows
trim_list (some max_length) next key rows =
    if max_length == 0
    then rows
    else if leb max_length next
    then delete (λ (r : ListRow). r.key === key && leb r.idx (next - max_length)) rows
    else rows

unfoldable pub append_to_list : StateDb → ℕ → String → String → Option ℕ → Option ℕ → StateDb
unfolding next_idx
append_to_list db now key value max_length ttl_ms =
    let next = next_idx db.lists key in
    record db {
      lists = trim_list max_length next key (
          db.lists
          ++ record { key = key; idx = next; value = value; expires_at = expiry now ttl_ms } ∷ []);
    }

abbrev pub by_idx : ListRow → ListRow → Bool
by_idx a b = leb a.idx b.idx

unfoldable pub get_list : StateDb → ℕ → String → List String
get_list db now key =
    map (λ (r : ListRow). r.value)
      (order_by by_idx
        (select (λ (r : ListRow). r.key === key && is_live now r.expires_at) db.lists))

abbrev pub queue_key : String → String
queue_key thread_id = string_append "queue:" thread_id

unfoldable pub queue_depth : StateDb → String → ℕ
queue_depth db thread_id = length (select (in_list (queue_key thread_id)) db.lists)

unfoldable pub enqueue : StateDb → ℕ → String → String → ℕ → StateDb × ℕ
unfolding append_to_list queue_depth
enqueue db now thread_id entry max_size =
    let db' = append_to_list db now (queue_key thread_id) entry (some max_size) none in
    (db', queue_depth db' thread_id)

abbrev pub taken : StateDb → String → Option ListRow → StateDb × Option String
taken db key none = (db, none)
taken db key (some row) = (
  record db { lists = delete (λ (r : ListRow). r.key === key && r.idx == row.idx) db.lists },
  some row.value,
)

unfoldable pub dequeue : StateDb → String → StateDb × Option String
dequeue db thread_id =
    taken db (queue_key thread_id)
      (first (λ r. true) (order_by by_idx (select (in_list (queue_key thread_id)) db.lists)))
