-- ===== src/SessionDb.antt =====
-- The two databases of a session and the host's SQL on them: `src/db/session-db.ts` over the tables of
-- `src/db/schema.ts`.
--
-- A table is the list of its rows in order of insertion. A time is a number of milliseconds;
-- `datetime` keeps whole seconds of it, as SQLite's function does. A text column that the program
-- compares or parses as a time holds the time it parses to. An insert that breaks a primary key or
-- a unique column is `none`, where SQLite throws.
pub mod Rows
use lfontes_nanoclaw.Prelude.{
  ltb, leb, ◌==◌, ◌===◌, if◌then◌else◌, ltb→lt, leb→le, ==_iff, ===_iff, ===_refl, Bool-cases,
  Option-cases, &&-true, is_some, opt_eq, opt_eq_refl, opt_eq_iff, or_else, length, take, any, all,
  All, All-imp, All-and, All-append, All-take, length-append, length-take-le, In, All-In, In-All,
  In-append_left, In-append_right, select, first, update, delete, max_of, insert_by, order_by,
  All-select, All-delete, All-update, All-insert_by, All-order_by, select_holds, delete_fails,
  le-max_of, any-false, first-some, first-none, ℕ, zero, suc, ◌+◌, ◌-◌, ◌*◌, ◌/◌, ◌%◌, ◌^◌, ◌≤◌,
  ◌<◌, min, max, String, ◌≡◌, refl, sym, ap, ◌∙◌, ◌≢◌, ◌↔◌, ◌⊎◌, inl, inr, Bool, true, false, ◌&&◌,
  ◌||◌, not, Option, none, some, List, [], ◌∷◌, ◌++◌, map, reverse, arith,
}

pub data Status : Type 0 where
  pending completed failed paused : Status

abbrev pub is_pending : Status → Bool
is_pending pending = true
is_pending _ = false

abbrev pub is_completed : Status → Bool
is_completed completed = true
is_completed _ = false

abbrev pub is_paused : Status → Bool
is_paused paused = true
is_paused _ = false

pub record MessageIn : Type 0 where
  pub id : String
  pub seq : ℕ
  pub kind : String
  pub timestamp : ℕ
  pub status : Status
  pub process_after : Option ℕ
  pub recurrence : Option String
  pub series_id : String
  pub tries : ℕ
  pub trigger : Bool
  pub platform_id : Option String
  pub channel_type : Option String
  pub thread_id : Option String
  pub content : String
  pub source_session_id : Option String
  pub on_wake : Bool

-- The rows of `delivered`, by their `status` column.
pub data Outcome : Type 0 where
  delivered failed : Outcome

pub record Delivered : Type 0 where
  pub message_out_id : String
  pub platform_message_id : Option String
  pub status : Outcome
  pub delivered_at : ℕ

pub record InDb : Type 0 where
  pub messages_in : List MessageIn
  pub delivered : List Delivered

pub record MessageOut : Type 0 where
  pub id : String
  pub seq : ℕ
  pub in_reply_to : Option String
  pub timestamp : ℕ
  pub deliver_after : Option ℕ
  pub recurrence : Option String
  pub kind : String
  pub platform_id : Option String
  pub channel_type : Option String
  pub thread_id : Option String
  pub content : String

pub data AckStatus : Type 0 where
  processing completed failed : AckStatus

abbrev pub is_processing : AckStatus → Bool
is_processing AckStatus.processing = true
is_processing _ = false

-- `status_changed` is `none` where the text does not parse as a time.
pub record Ack : Type 0 where
  pub message_id : String
  pub status : AckStatus
  pub status_changed : Option ℕ

pub record ContainerState : Type 0 where
  pub current_tool : Option String
  pub tool_declared_timeout_ms : Option ℕ

pub record OutDb : Type 0 where
  pub messages_out : List MessageOut
  pub processing_ack : List Ack
  pub container_state : Option ContainerState

-- SQLite's `datetime`: whole seconds.
abbrev pub datetime : ℕ → ℕ
datetime t = t / 1000

-- `process_after IS NULL OR datetime(process_after) <= datetime('now')`
abbrev pub is_due : ℕ → Option ℕ → Bool
is_due now none = true
is_due now (some t) = leb (datetime t) (datetime now)

unfoldable pub next_even_seq : InDb → ℕ
next_even_seq db =
    let max_seq = max_of (λ (m : MessageIn). m.seq) db.messages_in in
    if ltb max_seq 2 then 2 else max_seq + 2 - max_seq % 2

-- The argument of `insertMessage`; what may be left out is an option.
pub record NewMessage : Type 0 where
  pub id : String
  pub kind : String
  pub timestamp : ℕ
  pub platform_id : Option String
  pub channel_type : Option String
  pub thread_id : Option String
  pub content : String
  pub process_after : Option ℕ
  pub recurrence : Option String
  pub trigger : Option Bool
  pub source_session_id : Option String
  pub on_wake : Option Bool

-- INSERT INTO messages_in, under PRIMARY KEY (id) and UNIQUE (seq).
unfoldable pub add_row : InDb → MessageIn → Option InDb
add_row db row =
    if any (λ m. m.id === row.id || m.seq == row.seq) db.messages_in
    then none
    else some (record db { messages_in = db.messages_in ++ row ∷ [] })

unfoldable pub insert_message : InDb → NewMessage → Option InDb
insert_message db message = add_row db (record {
  id = message.id;
  seq = next_even_seq db;
  kind = message.kind;
  timestamp = message.timestamp;
  status = pending;
  process_after = message.process_after;
  recurrence = message.recurrence;
  series_id = message.id;
  tries = 0;
  trigger = or_else message.trigger true;
  platform_id = message.platform_id;
  channel_type = message.channel_type;
  thread_id = message.thread_id;
  content = message.content;
  source_session_id = message.source_session_id;
  on_wake = or_else message.on_wake false;
})

-- The WHERE clause of `countDueMessages`.
abbrev pub is_due_trigger : ℕ → MessageIn → Bool
is_due_trigger now m = is_pending m.status && m.trigger && is_due now m.process_after

unfoldable pub count_due_messages : InDb → ℕ → ℕ
count_due_messages db now = length (select (is_due_trigger now) db.messages_in)

unfoldable pub mark_message_failed : InDb → String → InDb
mark_message_failed db message_id = record db {
  messages_in =
      update (λ m. m.id === message_id) (λ m. record m { status = failed }) db.messages_in;
}

unfoldable pub retry_with_backoff : InDb → ℕ → String → ℕ → InDb
retry_with_backoff db now message_id backoff_sec = record db {
  messages_in =
      update (λ m. m.id === message_id)
        (λ m. record m {
          tries = m.tries + 1;
          process_after = some ((datetime now + backoff_sec) * 1000);
        })
        db.messages_in;
}

unfoldable pub get_message_for_retry : InDb → String → (Status → Bool) → Option MessageIn
get_message_for_retry db message_id status =
    first (λ m. m.id === message_id && status m.status) db.messages_in

-- One run of the prepared UPDATE of `syncProcessingAcks`.
unfoldable pub complete_message : String → List MessageIn → List MessageIn
complete_message message_id =
    update (λ m. m.id === message_id && not (is_completed m.status))
      (λ m. record m { status = completed })

unfoldable pub complete_all : List Ack → List MessageIn → List MessageIn
complete_all [] rows = rows
complete_all (a ∷ acks) rows = complete_all acks (complete_message a.message_id rows)

unfoldable pub sync_processing_acks : InDb → OutDb → InDb
sync_processing_acks in_db out_db = record in_db {
  messages_in =
      complete_all (select (λ a. not (is_processing a.status)) out_db.processing_ack)
        in_db.messages_in;
}

unfoldable pub get_processing_claims : OutDb → List Ack
get_processing_claims out_db = select (λ a. is_processing a.status) out_db.processing_ack

unfoldable pub delete_orphan_processing_claims : OutDb → OutDb
delete_orphan_processing_claims out_db = record out_db {
  processing_ack = delete (λ a. is_processing a.status) out_db.processing_ack;
}

unfoldable pub get_container_state : OutDb → Option ContainerState
get_container_state out_db = out_db.container_state

-- `deliver_after <= datetime('now')` compares texts: the column has the form 2026-01-02T03:04:05.000Z,
-- `datetime` the form 2026-01-02 03:04:05, and a space is below a T, so that a time of the same day
-- is not due. Times are in milliseconds.
abbrev pub is_out_due : ℕ → Option ℕ → Bool
is_out_due now none = true
is_out_due now (some t) = ltb (t / 86400000) (now / 86400000)

unfoldable pub get_due_outbound_messages : OutDb → ℕ → List MessageOut
get_due_outbound_messages db now =
    order_by (λ (a : MessageOut) (b : MessageOut). leb a.timestamp b.timestamp)
      (select (λ (m : MessageOut). is_out_due now m.deliver_after) db.messages_out)

unfoldable pub has_delivered : InDb → String → Bool
has_delivered db message_out_id = any (λ d. d.message_out_id === message_out_id) db.delivered

-- INSERT OR IGNORE INTO delivered
unfoldable pub add_delivered : InDb → Delivered → InDb
unfolding has_delivered
add_delivered db row =
    if has_delivered db row.message_out_id
    then db
    else record db { delivered = db.delivered ++ row ∷ [] }

unfoldable pub mark_delivered : InDb → ℕ → String → Option String → InDb
unfolding add_delivered
mark_delivered db now message_out_id platform_message_id = add_delivered db (record {
  message_out_id = message_out_id;
  platform_message_id = platform_message_id;
  status = Outcome.delivered;
  delivered_at = datetime now * 1000;
})

unfoldable pub mark_delivery_failed : InDb → ℕ → String → InDb
unfolding add_delivered
mark_delivery_failed db now message_out_id = add_delivered db (record {
  message_out_id = message_out_id;
  platform_message_id = none;
  status = Outcome.failed;
  delivered_at = datetime now * 1000;
})

-- `row?.source_session_id ?? null`
abbrev source_of : Option MessageIn → Option String
source_of none = none
source_of (some m) = m.source_session_id

unfoldable pub get_inbound_source_session_id : InDb → String → Option String
get_inbound_source_session_id db message_id =
    source_of (first (λ m. m.id === message_id) db.messages_in)

abbrev pub newest_first : MessageIn → MessageIn → Bool
newest_first a b = leb b.seq a.seq

abbrev pub is_from_peer : String → MessageIn → Bool
is_from_peer peer m =
    opt_eq m.channel_type (some "agent")
    && opt_eq m.platform_id (some peer)
    && is_some m.source_session_id

unfoldable pub get_most_recent_peer_source_session_id : InDb → String → Option String
get_most_recent_peer_source_session_id db peer =
    source_of
      (first (λ _. true) (order_by newest_first (select (is_from_peer peer) db.messages_in)))
