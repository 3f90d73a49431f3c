-- ===== src/Container/MessagesOut.antt =====
-- `container/agent-runner/src/db/messages-out.ts`: the container's writes to outbound.db, and lookups by
-- the sequence number that the agent sees.
use lfontes_nanoclaw.Prelude.{
  ◌==◌, ◌===◌, if◌then◌else◌, any, first, max_of, ℕ, ◌+◌, ◌*◌, ◌%◌, max, String, ◌||◌, Option, none,
  some, [], ◌∷◌, ◌++◌,
}
use lfontes_nanoclaw.SessionDb.{MessageIn, Delivered, InDb, MessageOut, OutDb, datetime}

pub record WriteMessageOut : Type 0 where
  pub id : String
  pub in_reply_to : Option String
  pub deliver_after : Option ℕ
  pub recurrence : Option String
  pub kind : String
  pub platform_id : Option String
  pub channel_type : Option String
  pub thread_id : Option String
  pub content : String

-- The odd number above every sequence number of both databases.
unfoldable pub next_odd_seq : InDb → OutDb → ℕ
next_odd_seq inbound outbound =
    let max_out = max_of (λ (m : MessageOut). m.seq) outbound.messages_out in
    let max_in = max_of (λ (m : MessageIn). m.seq) inbound.messages_in in
    let most = max max_out max_in in if most % 2 == 0 then most + 1 else most + 2

-- INSERT INTO messages_out, under PRIMARY KEY (id) and UNIQUE (seq).
unfoldable pub add_out_row : OutDb → MessageOut → Option OutDb
add_out_row db row =
    if any (λ (m : MessageOut). m.id === row.id || m.seq == row.seq) db.messages_out
    then none
    else some (record db { messages_out = db.messages_out ++ row ∷ [] })

abbrev pub with_seq : ℕ → Option OutDb → Option (ℕ × OutDb)
with_seq seq none = none
with_seq seq (some db) = some (seq, db)

unfoldable pub write_message_out : InDb → OutDb → ℕ → WriteMessageOut → Option (ℕ × OutDb)
write_message_out inbound outbound now msg =
    let next_seq = next_odd_seq inbound outbound in
    with_seq next_seq (
      add_out_row outbound (record {
        id = msg.id;
        seq = next_seq;
        in_reply_to = msg.in_reply_to;
        timestamp = datetime now * 1000;
        deliver_after = msg.deliver_after;
        recurrence = msg.recurrence;
        kind = msg.kind;
        platform_id = msg.platform_id;
        channel_type = msg.channel_type;
        thread_id = msg.thread_id;
        content = msg.content;
      }))

-- `if (deliveredRow?.platform_message_id) return …; return outRow.id`, where '' is falsy.
abbrev pub platform_id_or : String → Option Delivered → String
platform_id_or own none = own
platform_id_or own (some d) = elim d.platform_message_id [
  | none ↦ own
  | some p ↦ if p === "" then own else p
]

abbrev out_id_of : InDb → Option MessageOut → Option String
out_id_of inbound none = none
out_id_of inbound (some m) =
    some
      (platform_id_or m.id (first (λ (d : Delivered). d.message_out_id === m.id) inbound.delivered))

abbrev id_of : InDb → OutDb → ℕ → Option MessageIn → Option String
id_of inbound outbound seq (some m) = some m.id
id_of inbound outbound seq none =
    out_id_of inbound (first (λ (m : MessageOut). m.seq == seq) outbound.messages_out)

unfoldable pub get_message_id_by_seq : InDb → OutDb → ℕ → Option String
get_message_id_by_seq inbound outbound seq =
    id_of inbound outbound seq (first (λ (m : MessageIn). m.seq == seq) inbound.messages_in)

-- Routing fields: channel_type, platform_id, thread_id.
abbrev pub Routing : Type 0
Routing = Option String × Option String × Option String

abbrev out_routing_of : Option MessageOut → Option Routing
out_routing_of none = none
out_routing_of (some m) = some (m.channel_type, m.platform_id, m.thread_id)

abbrev routing_of : OutDb → ℕ → Option MessageIn → Option Routing
routing_of outbound seq (some m) = some (m.channel_type, m.platform_id, m.thread_id)
routing_of outbound seq none =
    out_routing_of (first (λ (m : MessageOut). m.seq == seq) outbound.messages_out)

unfoldable pub get_routing_by_seq : InDb → OutDb → ℕ → Option Routing
get_routing_by_seq inbound outbound seq =
    routing_of outbound seq (first (λ (m : MessageIn). m.seq == seq) inbound.messages_in)
