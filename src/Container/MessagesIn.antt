-- ===== src/Container/MessagesIn.antt =====
-- `container/agent-runner/src/db/messages-in.ts`: the container's view of inbound.db, filtered by its own
-- acknowledgements, and the writes to `processing_ack`; `clearStaleProcessingAcks` of
-- `container/agent-runner/src/db/connection.ts`.
use lfontes_nanoclaw.Prelude.{
  ◌===◌, take, any, select, first, delete, order_by, ℕ, ◌*◌, String, Bool, ◌&&◌, ◌||◌, not, Option,
  some, List, [], ◌∷◌, ◌++◌, reverse,
}
use lfontes_nanoclaw.SessionDb.{
  MessageIn, InDb, Ack, AckStatus, OutDb, is_pending, is_processing, is_due, newest_first, datetime,
}

unfoldable pub is_acked : OutDb → String → Bool
is_acked outbound id = any (λ a. a.message_id === id) outbound.processing_ack

-- The WHERE clause of `getPendingMessages`.
abbrev pub is_fetched : Bool → ℕ → MessageIn → Bool
is_fetched is_first_poll now m =
    is_pending m.status && is_due now m.process_after && (not m.on_wake || is_first_poll)

-- The rows of the query: ORDER BY seq DESC LIMIT max_messages.
unfoldable pub fetch_window : InDb → ℕ → Bool → ℕ → List MessageIn
fetch_window inbound max_messages is_first_poll now =
    take max_messages
      (order_by newest_first (select (is_fetched is_first_poll now) inbound.messages_in))

unfoldable pub get_pending_messages : InDb → OutDb → ℕ → Bool → ℕ → List MessageIn
get_pending_messages inbound outbound max_messages is_first_poll now = reverse (
    select (λ m. not (is_acked outbound m.id))
      (fetch_window inbound max_messages is_first_poll now))

-- INSERT OR REPLACE INTO processing_ack
unfoldable pub put_ack : ℕ → AckStatus → String → List Ack → List Ack
put_ack now status id acks =
    delete (λ a. a.message_id === id) acks
    ++ record { message_id = id; status = status; status_changed = some (datetime now * 1000) } ∷ []

unfoldable pub put_acks : ℕ → AckStatus → List String → List Ack → List Ack
put_acks now status [] acks = acks
put_acks now status (id ∷ ids) acks = put_acks now status ids (put_ack now status id acks)

unfoldable pub mark_processing : OutDb → ℕ → List String → OutDb
mark_processing db now ids = record db {
  processing_ack = put_acks now AckStatus.processing ids db.processing_ack;
}

unfoldable pub mark_completed : OutDb → ℕ → List String → OutDb
mark_completed db now ids = record db {
  processing_ack = put_acks now AckStatus.completed ids db.processing_ack;
}

unfoldable pub mark_failed : OutDb → ℕ → String → OutDb
mark_failed db now id = record db {
  processing_ack = put_ack now AckStatus.failed id db.processing_ack;
}

unfoldable pub get_message_in : InDb → String → Option MessageIn
get_message_in inbound id = first (λ m. m.id === id) inbound.messages_in

unfoldable pub clear_stale_processing_acks : OutDb → OutDb
clear_stale_processing_acks db = record db {
  processing_ack = delete (λ a. is_processing a.status) db.processing_ack;
}
