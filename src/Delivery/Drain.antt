-- ===== src/Delivery/Drain.antt =====
-- The delivery loop of `src/delivery.ts`: the due messages of a session, each tried, with the three
-- attempts (`drainSession`, `deliverSessionMessages`). A session whose inbound.db is missing is passed
-- over like one whose outbound.db is.
use lfontes_nanoclaw.Prelude.{
  leb, ◌===◌, if◌then◌else◌, any, select, delete, ℕ, ◌+◌, String, ◌&&◌, not, Option, none, some,
  List, [], ◌∷◌, ◌++◌, map,
}
use lfontes_nanoclaw.SessionDb.{
  InDb, OutDb, MessageOut, get_due_outbound_messages, has_delivered, mark_delivered,
  mark_delivery_failed,
}
use lfontes_nanoclaw.Sessions.{Session}
use lfontes_nanoclaw.Router.State.{Inbox, pause_typing}
use lfontes_nanoclaw.Router.Deliver.{is_inbox}
use lfontes_nanoclaw.AgentToAgent.Route.{in_db_of}
use lfontes_nanoclaw.Delivery.State.{Outbox, DeliveryDb, Delivery, DeliveryEnv}
use lfontes_nanoclaw.Delivery.Message.{with_host, deliver_message, is_for_agent}

abbrev pub max_delivery_attempts : ℕ
max_delivery_attempts = 3

-- `map.get(id) ?? 0`
unfoldable pub attempts_of : List (String × ℕ) → String → ℕ
attempts_of [] id = 0
attempts_of ((j, n) ∷ rest) id = if j === id then n else attempts_of rest id

unfoldable pub delete_attempts : List (String × ℕ) → String → List (String × ℕ)
delete_attempts map id = delete (λ (e : String × ℕ). e.0 === id) map

unfoldable pub set_attempts : List (String × ℕ) → String → ℕ → List (String × ℕ)
set_attempts [] id n = (id, n) ∷ []
set_attempts ((j, m) ∷ rest) id n =
    if j === id then (id, n) ∷ rest else (j, m) ∷ set_attempts rest id n

-- A write to the inbound.db of a session.
unfoldable pub change_in_db : (InDb → InDb) → List Inbox → String → String → List Inbox
change_in_db f [] agent_group_id session_id = []
change_in_db f (b ∷ inboxes) agent_group_id session_id =
    if is_inbox agent_group_id session_id b
    then record b { in_db = f b.in_db } ∷ inboxes
    else b ∷ change_in_db f inboxes agent_group_id session_id

unfoldable pub out_db_of : List Outbox → String → String → Option OutDb
out_db_of [] agent_group_id session_id = none
out_db_of (b ∷ outboxes) agent_group_id session_id =
    if b.agent_group_id === agent_group_id && b.session_id === session_id
    then some b.out_db
    else out_db_of outboxes agent_group_id session_id

abbrev pub undelivered_of : InDb → OutDb → ℕ → List MessageOut
undelivered_of in_db out_db now =
    select (λ (m : MessageOut). not (has_delivered in_db m.id))
      (get_due_outbound_messages out_db now)

module _ {W : Type 0} where
  unfoldable pub change_session_db : (InDb → InDb) → DeliveryDb W → Session → DeliveryDb W
  unfolding change_in_db
  change_session_db f db session = with_host db (record db.shared.host {
    inboxes = change_in_db f db.shared.host.inboxes session.agent_group_id session.id;
  })

  abbrev pub pause_after : DeliveryDb W → Session → MessageOut → DeliveryDb W
  pause_after db session msg =
      if not (msg.kind === "system") && not (is_for_agent msg)
      then with_host db (record db.shared.host {
        effects = db.shared.host.effects ++ pause_typing session.id ∷ [];
      })
      else db

  abbrev pub without_attempts : DeliveryDb W → String → DeliveryDb W
  without_attempts db id = record db { delivery_attempts = delete_attempts db.delivery_attempts id }

  -- After the delivery returned.
  unfoldable pub after_success :
      ℕ → DeliveryDb W → Session → MessageOut → Option String → DeliveryDb W
  unfolding change_session_db mark_delivered delete_attempts
  after_success now db session msg platform_message_id =
      pause_after
        (without_attempts
          (change_session_db (λ d. mark_delivered d now msg.id platform_message_id) db session)
          msg.id)
        session msg

  -- The catch.
  unfoldable pub after_failure : ℕ → DeliveryDb W → Session → MessageOut → DeliveryDb W
  unfolding change_session_db mark_delivery_failed delete_attempts set_attempts attempts_of
  after_failure now db session msg =
      let attempts = attempts_of db.delivery_attempts msg.id + 1 in
      if leb max_delivery_attempts attempts
      then without_attempts (change_session_db (λ d. mark_delivery_failed d now msg.id) db session)
          msg.id
      else record db { delivery_attempts = set_attempts db.delivery_attempts msg.id attempts }

  abbrev pub after_delivery : ℕ → Session → MessageOut → Delivery W → DeliveryDb W
  after_delivery now session msg result = elim result.outcome [
    | none ↦ after_failure now result.db session msg
    | some platform_message_id ↦ after_success now result.db session msg platform_message_id
  ]

  unfoldable pub try_message : DeliveryEnv W → DeliveryDb W → Session → MessageOut → DeliveryDb W
  unfolding deliver_message after_failure after_success
  try_message env db session msg =
      after_delivery env.env.now session msg (deliver_message env db session msg)

  unfoldable pub try_messages :
      DeliveryEnv W → Session → List MessageOut → DeliveryDb W → DeliveryDb W
  unfolding try_message
  try_messages env session [] db = db
  try_messages env session (msg ∷ msgs) db =
      try_messages env session msgs (try_message env db session msg)

  unfoldable pub drain_session : DeliveryEnv W → DeliveryDb W → Session → DeliveryDb W
  unfolding in_db_of out_db_of try_messages get_due_outbound_messages has_delivered
  drain_session env db session =
      if not (any (λ g. g === session.agent_group_id) db.shared.host.agent_groups)
      then db
      else elim (out_db_of db.outboxes session.agent_group_id session.id) [
        | none ↦ db
        | some out_db ↦ elim (in_db_of db.shared.host.inboxes session.agent_group_id session.id) [
          | none ↦ db
          | some in_db ↦ try_messages env session (undelivered_of in_db out_db env.env.now) db
        ]
      ]

  -- The guard against a second drain of a session that is being drained.
  unfoldable pub deliver_session_messages : DeliveryEnv W → DeliveryDb W → Session → DeliveryDb W
  unfolding drain_session
  deliver_session_messages env db session =
      if any (λ s. s === session.id) db.inflight_deliveries
      then db
      else let drained =
          drain_session env
            (record db { inflight_deliveries = db.inflight_deliveries ++ session.id ∷ [] })
            session in
        record drained {
          inflight_deliveries = delete (λ s. s === session.id) drained.inflight_deliveries;
        }

  -- One round of a poll loop over the sessions that it reads.
  unfoldable pub poll : DeliveryEnv W → List Session → DeliveryDb W → DeliveryDb W
  unfolding deliver_session_messages
  poll env [] db = db
  poll env (s ∷ sessions) db = poll env sessions (deliver_session_messages env db s)
