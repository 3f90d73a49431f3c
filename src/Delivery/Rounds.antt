-- ===== src/Delivery/Rounds.antt =====
-- Three drains of a session settle each of its due messages.
use lfontes_nanoclaw.Prelude.{
  ◌===◌, ===_iff, ===_refl, Bool-cases, any, In, In-select, true≢false, ℕ, ◌+◌, ◌≤◌, ◌<◌, String,
  ◌≡◌, refl, sym, ◌∙◌, inl, inr, Bool, true, false, not, some, List, [], ◌∷◌, arith,
}
use lfontes_nanoclaw.SessionDb.{
  InDb, Delivered, MessageOut, OutDb, get_due_outbound_messages, has_delivered,
}
use lfontes_nanoclaw.Sessions.{Session}
use lfontes_nanoclaw.AgentToAgent.Route.{in_db_of}
use lfontes_nanoclaw.Delivery.State.{OutContent, Shared, DeliveryDb, DeliveryEnv, Outbox}
use lfontes_nanoclaw.Delivery.Message.{deliver_message}
use lfontes_nanoclaw.Delivery.Drain.{
  attempts_of, out_db_of, after_delivery, try_message, try_messages, undelivered_of, drain_session,
}
use lfontes_nanoclaw.Delivery.Keeps.{
  delivered_in-in_db_of, in_db_of-delivered_in, ready, ready_of, ready-some,
}
use lfontes_nanoclaw.Delivery.Kept.{deliver_message-Kept}
use lfontes_nanoclaw.Delivery.Progress.{Tried, after_delivery-or, Tried-own, Tried-other}

module _ {W : Type 0} (env : DeliveryEnv W) (session : Session) (outs : List Outbox)
    (handlers : (action : String) (handler : Shared W → Session → OutContent → Shared W × Bool)
        (shared : Shared W) (caller : Session) (content : OutContent) (ds : List Delivered)
      → env.action_handler action ≡ some handler
      → ready session.agent_group_id session.id shared.host ≡ some ds
      → ready session.agent_group_id session.id (handler shared caller content).0.host
        ≡ some ds) where
  try_message-own :
      (n : ℕ) (msg : MessageOut) (db : DeliveryDb W)
      → Tried session outs msg.id (λ a. n ≤ a) db
      → Tried session outs msg.id (λ a. (n + 1 ≤ a) × (a < 3)) (try_message env db session msg)
  unfolding try_message
  try_message-own n msg db (ds, h, o, t) =
      let k =
        deliver_message-Kept env session.agent_group_id session.id handlers ds db session h msg in
      let r = deliver_message env db session msg in
      Tried-own session outs msg r.db (after_delivery env.env.now session msg r) ds k.2 (k.1 ∙ o) n
        (rw k.0 t) (after_delivery-or env.env.now session msg r.db ds k.2 r refl)

  try_message-other :
      (id : String) (C : ℕ → Type 0) (msg : MessageOut) (db : DeliveryDb W)
      → (msg.id === id) ≡ false
      → Tried session outs id C db
      → Tried session outs id C (try_message env db session msg)
  unfolding try_message
  try_message-other id C msg db n (ds, h, o, t) =
      let k =
        deliver_message-Kept env session.agent_group_id session.id handlers ds db session h msg in
      let r = deliver_message env db session msg in
      Tried-other session outs msg r.db (after_delivery env.env.now session msg r) ds k.2 (k.1 ∙ o)
        id C n (rw k.0 t) (after_delivery-or env.env.now session msg r.db ds k.2 r refl)

  weaken :
      (id : String) (C D : ℕ → Type 0) (db : DeliveryDb W)
      → ((a : ℕ) → C a → D a)
      → Tried session outs id C db
      → Tried session outs id D db
  weaken id C D db f (ds, h, o, inl t) = (ds, h, o, inl t)
  weaken id C D db f (ds, h, o, inr t) = (ds, h, o, inr (f (attempts_of db.delivery_attempts id) t))

  try_message-same :
      (n : ℕ) (id : String) (msg : MessageOut) (db : DeliveryDb W)
      → Tried session outs id (λ a. (n ≤ a) × (a < 3)) db
      → Tried session outs id (λ a. (n ≤ a) × (a < 3)) (try_message env db session msg)
  try_message-same n id msg db t = elim (Bool-cases (msg.id === id)) [
    | inr b ↦ try_message-other id (λ a. (n ≤ a) × (a < 3)) msg db b t
    | inl b ↦
        let e = (===_iff msg.id id).0 b in
        let r : Tried session outs msg.id (λ a. n ≤ a) db =
          weaken msg.id (λ a. (n ≤ a) × (a < 3)) (λ a. n ≤ a) db (λ a c. c.0) (rw e t) in
        weaken id (λ a. (n + 1 ≤ a) × (a < 3)) (λ a. (n ≤ a) × (a < 3))
          (try_message env db session msg) (λ a c. (omega (arith, c.0), c.1))
          (rw (← e) (try_message-own n msg db r))
  ]

  try_messages-same :
      (n : ℕ) (id : String) (msgs : List MessageOut) (db : DeliveryDb W)
      → Tried session outs id (λ a. (n ≤ a) × (a < 3)) db
      → Tried session outs id (λ a. (n ≤ a) × (a < 3)) (try_messages env session msgs db)
  unfolding try_messages
  try_messages-same n id [] db t = t
  try_messages-same n id (msg ∷ msgs) db t =
      try_messages-same n id msgs (try_message env db session msg) (try_message-same n id msg db t)

  try_messages-own :
      (n : ℕ) (msg : MessageOut) (msgs : List MessageOut) (db : DeliveryDb W)
      → In msg msgs
      → Tried session outs msg.id (λ a. n ≤ a) db
      → Tried session outs msg.id (λ a. (n + 1 ≤ a) × (a < 3)) (try_messages env session msgs db)
  unfolding try_messages
  try_messages-own n msg [] db m t = absurd m
  try_messages-own n msg (x ∷ msgs) db m t = elim (Bool-cases (x.id === msg.id)) [
    | inl b ↦
        let e = (===_iff x.id msg.id).0 b in
        try_messages-same (n + 1) msg.id msgs (try_message env db session x)
          (rw (← e) (try_message-own n x db (rw e t)))
    | inr b ↦ elim m [
      | inl e ↦ absurd (true≢false (sym (===_refl msg.id) ∙ rw (← e) at b))
      | inr m' ↦
          try_messages-own n msg msgs (try_message env db session x) m'
            (try_message-other msg.id (λ a. n ≤ a) x db b t)
    ]
  ]

  module _ (out_db : OutDb) (msg : MessageOut)
      (kept : out_db_of outs session.agent_group_id session.id ≡ some out_db)
      (due : In msg (get_due_outbound_messages out_db env.env.now)) where
    drain_session-counts :
        (n : ℕ) (db : DeliveryDb W)
        → Tried session outs msg.id (λ a. n ≤ a) db
        → Tried session outs msg.id (λ a. (n + 1 ≤ a) × (a < 3)) (drain_session env db session)
    unfolding drain_session has_delivered
    drain_session-counts n db (ds, h, o, t) =
        let r = ready-some session.agent_group_id session.id db.shared.host ds h in
        let (d, i, q) =
          in_db_of-delivered_in db.shared.host.inboxes session.agent_group_id session.id ds r.1 in
        rw (drain_session, r.0, o, kept, i)
          (elim (Bool-cases (has_delivered d msg.id)) [
            | inl b ↦
                try_messages-same (n + 1) msg.id (undelivered_of d out_db env.env.now) db
                  (ds, h, o, inl (rw q at b))
            | inr b ↦
                try_messages-own n msg (undelivered_of d out_db env.env.now) db
                  (In-select (λ (m : MessageOut). not (has_delivered d m.id))
                    (get_due_outbound_messages out_db env.env.now) msg due (rw b refl))
                  (ds, h, o, t)
          ])

    counts_on :
        (n : ℕ) (db : DeliveryDb W)
        → Tried session outs msg.id (λ a. (n ≤ a) × (a < 3)) db
        → Tried session outs msg.id (λ a. (n + 1 ≤ a) × (a < 3)) (drain_session env db session)
    counts_on n db t =
        drain_session-counts n db
          (weaken msg.id (λ a. (n ≤ a) × (a < 3)) (λ a. n ≤ a) db (λ a c. c.0) t)

    settled :
        (db : DeliveryDb W)
        → Tried session outs msg.id (λ a. (3 ≤ a) × (a < 3)) db
        → (d : InDb) × (in_db_of db.shared.host.inboxes session.agent_group_id session.id ≡ some d)
          × (has_delivered d msg.id ≡ true)
    unfolding has_delivered
    settled db (ds, h, o, inr (a, b)) = let x : ⊥ = omega (arith, a, b) in absurd x
    settled db (ds, h, o, inl t) =
        let (d, i, q) =
          in_db_of-delivered_in db.shared.host.inboxes session.agent_group_id session.id ds
            (ready-some session.agent_group_id session.id db.shared.host ds h).1 in
        (d, i, rw q t)

-- A message that is due is settled, as delivered or as failed, after at most three drains of its
-- session, whatever the channel adapter and the handlers answer, provided that the session's agent
-- group, inbound.db and outbound.db are there and that no handler of a system action changes the
-- session's rows of `delivered`.
pub drain_session-settles :
    {W : Type 0} (env : DeliveryEnv W) (session : Session) (db : DeliveryDb W) (in_db : InDb)
    (out_db : OutDb) (msg : MessageOut)
    → ((action : String) (handler : Shared W → Session → OutContent → Shared W × Bool)
          (shared : Shared W) (caller : Session) (content : OutContent) (ds : List Delivered)
        → env.action_handler action ≡ some handler
        → ready session.agent_group_id session.id shared.host ≡ some ds
        → ready session.agent_group_id session.id (handler shared caller content).0.host ≡ some ds)
    → any (λ g. g === session.agent_group_id) db.shared.host.agent_groups ≡ true
    → in_db_of db.shared.host.inboxes session.agent_group_id session.id ≡ some in_db
    → out_db_of db.outboxes session.agent_group_id session.id ≡ some out_db
    → In msg (get_due_outbound_messages out_db env.env.now)
    → (d : InDb) × (in_db_of
          (drain_session env
            (drain_session env (drain_session env db session) session)
            session).shared.host.inboxes
          session.agent_group_id
          session.id
        ≡ some d)
      × (has_delivered d msg.id ≡ true)
drain_session-settles env session db in_db out_db msg handlers a i o due =
    let start =
      ready_of session.agent_group_id session.id db.shared.host in_db.delivered a
        (delivered_in-in_db_of db.shared.host.inboxes session.agent_group_id session.id in_db i) in
    let once = drain_session env db session in
    let twice = drain_session env once session in
    settled env session db.outboxes handlers out_db msg o due (drain_session env twice session) (
      counts_on env session db.outboxes handlers out_db msg o due 2 twice (
        counts_on env session db.outboxes handlers out_db msg o due 1 once (
          drain_session-counts env session db.outboxes handlers out_db msg o due 0 db
            (in_db.delivered, start, refl, inr (omega arith)))))
