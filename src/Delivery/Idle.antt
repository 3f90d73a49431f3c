-- ===== src/Delivery/Idle.antt =====
-- A message that is settled is not tried again.
use lfontes_nanoclaw.Prelude.{
  ◌===◌, Bool-cases, any, All, All-imp, select_none, ◌≡◌, refl, ap, inl, inr, true, false, not,
  some, [],
}
use lfontes_nanoclaw.SessionDb.{InDb, MessageOut, OutDb, get_due_outbound_messages, has_delivered}
use lfontes_nanoclaw.Sessions.{Session}
use lfontes_nanoclaw.AgentToAgent.Route.{in_db_of}
use lfontes_nanoclaw.Delivery.State.{DeliveryDb, DeliveryEnv}
use lfontes_nanoclaw.Delivery.Drain.{out_db_of, try_messages, undelivered_of, drain_session}

-- A drain of a session whose due messages are all settled changes nothing: nothing is sent, routed or
-- counted a second time.
pub drain_session-idle :
    {W : Type 0} (env : DeliveryEnv W) (db : DeliveryDb W) (session : Session) (in_db : InDb)
    (out_db : OutDb)
    → in_db_of db.shared.host.inboxes session.agent_group_id session.id ≡ some in_db
    → out_db_of db.outboxes session.agent_group_id session.id ≡ some out_db
    → All
        (λ (m : MessageOut). has_delivered in_db m.id ≡ true)
        (get_due_outbound_messages out_db env.env.now)
    → drain_session env db session ≡ db
unfolding drain_session try_messages
drain_session-idle env db session in_db out_db i o h =
    let left : undelivered_of in_db out_db env.env.now ≡ [] =
      select_none (λ (m : MessageOut). not (has_delivered in_db m.id))
        (get_due_outbound_messages out_db env.env.now)
        (All-imp (λ (m : MessageOut). has_delivered in_db m.id ≡ true)
          (λ (m : MessageOut). not (has_delivered in_db m.id) ≡ false)
          (get_due_outbound_messages out_db env.env.now) (λ m e. rw e refl) h) in
    elim (Bool-cases (any (λ g. g === session.agent_group_id) db.shared.host.agent_groups)) [
      | inr b ↦ rw (drain_session, b) refl
      | inl b ↦ rw (drain_session, b, o, i) (ap (λ msgs. try_messages env session msgs db) left)
    ]
