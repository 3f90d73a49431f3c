-- ===== src/Router/TablesKept.antt =====
-- The delivery to an agent leaves alone what the hooks of the router read and write.
use lfontes_nanoclaw.Prelude.{
  if◌then◌else◌, Bool-cases, Option-cases, String, ◌≡◌, refl, ◌∙◌, inl, inr, Bool, true, false,
  ◌&&◌, Option, some, arith,
}
use lfontes_nanoclaw.CommandGate.{GateResult, pass, filter, deny}
use lfontes_nanoclaw.SessionDb.{NewMessage}
use lfontes_nanoclaw.Sessions.{Session, resolve_session}
use lfontes_nanoclaw.Router.State.{
  MessagingGroup, MessagingGroupAgent, InboundEvent, Tables, RouterDb, Hooks, Env,
}
use lfontes_nanoclaw.Router.Deliver.{
  with_folder, RouteResult, deliver_to_agent, write_outbound_direct, write_session_message,
  wake_session, store_routed, routed_message, gate_of, after_gate, effective_session_mode,
  write_inbox,
}
use lfontes_nanoclaw.Router.Fanout.{
  Fanout, Routing, deliver, subscribe_sticky, take_message, engaged, accumulated,
}

module _ {W : Type 0} (env : Env) where
  tables-write_session_message :
      (db db' : RouterDb W) (s : Session) (message : NewMessage)
      → write_session_message env db s message ≡ some db'
      → db'.tables ≡ db.tables
  unfolding write_session_message
  tables-write_session_message db db' s message e =
      elim (Option-cases (
        write_inbox db.inboxes s.agent_group_id s.id (record message {
          content = env.extract_attachment_files s.agent_group_id s.id message.id message.content;
        }))) [ inl n ↦ ground arith | inr (bs, k) ↦ ground arith ]

  tables-store_routed :
      (db : RouterDb W) (agent : MessagingGroupAgent) (event : InboundEvent) (s : Session)
      (wake : Bool)
      → (store_routed env db agent event s wake).db.tables ≡ db.tables
  unfolding store_routed wake_session
  tables-store_routed db agent event s wake =
      elim (Option-cases (write_session_message env db s (routed_message env agent event wake))) [
        | inl n ↦ rw (store_routed, n) refl
        | inr (db', k) ↦
            rw (store_routed, k)
              (elim (Bool-cases wake) [
                | inl w ↦ rw w (tables-write_session_message db db' s _ k)
                | inr w ↦ rw w (tables-write_session_message db db' s _ k)
              ])
      ]

  tables-after_gate :
      (db : RouterDb W) (agent : MessagingGroupAgent) (event : InboundEvent) (s : Session)
      (wake : Bool) (gate : GateResult)
      → (after_gate env db agent event s wake gate).db.tables ≡ db.tables
  unfolding after_gate write_outbound_direct
  tables-after_gate db agent event s wake filter = refl
  tables-after_gate db agent event s wake (deny command) = refl
  tables-after_gate db agent event s wake pass = tables-store_routed db agent event s wake

  pub tables-deliver_to_agent :
      (db : RouterDb W) (agent : MessagingGroupAgent) (mg : MessagingGroup) (event : InboundEvent)
      (user : Option String) (threads wake : Bool)
      → (deliver_to_agent env db agent mg event user threads wake).db.tables ≡ db.tables
  unfolding deliver_to_agent
  tables-deliver_to_agent db agent mg event user threads wake =
      elim (Option-cases (
        resolve_session db.sessions agent.agent_group_id (some mg.id) event.thread_id
          (effective_session_mode agent mg threads) (env.session_id agent) env.now)) [
            | inl n ↦ rw (deliver_to_agent, n) refl
            | inr (r, k) ↦
                rw (deliver_to_agent, k)
                  (tables-after_gate
                    (record db {
                      sessions = r.sessions;
                      inboxes = with_folder r.created agent.agent_group_id r.session.id db.inboxes;
                    })
                    agent event r.session wake (gate_of env db agent event user))
          ]

  module _ (hooks : Hooks W) (routing : Routing) where
    tables-if :
        (b : Bool) (x y : Fanout W) (t : Tables W)
        → x.db.tables ≡ t
        → y.db.tables ≡ t
        → (if b then x else y).db.tables ≡ t
    tables-if true x y t h k = h
    tables-if false x y t h k = k

    tables-engaged :
        (st : Fanout W) (agent : MessagingGroupAgent) (out : RouteResult W)
        → (engaged env hooks routing st agent out).db.tables ≡ out.db.tables
    unfolding subscribe_sticky
    tables-engaged st agent out = tables-if out.threw _ _ _ refl (tables-if _ _ _ _ refl refl)

    tables-accumulated :
        (st : Fanout W) (out : RouteResult W)
        → (accumulated env hooks routing st out).db.tables ≡ out.db.tables
    tables-accumulated st out = tables-if out.threw _ _ _ refl refl

    pub tables-take_message :
        (st : Fanout W) (agent : MessagingGroupAgent) (engages access_ok scope_ok : Bool)
        → (take_message env hooks routing st agent engages access_ok scope_ok).db.tables
          ≡ st.db.tables
    unfolding take_message
    tables-take_message st agent engages access_ok scope_ok =
        tables-if (engages && access_ok && scope_ok) _ _ _
          (tables-engaged st agent (deliver env hooks routing st.db agent true)
            ∙ tables-deliver_to_agent st.db agent routing.mg routing.event routing.user_id _ true)
          (tables-if _ _ _ _
            (tables-accumulated st (deliver env hooks routing st.db agent false)
              ∙ tables-deliver_to_agent st.db agent routing.mg routing.event routing.user_id _
                  false)
            refl)
