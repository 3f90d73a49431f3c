-- ===== src/Delivery/Kept.antt =====
-- The delivery of a message changes neither the attempts nor the outboxes, and forgets no row of
-- `delivered`, if the handlers of system actions forget none.
use lfontes_nanoclaw.Prelude.{
  ◌===◌, Bool-cases, Option-cases, ℕ, String, ◌≡◌, refl, inl, inr, Bool, ◌&&◌, not, Option, none,
  some, List, arith,
}
use lfontes_nanoclaw.SessionDb.{Delivered, MessageOut}
use lfontes_nanoclaw.Sessions.{Session, is_truthy}
use lfontes_nanoclaw.AgentToAgent.Route.{route_agent_message}
use lfontes_nanoclaw.Delivery.State.{PendingQuestion, OutContent, Shared, DeliveryDb, DeliveryEnv}
use lfontes_nanoclaw.Delivery.Message.{
  with_shared, handle_system_action, deliver_to_peer, track_question, save_question, send,
  deliver_addressed, deliver_to_channel, deliver_message, may_send, is_for_agent,
}
use lfontes_nanoclaw.Delivery.Keeps.{ready, ready-route_agent_message}

save_question-host :
    {W : Type 0} (shared shared' : Shared W) (q : Option PendingQuestion)
    → save_question shared q ≡ some shared'
    → shared'.host ≡ shared.host
save_question-host shared shared' none e = ground arith
save_question-host shared shared' (some q) e = ground arith

pub track_question-host :
    {W : Type 0} (now : ℕ) (shared shared' : Shared W) (session : Session) (msg : MessageOut)
    (content : OutContent)
    → track_question now shared session msg content ≡ some shared'
    → shared'.host ≡ shared.host
unfolding track_question
track_question-host now shared shared' session msg content e =
    elim (Option-cases content.question_id) [
      | inl n ↦ ground arith
      | inr (q, k) ↦ elim (Bool-cases (content.type === "ask_question" && not (q === ""))) [
        | inl b ↦ save_question-host shared shared' _ (rw (track_question, k, b) at e)
        | inr b ↦ ground arith
      ]
    ]

module _ {W : Type 0} (env : DeliveryEnv W) (g s : String)
    (handlers : (action : String) (handler : Shared W → Session → OutContent → Shared W × Bool)
        (shared : Shared W) (session : Session) (content : OutContent) (ds : List Delivered)
      → env.action_handler action ≡ some handler
      → ready g s shared.host ≡ some ds
      → ready g s (handler shared session content).0.host ≡ some ds) where
  abbrev pub Kept : List Delivered → DeliveryDb W → DeliveryDb W → Type 0
  Kept ds db db' =
      (db'.delivery_attempts ≡ db.delivery_attempts)
      × (db'.outboxes ≡ db.outboxes)
      × (ready g s db'.shared.host ≡ some ds)

  module _ (ds : List Delivered) (db : DeliveryDb W) (session : Session)
      (h : ready g s db.shared.host ≡ some ds) where
    handle_system_action-Kept :
        (content : OutContent) → Kept ds db (handle_system_action env db session content).db
    unfolding handle_system_action
    handle_system_action-Kept content = elim (Option-cases (env.action_handler content.action)) [
      | inl n ↦ rw (handle_system_action, n) (refl, refl, h)
      | inr (f, k) ↦
          let r = handlers content.action f db.shared session content ds k h in
          elim (Bool-cases (f db.shared session content).1) [
            | inl b ↦ rw (handle_system_action, k, b) (refl, refl, r)
            | inr b ↦ rw (handle_system_action, k, b) (refl, refl, r)
          ]
    ]

    deliver_to_peer-Kept : (msg : MessageOut) → Kept ds db (deliver_to_peer env db session msg).db
    unfolding deliver_to_peer
    deliver_to_peer-Kept msg = elim (Option-cases db.shared.destinations) [
      | inl n ↦ rw (deliver_to_peer, n) (refl, refl, h)
      | inr (d, k) ↦
          let r =
            ready-route_agent_message g s env.env (env.agent_env msg) d db.shared.host msg session
              ds h in
          elim (Bool-cases
            (route_agent_message env.env (env.agent_env msg) d db.shared.host msg session).threw) [
              | inl b ↦ rw (deliver_to_peer, k, b) (refl, refl, r)
              | inr b ↦ rw (deliver_to_peer, k, b) (refl, refl, r)
            ]
    ]

    module _ (adapter : W → MessageOut → W × Option (Option String)) (msg : MessageOut) where
      send-Kept :
          (shared : Shared W) (channel_type platform_id : String)
          → shared.host ≡ db.shared.host
          → Kept ds db
              (send adapter (with_shared db shared) session msg channel_type platform_id).db
      unfolding send ready
      send-Kept shared channel_type platform_id e =
          let r : ready g s shared.host ≡ some ds = rw e h in
          elim (Option-cases (adapter shared.host.tables.world msg).1) [
            | inl n ↦ rw (send, n) (refl, refl, r)
            | inr (p, k) ↦ rw (send, k) (refl, refl, r)
          ]

      track_question-Kept :
          (now : ℕ) (content : OutContent) (shared : Shared W)
          → track_question now db.shared session msg content ≡ some shared
          → Kept ds db (with_shared db shared)
      track_question-Kept now content shared e =
          (refl, refl, rw (track_question-host now db.shared shared session msg content e) h)

      deliver_addressed-Kept :
          (now : ℕ) (content : OutContent) (channel_type platform_id : String)
          → Kept ds db
              (deliver_addressed adapter now db session msg content channel_type platform_id).db
      unfolding deliver_addressed
      deliver_addressed-Kept now content channel_type platform_id =
          elim (Bool-cases (may_send db.shared session channel_type platform_id)) [
            | inr b ↦ rw (deliver_addressed, b) (refl, refl, h)
            | inl b ↦ elim (Option-cases (track_question now db.shared session msg content)) [
              | inl n ↦ rw (deliver_addressed, b, n) (refl, refl, h)
              | inr (shared, k) ↦
                  rw (deliver_addressed, b, k)
                    (send-Kept shared channel_type platform_id
                      (track_question-host now db.shared shared session msg content k))
            ]
          ]

      deliver_to_channel-Kept :
          (now : ℕ) (content : OutContent)
          → Kept ds db (deliver_to_channel adapter now db session msg content).db
      unfolding deliver_to_channel
      deliver_to_channel-Kept now content =
          elim (Bool-cases (is_truthy msg.channel_type && is_truthy msg.platform_id)) [
            | inl b ↦ rw (deliver_to_channel, b) (deliver_addressed-Kept now content _ _)
            | inr b ↦ elim (Option-cases (track_question now db.shared session msg content)) [
              | inl n ↦ rw (deliver_to_channel, b, n) (refl, refl, h)
              | inr (shared, k) ↦
                  rw (deliver_to_channel, b, k) (track_question-Kept now content shared k)
            ]
          ]

    pub deliver_message-Kept :
        (msg : MessageOut) → Kept ds db (deliver_message env db session msg).db
    unfolding deliver_message
    deliver_message-Kept msg = elim (Option-cases env.adapter) [
      | inl n ↦ rw (deliver_message, n) (refl, refl, h)
      | inr (adapter, a) ↦ elim (Option-cases (env.parse msg.content)) [
        | inl n ↦ rw (deliver_message, a, n) (refl, refl, h)
        | inr (content, p) ↦ elim (Bool-cases (msg.kind === "system")) [
          | inl b ↦ rw (deliver_message, a, p, b) (handle_system_action-Kept content)
          | inr b ↦ elim (Bool-cases (is_for_agent msg)) [
            | inl c ↦ rw (deliver_message, a, p, b, c) (deliver_to_peer-Kept msg)
            | inr c ↦
                rw (deliver_message, a, p, b, c)
                  (deliver_to_channel-Kept adapter msg env.env.now content)
          ]
        ]
      ]
    ]
