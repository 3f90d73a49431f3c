-- ===== src/Delivery/Message.antt =====
-- The delivery of one message (`deliverMessage` and `handleSystemAction` of `src/delivery.ts`,
-- `createPendingQuestion` of `src/db/sessions.ts`, `getMessagingGroupByPlatform` of
-- `src/db/messaging-groups.ts`).
use lfontes_nanoclaw.Prelude.{
  ◌===◌, if◌then◌else◌, opt_eq, or_else, any, first, ℕ, String, Bool, true, false, ◌&&◌, ◌||◌, not,
  Option, none, some, List, [], ◌∷◌, ◌++◌,
}
use lfontes_nanoclaw.SessionDb.{MessageOut}
use lfontes_nanoclaw.Sessions.{Session, is_truthy}
use lfontes_nanoclaw.Router.State.{MessagingGroup, RouterDb}
use lfontes_nanoclaw.AgentToAgent.Destinations.{channel, AgentDestination, has_destination}
use lfontes_nanoclaw.AgentToAgent.Route.{route_agent_message}
use lfontes_nanoclaw.Delivery.State.{
  RawOption, normalize_options, PendingQuestion, OutContent, Sent, Shared, DeliveryDb, Delivery,
  DeliveryEnv,
}

unfoldable pub get_messaging_group_by_platform :
    List MessagingGroup → String → String → Option MessagingGroup
get_messaging_group_by_platform groups channel_type platform_id =
    first (λ (g : MessagingGroup). g.channel_type === channel_type && g.platform_id === platform_id)
      groups

-- INSERT OR IGNORE; a session that is not there breaks the foreign key, which is not ignored.
unfoldable pub create_pending_question :
    List Session → List PendingQuestion → PendingQuestion → Option (List PendingQuestion)
create_pending_question sessions rows q =
    if any (λ (r : PendingQuestion). r.question_id === q.question_id) rows
    then some rows
    else if any (λ (s : Session). s.id === q.session_id) sessions
    then some (rows ++ q ∷ [])
    else none

abbrev pub allows_channel : Option (List AgentDestination) → String → String → Bool
allows_channel none group target = true
allows_channel (some ds) group target = has_destination ds group channel target

abbrev pub question_of :
    Session
    → MessageOut
    → ℕ
    → String
    → Option String
    → Option (List RawOption)
    → Option PendingQuestion
question_of session msg now question_id (some title) (some options) =
    if title === ""
    then none
    else some (record {
      question_id = question_id;
      session_id = session.id;
      message_out_id = msg.id;
      platform_id = msg.platform_id;
      channel_type = msg.channel_type;
      thread_id = msg.thread_id;
      title = title;
      options = normalize_options options;
      created_at = now;
    })
question_of session msg now question_id _ _ = none

abbrev pub sent_to : Session → MessageOut → String → String → Sent
sent_to session msg channel_type platform_id = record {
  agent_group_id = session.agent_group_id;
  session_id = session.id;
  message_id = msg.id;
  channel_type = channel_type;
  platform_id = platform_id;
  thread_id = msg.thread_id;
  content = msg.content;
}

abbrev pub is_for_agent : MessageOut → Bool
is_for_agent msg = opt_eq msg.channel_type (some "agent")

module _ {W : Type 0} where
  -- Whether a session may send to a channel, on what the central database has.
  unfoldable pub may_send : Shared W → Session → String → String → Bool
  unfolding get_messaging_group_by_platform has_destination
  may_send shared session channel_type platform_id =
      elim (get_messaging_group_by_platform shared.host.messaging_groups channel_type platform_id) [
        | none ↦ false
        | some mg ↦
            opt_eq session.messaging_group_id (some mg.id)
            || allows_channel shared.destinations session.agent_group_id mg.id
      ]

  abbrev pub threw_at : DeliveryDb W → Delivery W
  threw_at db = record { db = db; outcome = none }

  abbrev pub done_at : DeliveryDb W → Delivery W
  done_at db = record { db = db; outcome = some none }

  abbrev pub with_shared : DeliveryDb W → Shared W → DeliveryDb W
  with_shared db shared = record db { shared = shared }

  abbrev pub with_host : DeliveryDb W → RouterDb W → DeliveryDb W
  with_host db host = with_shared db (record db.shared { host = host })

  unfoldable pub handle_system_action :
      DeliveryEnv W → DeliveryDb W → Session → OutContent → Delivery W
  handle_system_action env db session content = elim (env.action_handler content.action) [
    | none ↦ done_at db
    | some handler ↦
        let handled = handler db.shared session content in
        if handled.1
        then threw_at (with_shared db handled.0)
        else done_at (with_shared db handled.0)
  ]

  -- A message to an agent; without the module's table the routing is refused.
  unfoldable pub deliver_to_peer : DeliveryEnv W → DeliveryDb W → Session → MessageOut → Delivery W
  unfolding route_agent_message
  deliver_to_peer env db session msg = elim db.shared.destinations [
    | none ↦ threw_at db
    | some destinations ↦
        let routed =
          route_agent_message env.env (env.agent_env msg) destinations db.shared.host msg session in
        if routed.threw then threw_at (with_host db routed.db) else done_at (with_host db routed.db)
  ]

  abbrev pub save_question : Shared W → Option PendingQuestion → Option (Shared W)
  save_question shared none = some shared
  save_question shared (some q) = elim shared.pending_questions [
    | none ↦ some shared
    | some rows ↦ elim (create_pending_question shared.host.sessions rows q) [
      | none ↦ none
      | some rows' ↦ some (record shared { pending_questions = some rows' })
    ]
  ]

  -- Keeps the question of a card that asks one, where the card is complete; `none` where that throws.
  unfoldable pub track_question :
      ℕ → Shared W → Session → MessageOut → OutContent → Option (Shared W)
  unfolding create_pending_question normalize_options
  track_question now shared session msg content = elim content.question_id [
    | none ↦ some shared
    | some question_id ↦
        if content.type === "ask_question" && not (question_id === "")
        then save_question shared
            (question_of session msg now question_id content.title content.options)
        else some shared
  ]

  abbrev pub with_world : DeliveryDb W → W → DeliveryDb W
  with_world db world =
      with_host db
        (record db.shared.host { tables = record db.shared.host.tables { world = world } })

  -- The call of the adapter, which is made whether it throws or not.
  unfoldable pub send :
      (W → MessageOut → W × Option (Option String))
      → DeliveryDb W
      → Session
      → MessageOut
      → String
      → String
      → Delivery W
  send adapter db session msg channel_type platform_id =
      let answer = adapter db.shared.host.tables.world msg in
      let db' = record (with_world db answer.0) {
        sent = db.sent ++ sent_to session msg channel_type platform_id ∷ [];
      } in
      elim answer.1 [
        | none ↦ threw_at db'
        | some platform_message_id ↦ record { db = db'; outcome = some platform_message_id }
      ]

  -- A message with an address: the permission, the question, the adapter.
  unfoldable pub deliver_addressed :
      (W → MessageOut → W × Option (Option String))
      → ℕ
      → DeliveryDb W
      → Session
      → MessageOut
      → OutContent
      → String
      → String
      → Delivery W
  unfolding may_send track_question send
  deliver_addressed adapter now db session msg content channel_type platform_id =
      if may_send db.shared session channel_type platform_id
      then elim (track_question now db.shared session msg content) [
        | none ↦ threw_at db
        | some shared ↦ send adapter (with_shared db shared) session msg channel_type platform_id
      ]
      else threw_at db

  -- Without an address nothing is asked of the destinations, and nothing is sent.
  unfoldable pub deliver_to_channel :
      (W → MessageOut → W × Option (Option String))
      → ℕ
      → DeliveryDb W
      → Session
      → MessageOut
      → OutContent
      → Delivery W
  unfolding deliver_addressed track_question
  deliver_to_channel adapter now db session msg content =
      if is_truthy msg.channel_type && is_truthy msg.platform_id
      then deliver_addressed adapter now db session msg content (or_else msg.channel_type "")
          (or_else msg.platform_id "")
      else elim (track_question now db.shared session msg content) [
        | none ↦ threw_at db
        | some shared ↦ done_at (with_shared db shared)
      ]

  unfoldable pub deliver_message : DeliveryEnv W → DeliveryDb W → Session → MessageOut → Delivery W
  unfolding handle_system_action deliver_to_peer deliver_to_channel
  deliver_message env db session msg = elim env.adapter [
    | none ↦ done_at db
    | some adapter ↦ elim (env.parse msg.content) [
      | none ↦ threw_at db
      | some content ↦
          if msg.kind === "system"
          then handle_system_action env db session content
          else if is_for_agent msg
          then deliver_to_peer env db session msg
          else deliver_to_channel adapter env.env.now db session msg content
    ]
  ]
