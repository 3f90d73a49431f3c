-- ===== src/Router/Deliver.antt =====
-- Whether an agent engages, and the delivery of an event to the session of one agent
-- (`evaluateEngage` and `deliverToAgent` of `src/router.ts`, `writeSessionMessage` of
-- `src/session-manager.ts`).
use lfontes_nanoclaw.Prelude.{
  ◌===◌, if◌then◌else◌, is_some, or_else, update, String, Bool, true, false, ◌&&◌, not, Option,
  none, some, List, [], ◌∷◌, ◌++◌,
}
use Prim.Native.String
use lfontes_nanoclaw.Text.{Text, Content, json, plain}
use lfontes_nanoclaw.SessionDb.{InDb, NewMessage, insert_message}
use lfontes_nanoclaw.CommandGate.{GateResult, pass, filter, deny, gate_command}
use lfontes_nanoclaw.Container.Commands.{is_chat}
use lfontes_nanoclaw.Sessions.{
  SessionMode, per_thread, agent_shared, Session, resolve_session, find_session_for_agent,
  get_session,
}
use lfontes_nanoclaw.Router.State.{
  EngageMode, pattern, mention, mention_sticky, other_mode, MessagingGroup, MessagingGroupAgent,
  DeliveryAddress, InboundEvent, Inbox, Effect, start_typing, stop_typing, wake_container, RouterDb,
  Env,
}

-- `parsed.text ?? ''`
abbrev pub message_text : Content → Text
message_text (json none) = []
message_text (json (some t)) = t
message_text (plain t) = t

abbrev pub is_sticky : EngageMode → Bool
is_sticky mention_sticky = true
is_sticky _ = false

unfoldable pub evaluate_engage :
    (String → Text → Option Bool)
    → List Session
    → MessagingGroupAgent
    → Text
    → Bool
    → MessagingGroup
    → Option String
    → Bool
evaluate_engage regex_test sessions agent text is_mention mg thread_id = elim agent.engage_mode [
  | pattern ↦
      let pat = or_else agent.engage_pattern "." in
      if pat === "." then true else or_else (regex_test pat text) true
  | mention ↦ is_mention
  | mention_sticky ↦
      if is_mention
      then true
      else if not mg.is_group
      then false
      else is_some (find_session_for_agent sessions agent.agent_group_id mg.id thread_id)
  | other_mode ↦ false
]

abbrev is_not_agent_shared : SessionMode → Bool
is_not_agent_shared agent_shared = false
is_not_agent_shared _ = true

unfoldable pub effective_session_mode : MessagingGroupAgent → MessagingGroup → Bool → SessionMode
effective_session_mode agent mg adapter_supports_threads =
    if adapter_supports_threads && is_not_agent_shared agent.session_mode && mg.is_group
    then per_thread
    else agent.session_mode

abbrev delivery_address : InboundEvent → DeliveryAddress
delivery_address event = or_else event.reply_to (record {
  channel_type = event.channel_type;
  platform_id = event.platform_id;
  thread_id = event.thread_id;
})

unfoldable pub message_id_for_agent : String → String → String → String
message_id_for_agent generated base_id agent_group_id =
    let id = if base_id === "" then generated else base_id in
    String.◌++◌ (String.◌++◌ id ":") agent_group_id

abbrev pub is_inbox : String → String → Inbox → Bool
is_inbox agent_group_id session_id b =
    b.agent_group_id === agent_group_id && b.session_id === session_id

abbrev pub put_inbox : Inbox → List Inbox → Option InDb → Option (List Inbox)
put_inbox b inboxes none = none
put_inbox b inboxes (some in_db) = some (record b { in_db = in_db } ∷ inboxes)

abbrev pub keep_inbox : Inbox → Option (List Inbox) → Option (List Inbox)
keep_inbox b none = none
keep_inbox b (some inboxes) = some (b ∷ inboxes)

-- `writeSessionMessage` after the attachments: the INSERT into the file of the session, which may
-- throw.
unfoldable pub write_inbox : List Inbox → String → String → NewMessage → Option (List Inbox)
write_inbox [] agent_group_id session_id message = none
write_inbox (b ∷ inboxes) agent_group_id session_id message =
    let rest = write_inbox inboxes agent_group_id session_id message in
    if is_inbox agent_group_id session_id b
    then put_inbox b inboxes (insert_message b.in_db message)
    else keep_inbox b rest

-- `initSessionFolder`: empty tables for a session that was created.
abbrev pub with_folder : Bool → String → String → List Inbox → List Inbox
with_folder false group session inboxes = inboxes
with_folder true group session inboxes =
    inboxes
    ++ record {
      agent_group_id = group;
      session_id = session;
      in_db = record { messages_in = []; delivered = [] };
    }
      ∷ []

-- What has become of a call: the tables, and whether it threw.
pub record RouteResult (W : Type 0) : Type 0 where
  pub db : RouterDb W
  pub threw : Bool

pub data OpenMode : Type 0 where
  read_only read_write : OpenMode

-- The mode of `openOutboundDb`; SQLite refuses an INSERT through a read-only connection.
abbrev outbound_mode : OpenMode
outbound_mode = read_only

abbrev can_insert : OpenMode → Bool
can_insert read_only = false
can_insert read_write = true

abbrev pub routed_message : Env → MessagingGroupAgent → InboundEvent → Bool → NewMessage
routed_message env agent event wake =
    let addr = delivery_address event in
    record {
      id = message_id_for_agent (env.message_id agent) event.message_id agent.agent_group_id;
      kind = event.kind;
      timestamp = event.timestamp;
      platform_id = some addr.platform_id;
      channel_type = some addr.channel_type;
      thread_id = addr.thread_id;
      content = event.content;
      process_after = none;
      recurrence = none;
      trigger = some wake;
      source_session_id = none;
      on_wake = none;
    }

abbrev pub woken : Env → Option Session → List Effect
woken env none = []
woken env (some s) = wake_container s.id ∷ (if env.wakes s then [] else stop_typing s.id ∷ [])

module _ {W : Type 0} (env : Env) where
  -- outbound.db is no part of the tables here.
  unfoldable pub write_outbound_direct : RouterDb W → RouteResult W
  write_outbound_direct db = record { db = db; threw = not (can_insert outbound_mode) }

  unfoldable pub write_session_message : RouterDb W → Session → NewMessage → Option (RouterDb W)
  unfolding write_inbox
  write_session_message db session message =
      let content =
        env.extract_attachment_files session.agent_group_id session.id message.id message.content in
      elim (write_inbox db.inboxes session.agent_group_id session.id
        (record message { content = content })) [
          | none ↦ none
          | some inboxes ↦ some (record db {
            inboxes = inboxes;
            sessions =
                update (λ (s : Session). s.id === session.id)
                  (λ (s : Session). record s { last_active = some env.now }) db.sessions;
          })
        ]

  unfoldable pub wake_session : RouterDb W → Session → RouterDb W
  wake_session db session = record db {
    effects =
        db.effects ++ start_typing session.id ∷ woken env (get_session db.sessions session.id);
  }

  abbrev pub gate_of : RouterDb W → MessagingGroupAgent → InboundEvent → Option String → GateResult
  gate_of db agent event user_id =
      if is_chat event.kind
      then gate_command db.user_roles (env.parse event.content) user_id agent.agent_group_id
      else pass

  unfoldable pub store_routed :
      RouterDb W → MessagingGroupAgent → InboundEvent → Session → Bool → RouteResult W
  unfolding write_session_message wake_session
  store_routed db agent event session wake =
      elim (write_session_message db session (routed_message env agent event wake)) [
        | none ↦ record { db = db; threw = true }
        | some db' ↦ record { db = if wake then wake_session db' session else db'; threw = false }
      ]

  unfoldable pub after_gate :
      RouterDb W → MessagingGroupAgent → InboundEvent → Session → Bool → GateResult → RouteResult W
  unfolding write_outbound_direct store_routed
  after_gate db agent event session wake filter = record { db = db; threw = false }
  after_gate db agent event session wake (deny command) = write_outbound_direct db
  after_gate db agent event session wake pass = store_routed db agent event session wake

  unfoldable pub deliver_to_agent :
      RouterDb W
      → MessagingGroupAgent
      → MessagingGroup
      → InboundEvent
      → Option String
      → Bool
      → Bool
      → RouteResult W
  unfolding after_gate
  deliver_to_agent db agent mg event user_id adapter_supports_threads wake =
      elim (resolve_session db.sessions agent.agent_group_id (some mg.id) event.thread_id
        (effective_session_mode agent mg adapter_supports_threads) (env.session_id agent) env.now) [
          | none ↦ record { db = db; threw = true }
          | some r ↦
              let db' = record db {
                sessions = r.sessions;
                inboxes = with_folder r.created agent.agent_group_id r.session.id db.inboxes;
              } in
              after_gate db' agent event r.session wake (gate_of db agent event user_id)
        ]
