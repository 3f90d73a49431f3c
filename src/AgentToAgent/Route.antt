-- ===== src/AgentToAgent/Route.antt =====
-- `routeAgentMessage`: the permission, the session that gets the message, and the writing of it
-- (`src/modules/agent-to-agent/agent-route.ts`).
use lfontes_nanoclaw.Prelude.{
  ◌===◌, if◌then◌else◌, any, String, Bool, true, false, ◌&&◌, ◌||◌, not, Option, none, some, List,
  [], ◌∷◌, ◌++◌,
}
use lfontes_nanoclaw.SessionDb.{
  InDb, MessageOut, NewMessage, get_inbound_source_session_id,
  get_most_recent_peer_source_session_id,
}
use lfontes_nanoclaw.Sessions.{
  agent_shared, Session, is_active, is_truthy, get_session, Resolved, resolve_session,
}
use lfontes_nanoclaw.Router.State.{Inbox, Effect, wake_container, copy_file, RouterDb, Env}
use lfontes_nanoclaw.Router.Deliver.{RouteResult, is_inbox, with_folder, write_session_message}
use lfontes_nanoclaw.AgentToAgent.Destinations.{agent, AgentDestination, has_destination}
use lfontes_nanoclaw.AgentToAgent.Files.{AgentEnv, ForwardedAttachment, forward_file_attachments}

unfoldable pub in_db_of : List Inbox → String → String → Option InDb
in_db_of [] agent_group_id session_id = none
in_db_of (b ∷ inboxes) agent_group_id session_id =
    if is_inbox agent_group_id session_id b
    then some b.in_db
    else in_db_of inboxes agent_group_id session_id

abbrev pub direct_origin : InDb → Option String → Option String
direct_origin src_db none = none
direct_origin src_db (some id) = if id === "" then none else get_inbound_source_session_id src_db id

-- The session that the two lookups of `resolveTargetSession` in the source's inbound.db name.
unfoldable pub origin_session_id : InDb → MessageOut → String → Option String
origin_session_id src_db msg target =
    let direct = direct_origin src_db msg.in_reply_to in
    if is_truthy direct then direct else get_most_recent_peer_source_session_id src_db target

-- The session of that id, where it is an active one of the target.
unfoldable pub candidate : List Session → Option String → String → Option Session
candidate sessions none target = none
candidate sessions (some id) target = elim (if id === "" then none else get_session sessions id) [
  | none ↦ none
  | some s ↦ if s.agent_group_id === target && is_active s.status then some s else none
]

abbrev pub agent_message : AgentEnv → Session → String → NewMessage
agent_message env source content = record {
  id = env.message_id;
  kind = "chat";
  timestamp = env.now;
  platform_id = some source.agent_group_id;
  channel_type = some "agent";
  thread_id = none;
  content = content;
  process_after = none;
  recurrence = none;
  trigger = none;
  source_session_id = some source.id;
  on_wake = none;
}

abbrev pub copies : String → String → List ForwardedAttachment → List Effect
copies session_id message_id [] = []
copies session_id message_id (a ∷ rest) =
    copy_file session_id message_id a.filename ∷ copies session_id message_id rest

abbrev pub wakes : Option Session → List Effect
wakes none = []
wakes (some s) = wake_container s.id ∷ []

pub record Target (W : Type 0) : Type 0 where
  pub db : RouterDb W
  pub session : Session

module _ {W : Type 0} where
  abbrev pub resolved : RouterDb W → String → Option Resolved → Option (Target W)
  resolved db target none = none
  resolved db target (some r) = some (record {
    db = record db {
      sessions = r.sessions;
      inboxes = with_folder r.created target r.session.id db.inboxes;
    };
    session = r.session;
  })

  -- `none` where a query or an INSERT throws.
  unfoldable pub resolve_target_session :
      AgentEnv → RouterDb W → MessageOut → Session → String → Option (Target W)
  unfolding in_db_of origin_session_id candidate
  resolve_target_session env db msg source target =
      elim (in_db_of db.inboxes source.agent_group_id source.id) [
        | none ↦ none
        | some src_db ↦ elim (candidate db.sessions (origin_session_id src_db msg target) target) [
          | some s ↦ some (record { db = db; session = s })
          | none ↦
              resolved db target
                (resolve_session db.sessions target none none agent_shared env.session_id env.now)
        ]
      ]

  abbrev pub threw : RouterDb W → RouteResult W
  threw db = record { db = db; threw = true }

  abbrev pub woken_target : RouterDb W → Session → RouterDb W
  woken_target db session = record db {
    effects = db.effects ++ wakes (get_session db.sessions session.id);
  }

  unfoldable pub store_at_target :
      Env → AgentEnv → Target W → Session → String → List ForwardedAttachment → RouteResult W
  unfolding write_session_message
  store_at_target env agent_env target source content attachments =
      let db = record target.db {
        effects = target.db.effects ++ copies target.session.id agent_env.message_id attachments;
      } in
      elim (write_session_message env db target.session (agent_message agent_env source content)) [
        | none ↦ threw db
        | some db' ↦ record { db = woken_target db' target.session; threw = false }
      ]

  unfoldable pub write_to_target : Env → AgentEnv → Target W → MessageOut → Session → RouteResult W
  unfolding forward_file_attachments store_at_target
  write_to_target env agent_env target msg source =
      let forwarded = forward_file_attachments agent_env msg source in
      store_at_target env agent_env target source forwarded.0 forwarded.1

  -- The guards of `routeAgentMessage` before it touches anything.
  unfoldable pub may_route : RouterDb W → List AgentDestination → String → String → Bool
  unfolding has_destination
  may_route db destinations source target =
      (target === source || has_destination destinations source agent target)
      && any (λ g. g === target) db.agent_groups

  unfoldable pub route_agent_message :
      Env → AgentEnv → List AgentDestination → RouterDb W → MessageOut → Session → RouteResult W
  unfolding may_route resolve_target_session write_to_target
  route_agent_message env agent_env destinations db msg source = elim msg.platform_id [
    | none ↦ threw db
    | some target ↦
        if target === "" || not (may_route db destinations source.agent_group_id target)
        then threw db
        else elim (resolve_target_session agent_env db msg source target) [
          | none ↦ threw db
          | some t ↦ write_to_target env agent_env t msg source
        ]
  ]
