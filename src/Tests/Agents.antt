-- ===== src/Tests/Agents.antt =====
-- A message between two agents and its answer, at concrete ids.
use lfontes_nanoclaw.Prelude.{
  select, first, update, order_by, ℕ, String, ◌≡◌, refl, true, none, some, List, [], ◌∷◌,
}
use lfontes_nanoclaw.SessionDb.{
  MessageOut, InDb, insert_message, add_row, get_most_recent_peer_source_session_id,
}
use lfontes_nanoclaw.Sessions.{
  Session, active, stopped, is_session_of, get_session, resolve_session, existing_session,
  find_session_by_agent_group,
}
use lfontes_nanoclaw.Router.State.{RouterDb}
use lfontes_nanoclaw.Router.WakeRows.{wake_rows}
use lfontes_nanoclaw.AgentToAgent.Destinations.{agent, AgentDestination}
use lfontes_nanoclaw.AgentToAgent.Files.{AgentEnv}
use lfontes_nanoclaw.AgentToAgent.Route.{
  Target, may_route, route_agent_message, resolve_target_session,
}
use lfontes_nanoclaw.AgentToAgent.ReturnPath.{HasRow, route_agent_message-returns}
use lfontes_nanoclaw.AgentToAgent.Reach.{route_agent_message-reaches}
use lfontes_nanoclaw.Tests.Data.{out}
use lfontes_nanoclaw.Tests.Router.{env, tables}

abbrev pub session : String → String → Session
session id group = record {
  id = id;
  agent_group_id = group;
  messaging_group_id = some "mg-1";
  thread_id = none;
  agent_provider = none;
  status = active;
  container_status = stopped;
  last_active = none;
  created_at = 1;
}

abbrev empty : InDb
empty = record { messages_in = []; delivered = [] }

-- Two sessions of the asking group; the newer one is not the one that asks.
abbrev pub agents : RouterDb ℕ
agents = record tables {
  agent_groups = "ag-1" ∷ "ag-2" ∷ "ag-3" ∷ [];
  sessions =
      session "s-1" "ag-1"
      ∷ record (session "s-2" "ag-1") { created_at = 5 }
      ∷ session "s-3" "ag-2"
      ∷ [];
  inboxes =
      record { agent_group_id = "ag-1"; session_id = "s-1"; in_db = empty }
      ∷ record { agent_group_id = "ag-1"; session_id = "s-2"; in_db = empty }
      ∷ record { agent_group_id = "ag-2"; session_id = "s-3"; in_db = empty }
      ∷ [];
}

abbrev pub agent_env : AgentEnv
agent_env = record {
  message_id = "a2a-1";
  session_id = "sess-9";
  now = 1000;
  files_of = λ c. none;
  add_attachments = λ c a. c;
  outbox = λ g s m. none;
  basename = λ f. f;
}

abbrev pub destinations : List AgentDestination
destinations =
    record {
      agent_group_id = "ag-1";
      local_name = "peer";
      target_type = agent;
      target_id = "ag-2";
      created_at = 1;
    }
    ∷ []

abbrev ask : MessageOut
ask = record (out "o-1" 3) { channel_type = some "agent"; platform_id = some "ag-2" }

abbrev answer : MessageOut
answer = record (out "o-2" 5) {
  channel_type = some "agent";
  platform_id = some "ag-1";
  in_reply_to = some "a2a-1";
}

route_agent_message-returns_example :
    (t : Target ℕ) × (resolve_target_session agent_env agents ask (session "s-1" "ag-1") "ag-2"
      ≡ some t)
    × (is_session_of "ag-2" t.session ≡ true)
    × HasRow
        (route_agent_message env agent_env destinations agents ask
          (session "s-1" "ag-1")).db.inboxes
        t.session
        "a2a-1"
        (session "s-1" "ag-1")
    × (resolve_target_session agent_env
          (route_agent_message env agent_env destinations agents ask (session "s-1" "ag-1")).db
          answer
          t.session
          "ag-1"
        ≡ some (record {
          db =
              (route_agent_message env agent_env destinations agents ask (session "s-1" "ag-1")).db;
          session = session "s-1" "ag-1";
        }))
unfolding route_agent_message get_session get_most_recent_peer_source_session_id first order_by
    select resolve_session existing_session find_session_by_agent_group insert_message add_row
    update
route_agent_message-returns_example =
    route_agent_message-returns env agent_env agent_env destinations agents ask answer
      (session "s-1" "ag-1") (session "s-1" "ag-1") "ag-2" refl refl refl refl refl refl refl

route_agent_message-reaches_example :
    wake_rows "ag-3"
      (route_agent_message env agent_env destinations agents
        (record ask { platform_id = some "ag-3" })
        (session "s-1" "ag-1")).db.inboxes
    ≡ wake_rows "ag-3" agents.inboxes
unfolding may_route
route_agent_message-reaches_example =
    route_agent_message-reaches env agent_env destinations agents
      (record ask { platform_id = some "ag-3" }) (session "s-1" "ag-1") "ag-3" refl
