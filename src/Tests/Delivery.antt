-- ===== src/Tests/Delivery.antt =====
-- A message that the channel adapter cannot send, and its three drains.
use lfontes_nanoclaw.Prelude.{
  first, map, select, order_by, some_injective, ℕ, ◌+◌, String, ◌≡◌, refl, inl, Bool, true, false,
  none, some, List, [], ◌∷◌,
}
use lfontes_nanoclaw.SessionDb.{
  Outcome, MessageOut, InDb, OutDb, Delivered, get_due_outbound_messages, has_delivered,
}
use lfontes_nanoclaw.Sessions.{Session}
use lfontes_nanoclaw.AgentToAgent.Route.{in_db_of}
use lfontes_nanoclaw.Delivery.State.{OutContent, Shared, DeliveryDb, DeliveryEnv, Sent}
use lfontes_nanoclaw.Delivery.Message.{deliver_message}
use lfontes_nanoclaw.Delivery.Drain.{drain_session, out_db_of}
use lfontes_nanoclaw.Delivery.Keeps.{ready}
use lfontes_nanoclaw.Delivery.Allowed.{Allowed}
use lfontes_nanoclaw.Delivery.Idle.{drain_session-idle}
use lfontes_nanoclaw.Delivery.Rounds.{drain_session-settles}
use lfontes_nanoclaw.Tests.Data.{out}
use lfontes_nanoclaw.Tests.Router.{env}
use lfontes_nanoclaw.Tests.Agents.{agents, agent_env, destinations, session}

-- The adapter throws on each call, and the one handler of system actions counts its calls.
abbrev count_call : Shared ℕ → Session → OutContent → Shared ℕ × Bool
count_call shared caller content = (
  record shared {
    host = record shared.host {
      tables = record shared.host.tables { world = shared.host.tables.world + 1 };
    };
  },
  false,
)

abbrev failing : DeliveryEnv ℕ
failing = record {
  env = env;
  agent_env = λ m. agent_env;
  adapter = some (λ w m. (w + 1, none));
  action_handler = λ a. some count_call;
  parse = λ c.
      some (record { action = ""; type = ""; question_id = none; title = none; options = none });
}

abbrev hello : MessageOut
hello = record (out "o-1" 3) { channel_type = some "slack"; platform_id = some "C1" }

abbrev outbound : OutDb
outbound = record { messages_out = hello ∷ []; processing_ack = []; container_state = none }

abbrev db : DeliveryDb ℕ
db = record {
  shared = record { host = agents; destinations = some destinations; pending_questions = none };
  outboxes = record { agent_group_id = "ag-1"; session_id = "s-1"; out_db = outbound } ∷ [];
  delivery_attempts = [];
  inflight_deliveries = [];
  sent = [];
}

count_call-ready :
    (action : String) (handler : Shared ℕ → Session → OutContent → Shared ℕ × Bool)
    (shared : Shared ℕ) (caller : Session) (content : OutContent) (ds : List Delivered)
    → some count_call ≡ some handler
    → ready "ag-1" "s-1" shared.host ≡ some ds
    → ready "ag-1" "s-1" (handler shared caller content).0.host ≡ some ds
unfolding ready
count_call-ready action handler shared caller content ds e h =
    rw (← some_injective count_call handler e) h

drain_session-settles_example :
    (d : InDb) × (in_db_of
        (drain_session failing
          (drain_session failing
            (drain_session failing db (session "s-1" "ag-1"))
            (session "s-1" "ag-1"))
          (session "s-1" "ag-1")).shared.host.inboxes
        "ag-1"
        "s-1"
      ≡ some d)
    × (has_delivered d "o-1" ≡ true)
unfolding in_db_of out_db_of get_due_outbound_messages order_by select
drain_session-settles_example =
    drain_session-settles failing (session "s-1" "ag-1") db _ outbound hello count_call-ready refl
      refl refl (inl refl)

-- An adapter that takes the message.
abbrev working : DeliveryEnv ℕ
working = record failing { adapter = some (λ w m. (w + 1, some (some "p-1"))) }

adapter_is_called :
    map
      (λ (s : Sent). s.message_id)
      (deliver_message working db (session "s-1" "ag-1") hello).db.sent
    ≡ "o-1" ∷ []
unfolding deliver_message first
adapter_is_called = refl

-- The same session after the message was delivered.
abbrev settled_in : InDb
settled_in = record {
  messages_in = [];
  delivered =
      record {
        message_out_id = "o-1";
        platform_message_id = none;
        status = Outcome.delivered;
        delivered_at = 0;
      }
      ∷ [];
}

abbrev settled_db : DeliveryDb ℕ
settled_db = record db {
  shared = record {
    host = record agents {
      inboxes = record { agent_group_id = "ag-1"; session_id = "s-1"; in_db = settled_in } ∷ [];
    };
    destinations = none;
    pending_questions = none;
  };
}

drain_session-idle_example : drain_session failing settled_db (session "s-1" "ag-1") ≡ settled_db
unfolding in_db_of out_db_of get_due_outbound_messages order_by select has_delivered
drain_session-idle_example =
    drain_session-idle failing settled_db (session "s-1" "ag-1") settled_in outbound refl refl
      (refl, tt)
