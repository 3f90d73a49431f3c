-- ===== src/Tests/Router.antt =====
-- The router's loop at a concrete event that the access gate refuses.
use lfontes_nanoclaw.Prelude.{
  ℕ, ◌+◌, String, ◌≡◌, refl, Bool, true, false, Option, none, some, [], ◌∷◌,
}
use lfontes_nanoclaw.Text.{codes, json}
use lfontes_nanoclaw.Sessions.{shared}
use lfontes_nanoclaw.Router.State.{
  mention, all_senders, accumulate, strict, MessagingGroup, MessagingGroupAgent, InboundEvent,
  Tables, RouterDb, Hooks, Env,
}
use lfontes_nanoclaw.Router.Fanout.{Fanout, Routing, route_agents}
use lfontes_nanoclaw.Router.WakeRows.{wake_rows}
use lfontes_nanoclaw.Router.Refused.{route_agents-refused}

abbrev pub env : Env
env = record {
  get_channel_adapter = λ c. none;
  regex_test = λ r t. some false;
  parse = λ c. json (some (codes "hello"));
  sender_name = λ c. none;
  extract_attachment_files = λ g s m c. c;
  messaging_group_id = "mg-9";
  session_id = λ a. "sess-9";
  message_id = λ a. "msg-9";
  now = 1000;
  wakes = λ s. true;
}

abbrev refuse : Tables ℕ → InboundEvent → Option String → MessagingGroup → String → Tables ℕ × Bool
refuse tables event user mg group = (record tables { world = tables.world + 1 }, false)

abbrev hooks : Hooks ℕ
hooks = record {
  message_interceptor = none;
  sender_resolver = none;
  access_gate = some refuse;
  sender_scope_gate = none;
  has_channel_request_gate = false;
}

abbrev pub group_chat : MessagingGroup
group_chat = record {
  id = "mg-1";
  channel_type = "slack";
  platform_id = "C1";
  name = none;
  is_group = true;
  unknown_sender_policy = strict;
  denied_at = none;
  created_at = 1;
}

abbrev pub hello : InboundEvent
hello = record {
  channel_type = "slack";
  platform_id = "C1";
  thread_id = none;
  message_id = "m-1";
  kind = "chat";
  content = "{}";
  timestamp = 999;
  is_mention = some true;
  is_group = some true;
  reply_to = none;
}

abbrev pub wiring : MessagingGroupAgent
wiring = record {
  id = "w-1";
  messaging_group_id = "mg-1";
  agent_group_id = "ag-1";
  engage_mode = mention;
  engage_pattern = none;
  sender_scope = all_senders;
  ignored_message_policy = accumulate;
  session_mode = shared;
  priority = 0;
  created_at = 1;
}

abbrev pub tables : RouterDb ℕ
tables = record {
  messaging_groups = group_chat ∷ [];
  messaging_group_agents = wiring ∷ [];
  agent_groups = "ag-1" ∷ [];
  user_roles = none;
  sessions = [];
  inboxes = [];
  tables = record { unregistered_senders = []; world = 0 };
  effects = [];
}

abbrev start : Fanout ℕ
start = record {
  db = tables;
  engaged_count = 0;
  accumulated_count = 0;
  subscribed = false;
  threw = false;
}

abbrev routing : Routing
routing = record {
  event = hello;
  user_id = some "slack:eve";
  mg = group_chat;
  text = codes "hello";
  is_mention = true;
  adapter = none;
}

route_agents-refused_example :
    wake_rows "ag-1" (route_agents env hooks routing start (wiring ∷ [])).db.inboxes
    ≡ wake_rows "ag-1" start.db.inboxes
route_agents-refused_example =
    route_agents-refused env hooks routing "ag-1" refuse start (wiring ∷ []) refl (λ t. refl)
