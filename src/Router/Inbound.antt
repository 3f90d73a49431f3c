-- ===== src/Router/Inbound.antt =====
-- `routeInbound` around its loop: the interceptor, the messaging group, and the drop records
-- (`src/router.ts`).
use lfontes_nanoclaw.Prelude.{
  ◌==◌, if◌then◌else◌, is_some, or_else, ◌+◌, String, Bool, true, false, not, Option, none, some,
  [], ◌∷◌, ◌++◌,
}
use lfontes_nanoclaw.Router.State.{
  MessagingGroup, InboundEvent, UnregisteredSender, request_channel, Tables, RouterDb, Adapter,
  Hooks, Env, record_dropped_message, create_messaging_group, get_messaging_group_agents,
  get_messaging_group_with_agent_count, request_approval,
}
use lfontes_nanoclaw.Router.Deliver.{message_text, RouteResult}
use lfontes_nanoclaw.Router.Fanout.{Fanout, Routing, route_agents}

unfoldable pub collapse_threads : Option Adapter → InboundEvent → InboundEvent
collapse_threads none event = event
collapse_threads (some a) event =
    if a.supports_threads then event else record event { thread_id = none }

abbrev drop_record :
    Env → InboundEvent → MessagingGroup → Option String → String → UnregisteredSender
drop_record env event mg user_id reason = record {
  channel_type = event.channel_type;
  platform_id = event.platform_id;
  user_id = user_id;
  sender_name = env.sender_name event.content;
  reason = reason;
  messaging_group_id = some mg.id;
  agent_group_id = none;
  message_count = 1;
  first_seen = env.now;
  last_seen = env.now;
}

abbrev new_messaging_group : Env → InboundEvent → MessagingGroup
new_messaging_group env event = record {
  id = env.messaging_group_id;
  channel_type = event.channel_type;
  platform_id = event.platform_id;
  name = none;
  is_group = or_else event.is_group false;
  unknown_sender_policy = request_approval;
  denied_at = none;
  created_at = env.now;
}

module _ {W : Type 0} (env : Env) (hooks : Hooks W) where
  abbrev drop_message : RouterDb W → UnregisteredSender → RouterDb W
  drop_message db row = record db {
    tables = record db.tables {
      unregistered_senders = record_dropped_message db.tables.unregistered_senders row;
    };
  }

  -- 1b. A mention where no agent is wired.
  unfoldable pub route_unwired : RouterDb W → MessagingGroup → InboundEvent → RouterDb W
  unfolding record_dropped_message
  route_unwired db mg event =
      if is_some mg.denied_at
      then db
      else let dropped = drop_message db (drop_record env event mg none "no_agent_wired") in
        if hooks.has_channel_request_gate
        then record dropped { effects = dropped.effects ++ request_channel mg.id ∷ [] }
        else dropped

  abbrev pub resolve_sender : Tables W → InboundEvent → Tables W × Option String
  resolve_sender tables event = elim hooks.sender_resolver [
    | none ↦ (tables, none)
    | some resolve ↦ resolve tables event
  ]

  -- The drop record after the loop, where nobody took the message.
  abbrev pub finish_fan_out : Fanout W → UnregisteredSender → RouteResult W
  finish_fan_out st row =
      if st.threw
      then record { db = st.db; threw = true }
      else if st.engaged_count + st.accumulated_count == 0
      then record { db = drop_message st.db row; threw = false }
      else record { db = st.db; threw = false }

  abbrev pub routing_of : InboundEvent → MessagingGroup → Option String → Routing
  routing_of event mg user_id = record {
    event = event;
    user_id = user_id;
    mg = mg;
    text = message_text (env.parse event.content);
    is_mention = or_else event.is_mention false;
    adapter = env.get_channel_adapter event.channel_type;
  }

  unfoldable pub fan_out : RouterDb W → MessagingGroup → InboundEvent → RouteResult W
  unfolding route_agents get_messaging_group_agents record_dropped_message
  fan_out db mg event =
      let (tables, user_id) = resolve_sender db.tables event in
      let start : Fanout W = record {
        db = record db { tables = tables };
        engaged_count = 0;
        accumulated_count = 0;
        subscribed = false;
        threw = false;
      } in
      finish_fan_out
        (route_agents env hooks (routing_of event mg user_id) start
          (get_messaging_group_agents db.messaging_group_agents mg.id))
        (drop_record env event mg user_id "no_agent_engaged")

  abbrev done : RouterDb W → RouteResult W
  done db = record { db = db; threw = false }

  unfoldable pub route_to_group : RouterDb W → InboundEvent → RouteResult W
  unfolding get_messaging_group_with_agent_count create_messaging_group route_unwired fan_out
  route_to_group db event =
      let is_mention = or_else event.is_mention false in
      elim (get_messaging_group_with_agent_count db.messaging_groups db.messaging_group_agents
        event.channel_type event.platform_id) [
          | none ↦
              let mg = new_messaging_group env event in
              if not is_mention
              then done db
              else elim (create_messaging_group db.messaging_groups mg) [
                | none ↦ record { db = db; threw = true }
                | some groups ↦
                    done (route_unwired (record db { messaging_groups = groups }) mg event)
              ]
          | some (mg, agent_count) ↦
              if agent_count == 0
              then if is_mention then done (route_unwired db mg event) else done db
              else fan_out db mg event
        ]

  abbrev intercept : Tables W → InboundEvent → Tables W × Bool
  intercept tables event = elim hooks.message_interceptor [
    | none ↦ (tables, false)
    | some f ↦ f tables event
  ]

  unfoldable pub route_inbound : RouterDb W → InboundEvent → RouteResult W
  unfolding collapse_threads route_to_group
  route_inbound db event =
      let (tables, consumed) = intercept db.tables event in
      let db' = record db { tables = tables } in
      if consumed
      then done db'
      else route_to_group db' (collapse_threads (env.get_channel_adapter event.channel_type) event)
