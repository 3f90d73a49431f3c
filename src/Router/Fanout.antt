-- ===== src/Router/Fanout.antt =====
-- The loop of `routeInbound` over the agents that are wired to a messaging group (`src/router.ts`).
use lfontes_nanoclaw.Prelude.{
  ◌===◌, if◌then◌else◌, is_some, any, ℕ, ◌+◌, String, Bool, true, false, ◌&&◌, ◌||◌, not, Option,
  none, some, List, [], ◌∷◌, ◌++◌,
}
use lfontes_nanoclaw.Text.{Text}
use lfontes_nanoclaw.Router.State.{
  IgnoredMessagePolicy, drop, accumulate, MessagingGroup, MessagingGroupAgent, InboundEvent,
  subscribe, Tables, RouterDb, Adapter, Hooks, Env,
}
use lfontes_nanoclaw.Router.Deliver.{is_sticky, evaluate_engage, RouteResult, deliver_to_agent}

-- Where the loop over the wired agents stands.
pub record Fanout (W : Type 0) : Type 0 where
  pub db : RouterDb W
  pub engaged_count : ℕ
  pub accumulated_count : ℕ
  pub subscribed : Bool
  pub threw : Bool

-- What the loop has at hand for every agent.
pub record Routing : Type 0 where
  pub event : InboundEvent
  pub user_id : Option String
  pub mg : MessagingGroup
  pub text : Text
  pub is_mention : Bool
  pub adapter : Option Adapter

abbrev supports_threads : Option Adapter → Bool
supports_threads none = false
supports_threads (some a) = a.supports_threads

abbrev can_subscribe : Option Adapter → Bool
can_subscribe none = false
can_subscribe (some a) = a.supports_threads && a.has_subscribe

abbrev pub accumulates : IgnoredMessagePolicy → Bool
accumulates accumulate = true
accumulates drop = false

module _ {W : Type 0} (env : Env) (hooks : Hooks W) (routing : Routing) where
  abbrev pub ask_access : Tables W → Bool → MessagingGroupAgent → Tables W × Bool
  ask_access tables false agent = (tables, false)
  ask_access tables true agent = elim hooks.access_gate [
    | none ↦ (tables, true)
    | some gate ↦ gate tables routing.event routing.user_id routing.mg agent.agent_group_id
  ]

  abbrev pub ask_scope : Tables W → Bool → MessagingGroupAgent → Tables W × Bool
  ask_scope tables false agent = (tables, false)
  ask_scope tables true agent = elim hooks.sender_scope_gate [
    | none ↦ (tables, true)
    | some gate ↦ gate tables routing.event routing.user_id routing.mg agent
  ]

  abbrev pub deliver : RouterDb W → MessagingGroupAgent → Bool → RouteResult W
  deliver db agent wake =
      deliver_to_agent env db agent routing.mg routing.event routing.user_id
        (supports_threads routing.adapter) wake

  -- After an agent that engaged: one subscription for a sticky wiring on a threaded group.
  unfoldable pub subscribe_sticky : Fanout W → MessagingGroupAgent → Fanout W
  subscribe_sticky st agent =
      if not st.subscribed
        && is_sticky agent.engage_mode
        && can_subscribe routing.adapter
        && is_some routing.event.thread_id
        && routing.mg.is_group
      then record st {
        subscribed = true;
        db = record st.db {
          effects =
              st.db.effects ++ subscribe routing.event.platform_id routing.event.thread_id ∷ [];
        };
      }
      else st

  abbrev pub engaged : Fanout W → MessagingGroupAgent → RouteResult W → Fanout W
  engaged st agent out =
      if out.threw
      then record st { db = out.db; threw = true }
      else subscribe_sticky (record st { db = out.db; engaged_count = st.engaged_count + 1 }) agent

  abbrev pub accumulated : Fanout W → RouteResult W → Fanout W
  accumulated st out =
      if out.threw
      then record st { db = out.db; threw = true }
      else record st { db = out.db; accumulated_count = st.accumulated_count + 1 }

  unfoldable pub take_message : Fanout W → MessagingGroupAgent → Bool → Bool → Bool → Fanout W
  unfolding deliver_to_agent subscribe_sticky
  take_message st agent engages access_ok scope_ok =
      if engages && access_ok && scope_ok
      then engaged st agent (deliver st.db agent true)
      else if accumulates agent.ignored_message_policy
          && not (engages && (not access_ok || not scope_ok))
      then accumulated st (deliver st.db agent false)
      else st

  abbrev pub with_tables : Fanout W → Tables W → Fanout W
  with_tables st tables = record st { db = record st.db { tables = tables } }

  -- Both gates are asked where the agent engages, the second one whatever the first one says.
  unfoldable pub ask_and_take : Fanout W → MessagingGroupAgent → Bool → Fanout W
  unfolding take_message
  ask_and_take st agent engages =
      let access = ask_access st.db.tables engages agent in
      let scope = ask_scope access.0 engages agent in
      take_message (with_tables st scope.0) agent engages access.1 scope.1

  unfoldable pub route_agent : Fanout W → MessagingGroupAgent → Fanout W
  unfolding evaluate_engage ask_and_take
  route_agent st agent =
      if not (any (λ g. g === agent.agent_group_id) st.db.agent_groups)
      then st
      else ask_and_take st agent (
          evaluate_engage env.regex_test st.db.sessions agent routing.text routing.is_mention
            routing.mg routing.event.thread_id)

  unfoldable pub route_agents : Fanout W → List MessagingGroupAgent → Fanout W
  unfolding route_agent
  route_agents st [] = st
  route_agents st (agent ∷ agents) =
      let st' = route_agent st agent in
      elim st'.threw [ true ↦ st' | false ↦ route_agents st' agents ]
