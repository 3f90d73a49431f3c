-- ===== src/Router/Refused.antt =====
-- The access gate against the loop of the router: what a refused sender cannot do.
use lfontes_nanoclaw.Prelude.{
  ◌===◌, if◌then◌else◌, ===_iff, ===_refl, Bool-cases, any, String, ◌≡◌, refl, ◌∙◌, inl, inr, Bool,
  true, false, ◌&&◌, not, Option, some, List, [], ◌∷◌, arith,
}
use lfontes_nanoclaw.SessionDb.{MessageIn}
use lfontes_nanoclaw.Router.State.{
  MessagingGroup, MessagingGroupAgent, InboundEvent, Tables, Hooks, Env,
}
use lfontes_nanoclaw.Router.Deliver.{RouteResult, evaluate_engage}
use lfontes_nanoclaw.Router.Fanout.{
  Fanout, Routing, ask_access, ask_scope, deliver, subscribe_sticky, take_message, with_tables,
  ask_and_take, accumulates, engaged, accumulated, route_agent, route_agents,
}
use lfontes_nanoclaw.Router.WakeRows.{wake_rows, wake_rows-deliver_to_agent}

module _ {W : Type 0} (env : Env) (hooks : Hooks W) (routing : Routing) (group : String) where
  wake_rows-if :
      (b : Bool) (x y : Fanout W) (rows : List MessageIn)
      → wake_rows group x.db.inboxes ≡ rows
      → wake_rows group y.db.inboxes ≡ rows
      → wake_rows group (if b then x else y).db.inboxes ≡ rows
  wake_rows-if true x y rows h k = h
  wake_rows-if false x y rows h k = k

  wake_rows-engaged :
      (st : Fanout W) (agent : MessagingGroupAgent) (out : RouteResult W)
      → wake_rows group (engaged env hooks routing st agent out).db.inboxes
        ≡ wake_rows group out.db.inboxes
  unfolding subscribe_sticky
  wake_rows-engaged st agent out =
      wake_rows-if out.threw _ _ _ refl (wake_rows-if _ _ _ _ refl refl)

  wake_rows-accumulated :
      (st : Fanout W) (out : RouteResult W)
      → wake_rows group (accumulated env hooks routing st out).db.inboxes
        ≡ wake_rows group out.db.inboxes
  wake_rows-accumulated st out = elim (Bool-cases out.threw) [
    | inl t ↦ rw t refl
    | inr t ↦ rw t refl
  ]

  wake_rows-ignored :
      (st : Fanout W) (agent : MessagingGroupAgent) (b : Bool)
      → wake_rows group
          (if accumulates agent.ignored_message_policy && b
            then accumulated env hooks routing st (deliver env hooks routing st.db agent false)
            else st).db.inboxes
        ≡ wake_rows group st.db.inboxes
  wake_rows-ignored st agent b =
      wake_rows-if _ _ _ _
        (wake_rows-accumulated st (deliver env hooks routing st.db agent false)
          ∙ wake_rows-deliver_to_agent env group st.db agent routing.mg routing.event
              routing.user_id _ false (ground arith))
        refl

  pub wake_rows-take_message :
      (st : Fanout W) (agent : MessagingGroupAgent) (engages access_ok scope_ok : Bool)
      → (agent.agent_group_id === group && access_ok) ≡ false
      → wake_rows group
          (take_message env hooks routing st agent engages access_ok scope_ok).db.inboxes
        ≡ wake_rows group st.db.inboxes
  unfolding take_message
  wake_rows-take_message st agent true true true h =
      wake_rows-engaged st agent (deliver env hooks routing st.db agent true)
      ∙ wake_rows-deliver_to_agent env group st.db agent routing.mg routing.event routing.user_id _
          true h
  wake_rows-take_message st agent false access_ok scope_ok h = wake_rows-ignored st agent _
  wake_rows-take_message st agent true false scope_ok h = wake_rows-ignored st agent _
  wake_rows-take_message st agent true true false h = wake_rows-ignored st agent _

  module _
      (gate : Tables W → InboundEvent → Option String → MessagingGroup → String → Tables W × Bool)
      (g : hooks.access_gate ≡ some gate)
      (refused : (tables : Tables W)
        → (gate tables routing.event routing.user_id routing.mg group).1 ≡ false) where
    ask_access-refused :
        (tables : Tables W) (engages : Bool) (agent : MessagingGroupAgent)
        → (agent.agent_group_id === group && (ask_access env hooks routing tables engages agent).1)
          ≡ false
    ask_access-refused tables false agent = ground arith
    ask_access-refused tables true agent = elim (Bool-cases (agent.agent_group_id === group)) [
      | inl k ↦ rw (g, (===_iff agent.agent_group_id group).0 k, ===_refl group) (refused tables)
      | inr k ↦ rw k refl
    ]

    wake_rows-ask_and_take :
        (st : Fanout W) (agent : MessagingGroupAgent) (engages : Bool)
        → wake_rows group (ask_and_take env hooks routing st agent engages).db.inboxes
          ≡ wake_rows group st.db.inboxes
    unfolding ask_and_take
    wake_rows-ask_and_take st agent engages =
        let access = ask_access env hooks routing st.db.tables engages agent in
        let scope = ask_scope env hooks routing access.0 engages agent in
        wake_rows-take_message (with_tables env hooks routing st scope.0) agent engages access.1
          scope.1 (ask_access-refused st.db.tables engages agent)

    pub wake_rows-route_agent :
        (st : Fanout W) (agent : MessagingGroupAgent)
        → wake_rows group (route_agent env hooks routing st agent).db.inboxes
          ≡ wake_rows group st.db.inboxes
    unfolding route_agent
    wake_rows-route_agent st agent =
        wake_rows-if (not (any (λ h. h === agent.agent_group_id) st.db.agent_groups)) st
          (ask_and_take env hooks routing st agent (
            evaluate_engage env.regex_test st.db.sessions agent routing.text routing.is_mention
              routing.mg routing.event.thread_id))
          _ refl (wake_rows-ask_and_take st agent _)

-- If the access gate refuses the sender for an agent group, whatever it finds in the tables, the
-- loop over the wired agents stores nothing that wakes that group: its messages with trigger = 1 are
-- after the loop what they were before, whoever else engages and wherever the loop ends.
pub route_agents-refused :
    {W : Type 0} (env : Env) (hooks : Hooks W) (routing : Routing) (group : String)
    (gate : Tables W → InboundEvent → Option String → MessagingGroup → String → Tables W × Bool)
    (st : Fanout W) (agents : List MessagingGroupAgent)
    → hooks.access_gate ≡ some gate
    → ((tables : Tables W) → (gate tables routing.event routing.user_id routing.mg group).1 ≡ false)
    → wake_rows group (route_agents env hooks routing st agents).db.inboxes
      ≡ wake_rows group st.db.inboxes
unfolding route_agents
route_agents-refused env hooks routing group gate st [] g refused = refl
route_agents-refused env hooks routing group gate st (agent ∷ agents) g refused =
    elim (Bool-cases (route_agent env hooks routing st agent).threw) [
      | inl t ↦
          rw (route_agents, t)
            (wake_rows-route_agent env hooks routing group gate g refused st agent)
      | inr t ↦
          rw (route_agents, t)
            (route_agents-refused env hooks routing group gate
                (route_agent env hooks routing st agent) agents g refused
              ∙ wake_rows-route_agent env hooks routing group gate g refused st agent)
    ]
