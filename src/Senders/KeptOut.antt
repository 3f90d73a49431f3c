-- ===== src/Senders/KeptOut.antt =====
-- The sender gates in the loop of the router: what an event of a sender without access cannot do.
use lfontes_nanoclaw.Prelude.{
  ◌===◌, if◌then◌else◌, ===_iff, ===_refl, Bool-cases, any, String, ◌≡◌, refl, ap, ◌∙◌, inl, inr,
  Bool, true, false, ◌&&◌, not, Option, none, some, List, [], ◌∷◌, arith,
}
use lfontes_nanoclaw.Permissions.{is_member, is_allowed, can_access_agent_group}
use lfontes_nanoclaw.Permissions.Access.{can_access_agent_group-allowed}
use lfontes_nanoclaw.Router.State.{
  MessagingGroupAgent, Tables, RouterDb, Hooks, Env, all_senders, known_senders, SenderScope,
}
use lfontes_nanoclaw.Router.Deliver.{evaluate_engage}
use lfontes_nanoclaw.Router.Fanout.{
  Fanout, Routing, ask_access, ask_scope, with_tables, ask_and_take, route_agent, route_agents,
}
use lfontes_nanoclaw.Router.WakeRows.{wake_rows}
use lfontes_nanoclaw.Router.Refused.{wake_rows-take_message}
use lfontes_nanoclaw.Router.TablesKept.{tables-take_message}
use lfontes_nanoclaw.Senders.{Central, roster, SenderEnv}
use lfontes_nanoclaw.Senders.Gates.{known_in, is_public, access_gate, sender_scope_gate, with_gates}
use lfontes_nanoclaw.Senders.Ranks.{ranks, is_member-ranks}
use lfontes_nanoclaw.Senders.GateRanks.{ranks-access_gate}

-- Whether an event has a sender who is a member of an agent group, admins and owners counting as such.
abbrev pub is_sender_member : Central → Option String → String → Bool
is_sender_member db none group = false
is_sender_member db (some user) group = is_member (roster db) user group

-- Where the loop stands: what wakes the group is what it was, and so are roles and memberships.
abbrev KeptOut : Central → String → RouterDb Central → RouterDb Central → Type 0
KeptOut central group start db =
    (wake_rows group db.inboxes ≡ wake_rows group start.inboxes)
    × (ranks db.tables.world ≡ ranks central)

module _ (renv : Env) (env : SenderEnv) (hooks : Hooks Central) (routing : Routing) (group : String)
    (central : Central) (start : RouterDb Central)
    (private_group : is_public routing.mg.unknown_sender_policy ≡ false)
    (outsider : is_sender_member central routing.user_id group ≡ false) where
  access_gate-refuses :
      (tables : Tables Central) (user : Option String)
      → is_sender_member central user group ≡ false
      → ranks tables.world ≡ ranks central
      → (access_gate env tables routing.event user routing.mg group).1 ≡ false
  unfolding access_gate
  access_gate-refuses tables none o e = rw private_group refl
  access_gate-refuses tables (some user) o e =
      let no_access : is_allowed (can_access_agent_group (roster tables.world) user group) ≡ false =
        (can_access_agent_group-allowed (roster tables.world) user group).0
        ∙ rw (is_member-ranks tables.world central user group e, o) (ground arith) in
      rw (private_group, no_access)
        (elim (Bool-cases (user === "")) [ inl n ↦ rw n refl | inr n ↦ rw n refl ])

  ask_access-refuses :
      (tables : Tables Central) (engages : Bool) (agent : MessagingGroupAgent)
      → ranks tables.world ≡ ranks central
      → (agent.agent_group_id === group
          && (ask_access renv (with_gates env hooks) routing tables engages agent).1)
        ≡ false
  unfolding with_gates
  ask_access-refuses tables false agent e = ground arith
  ask_access-refuses tables true agent e = elim (Bool-cases (agent.agent_group_id === group)) [
    | inl k ↦
        rw ((===_iff agent.agent_group_id group).0 k, ===_refl group)
          (access_gate-refuses tables routing.user_id outsider e)
    | inr k ↦ rw k refl
  ]

  ranks-ask_access :
      (tables : Tables Central) (engages : Bool) (agent : MessagingGroupAgent)
      → ranks (ask_access renv (with_gates env hooks) routing tables engages agent).0.world
        ≡ ranks tables.world
  unfolding with_gates
  ranks-ask_access tables false agent = refl
  ranks-ask_access tables true agent =
      ranks-access_gate env tables routing.event routing.user_id routing.mg agent.agent_group_id

  scope_keeps :
      (s : SenderScope) (tables : Tables Central) (b : Bool)
      → (elim s as (λ _. Tables Central × Bool) [
        | all_senders ↦ (tables, true)
        | known_senders ↦ (tables, b)
      ]).0
        ≡ tables
  scope_keeps all_senders tables b = refl
  scope_keeps known_senders tables b = refl

  tables-ask_scope :
      (tables : Tables Central) (engages : Bool) (agent : MessagingGroupAgent)
      → (ask_scope renv (with_gates env hooks) routing tables engages agent).0 ≡ tables
  unfolding with_gates sender_scope_gate
  tables-ask_scope tables false agent = refl
  tables-ask_scope tables true agent =
      scope_keeps agent.sender_scope tables
        (known_in tables.world routing.user_id agent.agent_group_id)

  ask_and_take-KeptOut :
      (st : Fanout Central) (agent : MessagingGroupAgent) (engages : Bool)
      → KeptOut central group start st.db
      → KeptOut central group start
          (ask_and_take renv (with_gates env hooks) routing st agent engages).db
  unfolding ask_and_take
  ask_and_take-KeptOut st agent engages k =
      let access = ask_access renv (with_gates env hooks) routing st.db.tables engages agent in
      let scope = ask_scope renv (with_gates env hooks) routing access.0 engages agent in
      let asked = with_tables renv (with_gates env hooks) routing st scope.0 in
      (
        wake_rows-take_message renv (with_gates env hooks) routing group asked agent engages
              access.1 scope.1 (ask_access-refuses st.db.tables engages agent k.1)
            ∙ k.0,
        ap (λ (t : Tables Central). ranks t.world)
              (tables-take_message renv (with_gates env hooks) routing asked agent engages access.1
                  scope.1
                ∙ tables-ask_scope access.0 engages agent)
            ∙ ranks-ask_access st.db.tables engages agent
            ∙ k.1,
      )

  KeptOut-if :
      (b : Bool) (x y : Fanout Central)
      → KeptOut central group start x.db
      → KeptOut central group start y.db
      → KeptOut central group start (if b then x else y).db
  KeptOut-if true x y h k = h
  KeptOut-if false x y h k = k

  route_agent-KeptOut :
      (st : Fanout Central) (agent : MessagingGroupAgent)
      → KeptOut central group start st.db
      → KeptOut central group start (route_agent renv (with_gates env hooks) routing st agent).db
  unfolding route_agent
  route_agent-KeptOut st agent k =
      KeptOut-if (not (any (λ g. g === agent.agent_group_id) st.db.agent_groups)) st
        (ask_and_take renv (with_gates env hooks) routing st agent (
          evaluate_engage renv.regex_test st.db.sessions agent routing.text routing.is_mention
            routing.mg routing.event.thread_id))
        k (ask_and_take-KeptOut st agent _ k)

  stop_or_go :
      (b : Bool) (x y : Fanout Central)
      → KeptOut central group start x.db
      → KeptOut central group start y.db
      → KeptOut central group start (elim b as (λ _. Fanout Central) [ true ↦ x | false ↦ y ]).db
  stop_or_go true x y h k = h
  stop_or_go false x y h k = k

  pub route_agents-KeptOut :
      (st : Fanout Central) (agents : List MessagingGroupAgent)
      → KeptOut central group start st.db
      → KeptOut central group start (route_agents renv (with_gates env hooks) routing st agents).db
  unfolding route_agents
  route_agents-KeptOut st [] k = k
  route_agents-KeptOut st (agent ∷ agents) k =
      let st' = route_agent renv (with_gates env hooks) routing st agent in
      let k' = route_agent-KeptOut st agent k in
      stop_or_go st'.threw st' (route_agents renv (with_gates env hooks) routing st' agents) k'
        (route_agents-KeptOut st' agents k')
