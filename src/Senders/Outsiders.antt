-- ===== src/Senders/Outsiders.antt =====
-- The permissions hooks keep a sender without access out of an agent group (`src/router.ts` with
-- `src/modules/permissions/index.ts`).
use lfontes_nanoclaw.Prelude.{
  ◌==◌, Bool-cases, Option-cases, ◌+◌, String, ◌≡◌, refl, ◌∙◌, inl, inr, false,
}
use lfontes_nanoclaw.Router.State.{
  MessagingGroup, InboundEvent, UnregisteredSender, RouterDb, Hooks, Env,
  get_messaging_group_agents,
}
use lfontes_nanoclaw.Router.Fanout.{Fanout, route_agents}
use lfontes_nanoclaw.Router.Inbound.{fan_out, routing_of, finish_fan_out}
use lfontes_nanoclaw.Router.WakeRows.{wake_rows}
use lfontes_nanoclaw.Senders.{Central, SenderEnv}
use lfontes_nanoclaw.Senders.Gates.{sender_of, extract_and_upsert_user, is_public, with_gates}
use lfontes_nanoclaw.Senders.GateRanks.{ranks-extract_and_upsert_user}
use lfontes_nanoclaw.Senders.KeptOut.{is_sender_member, route_agents-KeptOut}

extract_and_upsert_user-sender_of :
    (env : SenderEnv) (db : Central) (event : InboundEvent)
    → (extract_and_upsert_user env db event).1 ≡ sender_of env event
unfolding extract_and_upsert_user
extract_and_upsert_user-sender_of env db event = elim (Option-cases (sender_of env event)) [
  | inl n ↦ rw (extract_and_upsert_user, n) refl
  | inr (u, s) ↦ rw (extract_and_upsert_user, s) refl
]

wake_rows-finish_fan_out :
    {W : Type 0} (env : Env) (hooks : Hooks W) (group : String) (st : Fanout W)
    (row : UnregisteredSender)
    → wake_rows group (finish_fan_out env hooks st row).db.inboxes ≡ wake_rows group st.db.inboxes
wake_rows-finish_fan_out env hooks group st row = elim (Bool-cases st.threw) [
  | inl t ↦ rw t refl
  | inr t ↦ rw t (elim (Bool-cases (st.engaged_count + st.accumulated_count == 0)) [
    | inl n ↦ rw n refl
    | inr n ↦ rw n refl
  ])
]

-- On a chat that is not public, an event whose sender is unknown or no member of an agent group
-- stores nothing that wakes that group, owners and admins counting as members: its messages with
-- trigger = 1 are afterwards what they were before, whichever agents are wired to the chat, and
-- whatever approvals the gate asks for on the way.
pub fan_out-keeps_out :
    (renv : Env) (env : SenderEnv) (hooks : Hooks Central) (db : RouterDb Central)
    (mg : MessagingGroup) (event : InboundEvent) (group : String)
    → is_public mg.unknown_sender_policy ≡ false
    → is_sender_member db.tables.world (sender_of env event) group ≡ false
    → wake_rows group (fan_out renv (with_gates env hooks) db mg event).db.inboxes
      ≡ wake_rows group db.inboxes
unfolding fan_out with_gates
fan_out-keeps_out renv env hooks db mg event group private_group outsider =
    let known = extract_and_upsert_user env db.tables.world event in
    let start = record db { tables = record db.tables { world = known.0 } } in
    let fanout : Fanout Central = record {
      db = start;
      engaged_count = 0;
      accumulated_count = 0;
      subscribed = false;
      threw = false;
    } in
    let agents = get_messaging_group_agents db.messaging_group_agents mg.id in
    let routing = routing_of renv (with_gates env hooks) event mg known.1 in
    wake_rows-finish_fan_out renv (with_gates env hooks) group
      (route_agents renv (with_gates env hooks) routing fanout agents) _
    ∙ (route_agents-KeptOut renv env hooks routing group db.tables.world start private_group
        (rw (extract_and_upsert_user-sender_of env db.tables.world event) outsider) fanout agents
        (refl, ranks-extract_and_upsert_user env db.tables.world event)).0
