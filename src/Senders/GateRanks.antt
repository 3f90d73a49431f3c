-- ===== src/Senders/GateRanks.antt =====
-- What the two gates of the permissions module leave alone: roles and memberships.
use lfontes_nanoclaw.Prelude.{
  ◌===◌, if◌then◌else◌, Option-cases, is_some, String, ◌≡◌, refl, inl, inr, Bool, true, false,
  Option, none, some, List,
}
use lfontes_nanoclaw.Permissions.{is_allowed, can_access_agent_group}
use lfontes_nanoclaw.Router.State.{
  record_dropped_message, UnknownSenderPolicy, UnregisteredSender, strict, request_approval,
  public_senders, MessagingGroup, InboundEvent, Tables,
}
use lfontes_nanoclaw.Senders.{Central, roster, SenderEnv, get_user}
use lfontes_nanoclaw.Senders.Gates.{
  refuse_sender, is_public, request_if_known, request_for, unknown_sender_record, sender_of,
  extract_and_upsert_user, handle_unknown_sender, access_gate, check_access,
}
use lfontes_nanoclaw.Senders.Ranks.{
  ranks, ranks-if, ranks-upsert_user, ranks-request_sender_approval,
}

ranks-policy :
    (p : UnknownSenderPolicy) (tables : Tables Central) (rows : List UnregisteredSender)
    (db : Central)
    → ranks db ≡ ranks tables.world
    → ranks
        (elim p as (λ _. Tables Central) [
          | strict ↦ record tables { unregistered_senders = rows }
          | request_approval ↦ record { unregistered_senders = rows; world = db }
          | public_senders ↦ tables
        ]).world
      ≡ ranks tables.world
ranks-policy strict tables rows db h = refl
ranks-policy request_approval tables rows db h = h
ranks-policy public_senders tables rows db h = refl

module _ (env : SenderEnv) where
  ranks-request_if_known :
      (db : Central) (mg : MessagingGroup) (u : Option String) (group : String)
      (event : InboundEvent)
      → ranks (request_if_known env db mg u group event) ≡ ranks db
  ranks-request_if_known db mg none group event = refl
  ranks-request_if_known db mg (some u) group event =
      ranks-if (u === "") db _ _ refl
        (ranks-request_sender_approval env db (request_for env mg u group event))

  ranks-handle_unknown_sender :
      (tables : Tables Central) (mg : MessagingGroup) (u : Option String) (group : String)
      (event : InboundEvent)
      → ranks (handle_unknown_sender env tables mg u group event).world ≡ ranks tables.world
  unfolding handle_unknown_sender
  ranks-handle_unknown_sender tables mg u group event =
      ranks-policy mg.unknown_sender_policy tables
        (record_dropped_message tables.unregistered_senders
          (unknown_sender_record env mg u group event))
        (request_if_known env tables.world mg u group event)
        (ranks-request_if_known tables.world mg u group event)

  ranks-either :
      (b c : Bool) (tables x : Tables Central) (z : Tables Central × Bool)
      → ranks x.world ≡ ranks tables.world
      → ranks z.0.world ≡ ranks tables.world
      → ranks (if b then (x, c) else z).0.world ≡ ranks tables.world
  ranks-either true c tables x z h k = h
  ranks-either false c tables x z h k = k

  ranks-check_access :
      (tables : Tables Central) (event : InboundEvent) (u : Option String) (mg : MessagingGroup)
      (group : String)
      → ranks (check_access env tables event u mg group).0.world ≡ ranks tables.world
  ranks-check_access tables event none mg group =
      ranks-handle_unknown_sender tables mg none group event
  ranks-check_access tables event (some u) mg group =
      let allowed = is_allowed (can_access_agent_group (roster tables.world) u group) in
      let no_user = refuse_sender env tables event none mg group in
      let no_access = refuse_sender env tables event (some u) mg group in
      ranks-either (u === "") false tables no_user.0 (if allowed then (tables, true) else no_access)
        (ranks-handle_unknown_sender tables mg none group event)
        (ranks-either allowed true tables tables no_access refl
          (ranks-handle_unknown_sender tables mg (some u) group event))

  pub ranks-access_gate :
      (tables : Tables Central) (event : InboundEvent) (u : Option String) (mg : MessagingGroup)
      (group : String)
      → ranks (access_gate env tables event u mg group).0.world ≡ ranks tables.world
  unfolding access_gate
  ranks-access_gate tables event u mg group =
      ranks-either (is_public mg.unknown_sender_policy) true tables tables
        (check_access env tables event u mg group) refl (ranks-check_access tables event u mg group)

  pub ranks-extract_and_upsert_user :
      (db : Central) (event : InboundEvent)
      → ranks (extract_and_upsert_user env db event).0 ≡ ranks db
  unfolding extract_and_upsert_user
  ranks-extract_and_upsert_user db event = elim (Option-cases (sender_of env event)) [
    | inl n ↦ rw (extract_and_upsert_user, n) refl
    | inr (u, s) ↦
        rw (extract_and_upsert_user, s)
          (ranks-if (is_some (get_user db u)) db _ _ refl (ranks-upsert_user db _))
  ]
