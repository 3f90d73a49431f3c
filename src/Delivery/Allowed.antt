-- ===== src/Delivery/Allowed.antt =====
-- What the channel adapter is given (`deliverMessage`, `src/delivery.ts`).
use lfontes_nanoclaw.Prelude.{In, ◌≡◌, ◌⊎◌, none, some, List, [], ◌∷◌, ◌++◌}
use lfontes_nanoclaw.SessionDb.{MessageOut}
use lfontes_nanoclaw.Sessions.{Session}
use lfontes_nanoclaw.Router.State.{MessagingGroup}
use lfontes_nanoclaw.AgentToAgent.Destinations.{channel, AgentDestination}
use lfontes_nanoclaw.Delivery.State.{DeliveryDb, DeliveryEnv, Sent}

module _ {W : Type 0} (env : DeliveryEnv W) (db : DeliveryDb W) (session : Session)
    (msg : MessageOut) where
  -- The messaging group is the origin chat of the session, or a channel destination of its agent
  -- group; where the table of destinations is missing, any group will do.
  abbrev pub IsReachable : MessagingGroup → Type 0
  IsReachable mg =
      (session.messaging_group_id ≡ some mg.id)
      ⊎ (db.shared.destinations ≡ none)
      ⊎ ((ds : List AgentDestination) × (d : AgentDestination) × (db.shared.destinations ≡ some ds)
          × In d ds
          × (d.agent_group_id ≡ session.agent_group_id)
          × (d.target_type ≡ channel)
          × (d.target_id ≡ mg.id))

  -- Either the adapter was not called, or it was once, with the message and its address, which is
  -- that of a messaging group in reach.
  abbrev pub Allowed : List Sent → Type 0
  Allowed sent =
      (sent ≡ db.sent)
      ⊎ ((mg : MessagingGroup) × In mg db.shared.host.messaging_groups
          × (msg.channel_type ≡ some mg.channel_type)
          × (msg.platform_id ≡ some mg.platform_id)
          × IsReachable mg
          × (sent
              ≡ db.sent
                ++ record {
                  agent_group_id = session.agent_group_id;
                  session_id = session.id;
                  message_id = msg.id;
                  channel_type = mg.channel_type;
                  platform_id = mg.platform_id;
                  thread_id = msg.thread_id;
                  content = msg.content;
                }
                  ∷ []))
