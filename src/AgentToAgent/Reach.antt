-- ===== src/AgentToAgent/Reach.antt =====
-- The destinations against the routing between agents: whom a message cannot reach.
use lfontes_nanoclaw.Prelude.{
  ◌===◌, ===_iff, Bool-cases, Option-cases, &&-true, some≢none, true≢false, String, ◌≡◌, refl, sym,
  ap, ◌∙◌, inl, inr, true, false, ◌||◌, not, none, some, List, ◌++◌, arith,
}
use lfontes_nanoclaw.SessionDb.{MessageOut}
use lfontes_nanoclaw.Sessions.{agent_shared, Session, is_session_of, resolve_session}
use lfontes_nanoclaw.Router.State.{RouterDb, Env}
use lfontes_nanoclaw.Router.Deliver.{with_folder, write_session_message}
use lfontes_nanoclaw.Router.WakeRows.{
  wake_rows, wake_rows-write_session_message, wake_rows-with_folder,
}
use lfontes_nanoclaw.AgentToAgent.Destinations.{AgentDestination}
use lfontes_nanoclaw.AgentToAgent.Files.{AgentEnv, ForwardedAttachment, forward_file_attachments}
use lfontes_nanoclaw.AgentToAgent.Route.{
  in_db_of, origin_session_id, candidate, agent_message, copies, store_at_target, Target,
  resolve_target_session, write_to_target, may_route, route_agent_message,
}
use lfontes_nanoclaw.AgentToAgent.ReturnPath.{resolve_target_session-IsFor}

module _ {W : Type 0} (group : String) where
  wake_rows-store_at_target :
      (env : Env) (agent_env : AgentEnv) (t : Target W) (source : Session) (content : String)
      (attachments : List ForwardedAttachment)
      → (t.session.agent_group_id === group) ≡ false
      → wake_rows group (store_at_target env agent_env t source content attachments).db.inboxes
        ≡ wake_rows group t.db.inboxes
  unfolding store_at_target
  wake_rows-store_at_target env agent_env t source content attachments h =
      let db = record t.db {
        effects = t.db.effects ++ copies t.session.id agent_env.message_id attachments;
      } in
      let m = agent_message agent_env source content in
      elim (Option-cases (write_session_message env db t.session m)) [
        | inl n ↦ rw (store_at_target, n) refl
        | inr (db', k) ↦
            rw (store_at_target, k)
              (wake_rows-write_session_message env group db db' t.session m k (rw h refl))
      ]

  wake_rows-resolve_target_session :
      (env : AgentEnv) (db : RouterDb W) (msg : MessageOut) (source : Session) (target : String)
      (t : Target W)
      → resolve_target_session env db msg source target ≡ some t
      → wake_rows group t.db.inboxes ≡ wake_rows group db.inboxes
  unfolding resolve_target_session
  wake_rows-resolve_target_session env db msg source target t e =
      elim (Option-cases (in_db_of db.inboxes source.agent_group_id source.id)) [
        | inl n ↦ absurd (some≢none (sym e ∙ rw (resolve_target_session, n) refl))
        | inr (d, k) ↦
            elim (Option-cases (candidate db.sessions (origin_session_id d msg target) target)) [
              | inr (s, c) ↦ let q : t.db.inboxes ≡ db.inboxes = ground arith in rw q refl
              | inl c ↦
                  elim (Option-cases (
                    resolve_session db.sessions target none none agent_shared env.session_id
                      env.now)) [
                        | inl n ↦
                            absurd (some≢none (sym e ∙ rw (resolve_target_session, k, c, n) refl))
                        | inr (r, m) ↦
                            let q : t.db.inboxes
                                ≡ with_folder r.created target r.session.id db.inboxes =
                              ground arith in
                            rw q
                              (wake_rows-with_folder group target r.session.id r.created db.inboxes)
                      ]
            ]
      ]

-- The session that was chosen is not of a group that may not be reached.
session_elsewhere :
    {W : Type 0} (db : RouterDb W) (destinations : List AgentDestination)
    (source target group : String) (s : Session)
    → may_route db destinations source target ≡ true
    → may_route db destinations source group ≡ false
    → is_session_of target s ≡ true
    → (s.agent_group_id === group) ≡ false
session_elsewhere db destinations source target group s yes_ no_ k =
    elim (Bool-cases (s.agent_group_id === group)) [
      | inr b ↦ b
      | inl b ↦
          let e : s.agent_group_id ≡ target =
            (===_iff s.agent_group_id target).0 (&&-true _ _ k).0 in
          let f : s.agent_group_id ≡ group = (===_iff s.agent_group_id group).0 b in
          absurd (true≢false (sym yes_ ∙ ap (may_route db destinations source) (sym e ∙ f) ∙ no_))
    ]

-- Where the destinations do not allow it (the target is neither the sender's own group nor one of
-- its destinations, or is no agent group), nothing that wakes the group is stored, whatever
-- message the sender writes.
pub route_agent_message-reaches :
    {W : Type 0} (env : Env) (agent_env : AgentEnv) (destinations : List AgentDestination)
    (db : RouterDb W) (msg : MessageOut) (source : Session) (group : String)
    → may_route db destinations source.agent_group_id group ≡ false
    → wake_rows group (route_agent_message env agent_env destinations db msg source).db.inboxes
      ≡ wake_rows group db.inboxes
unfolding route_agent_message write_to_target
route_agent_message-reaches env agent_env destinations db msg source group h =
    elim (Option-cases msg.platform_id) [
      | inl n ↦ rw (route_agent_message, n) refl
      | inr (target, q) ↦
          elim (Bool-cases
            (target === "" || not (may_route db destinations source.agent_group_id target))) [
              | inl b ↦ rw (route_agent_message, q, b) refl
              | inr b ↦
                  elim (Option-cases (resolve_target_session agent_env db msg source target)) [
                    | inl n ↦ rw (route_agent_message, q, b, n) refl
                    | inr (t, k) ↦
                        let forwarded = forward_file_attachments agent_env msg source in
                        rw (route_agent_message, q, b, k)
                          (wake_rows-store_at_target group env agent_env t source forwarded.0
                              forwarded.1
                              (session_elsewhere db destinations source.agent_group_id target group
                                t.session (ground arith) h
                                (resolve_target_session-IsFor agent_env db msg source target t k))
                            ∙ wake_rows-resolve_target_session group agent_env db msg source target
                                t k)
                  ]
            ]
    ]
