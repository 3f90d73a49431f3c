-- ===== src/AgentToAgent/ReturnPath.antt =====
-- Where messages between agents end up: only with the agents that the sender may reach, and a reply
-- in the session that asked.
use lfontes_nanoclaw.Prelude.{
  Bool, In, first-In, first-some, ===_iff, ◌===◌, ===_refl, Bool-cases, Option-cases, first,
  All-order_by, select_holds, first-All, some≢none, true≢false, ℕ, String, ◌≡◌, refl, sym, ◌∙◌, inl,
  inr, true, false, ◌||◌, not, Option, none, some, List, arith,
}
use lfontes_nanoclaw.SessionDb.{InDb, MessageIn, MessageOut, get_inbound_source_session_id}
use lfontes_nanoclaw.Sessions.{
  agent_shared, Session, is_session_of, by_newest, find_session_by_agent_group, existing_session,
  new_session, create_session, get_session, Resolved, resolve_session,
}
use lfontes_nanoclaw.Router.State.{Inbox, RouterDb, Env}
use lfontes_nanoclaw.AgentToAgent.Destinations.{AgentDestination}
use lfontes_nanoclaw.AgentToAgent.Files.{AgentEnv, forward_file_attachments}
use lfontes_nanoclaw.AgentToAgent.Route.{
  in_db_of, origin_session_id, candidate, Target, resolve_target_session, write_to_target,
  may_route, route_agent_message,
}
use lfontes_nanoclaw.AgentToAgent.Written.{Written, store_at_target-Written}

resolve_session_shared-IsFor :
    (sessions : List Session) (group id : String) (now : ℕ) (r : Resolved)
    → resolve_session sessions group none none agent_shared id now ≡ some r
    → is_session_of group r.session ≡ true
unfolding resolve_session existing_session find_session_by_agent_group create_session
resolve_session_shared-IsFor sessions group id now r e =
    elim (Option-cases (find_session_by_agent_group sessions group)) [
      | inr (s, k) ↦
          let q : r.session ≡ s = ground arith in
          rw q (
            first-All (λ x. is_session_of group x ≡ true) (λ x. true) _ s
              (All-order_by _ by_newest _ (select_holds (is_session_of group) sessions)) k)
      | inl k ↦
          let q : r.session ≡ new_session id now group none none = ground arith in
          rw (q, ===_refl group) refl
    ]

candidate-IsFor :
    (sessions : List Session) (id : Option String) (target : String) (s : Session)
    → candidate sessions id target ≡ some s
    → is_session_of target s ≡ true
unfolding candidate
candidate-IsFor sessions none target s e = ground arith
candidate-IsFor sessions (some id) target s e = ground arith

candidate-found :
    (sessions : List Session) (id target : String) (s : Session)
    → (id === "") ≡ false
    → get_session sessions id ≡ some s
    → is_session_of target s ≡ true
    → candidate sessions (some id) target ≡ some s
unfolding candidate
candidate-found sessions id target s i k h = rw (candidate, i, k, h) refl

-- A message for an agent group goes to an active session of that group.
pub resolve_target_session-IsFor :
    {W : Type 0} (env : AgentEnv) (db : RouterDb W) (msg : MessageOut) (source : Session)
    (target : String) (t : Target W)
    → resolve_target_session env db msg source target ≡ some t
    → is_session_of target t.session ≡ true
unfolding resolve_target_session
resolve_target_session-IsFor env db msg source target t e =
    elim (Option-cases (in_db_of db.inboxes source.agent_group_id source.id)) [
      | inl n ↦ absurd (some≢none (sym e ∙ rw (resolve_target_session, n) refl))
      | inr (d, k) ↦
          elim (Option-cases (candidate db.sessions (origin_session_id d msg target) target)) [
            | inr (s, c) ↦
                let q : t.session ≡ s = ground arith in
                rw q (candidate-IsFor db.sessions (origin_session_id d msg target) target s c)
            | inl c ↦
                elim (Option-cases (
                  resolve_session db.sessions target none none agent_shared env.session_id
                    env.now)) [
                      | inl n ↦
                          absurd (some≢none (sym e ∙ rw (resolve_target_session, k, c, n) refl))
                      | inr (r, m) ↦
                          let q : t.session ≡ r.session = ground arith in
                          rw q (
                            resolve_session_shared-IsFor db.sessions target env.session_id env.now r
                              m)
                    ]
          ]
    ]

module _ {W : Type 0} (env : Env) (agent_env agent_env' : AgentEnv) (source a : Session)
    (reply : MessageOut) (m : (agent_env.message_id === "") ≡ false)
    (i : (source.id === "") ≡ false) (p : reply.in_reply_to ≡ some agent_env.message_id)
    (h : is_session_of source.agent_group_id a ≡ true) where
  reply-resolve_target_session :
      (db : RouterDb W) (s : Session)
      → Written db.inboxes s.agent_group_id s.id agent_env.message_id (some source.id)
      → get_session db.sessions source.id ≡ some a
      → resolve_target_session agent_env' db reply s source.agent_group_id
        ≡ some (record { db = db; session = a })
  unfolding Written resolve_target_session origin_session_id
  reply-resolve_target_session db s w k =
      rw
        (
          resolve_target_session,
          w.1,
          p,
          m,
          w.2,
          i,
          candidate-found db.sessions source.id source.agent_group_id a i k h,
        )
        refl

-- What happened where a routing did not throw.
pub route_agent_message-done :
    {W : Type 0} (env : Env) (agent_env : AgentEnv) (destinations : List AgentDestination)
    (db : RouterDb W) (msg : MessageOut) (source : Session) (target : String)
    → msg.platform_id ≡ some target
    → (route_agent_message env agent_env destinations db msg source).threw ≡ false
    → (t : Target W) × (may_route db destinations source.agent_group_id target ≡ true)
      × (resolve_target_session agent_env db msg source target ≡ some t)
      × (route_agent_message env agent_env destinations db msg source
          ≡ write_to_target env agent_env t msg source)
unfolding route_agent_message
route_agent_message-done env agent_env destinations db msg source target q e =
    elim (Bool-cases
      (target === "" || not (may_route db destinations source.agent_group_id target))) [
        | inl b ↦ absurd (true≢false (rw (route_agent_message, q, b) at e))
        | inr b ↦ elim (Option-cases (resolve_target_session agent_env db msg source target)) [
          | inl n ↦ absurd (true≢false (rw (route_agent_message, q, b, n) at e))
          | inr (t, k) ↦ (t, ground arith, k, rw (route_agent_message, q, b, k) refl)
        ]
      ]

-- The inbound.db of a session has a row of that id, with the session that it came from.
abbrev pub HasRow : List Inbox → Session → String → Session → Type 0
HasRow inboxes s id source =
    (d : InDb) × (row : MessageIn) × (in_db_of inboxes s.agent_group_id s.id ≡ some d)
    × In row d.messages_in
    × (row.id ≡ id)
    × (row.source_session_id ≡ some source.id)

Written-HasRow :
    (inboxes : List Inbox) (s source : Session) (id : String)
    → Written inboxes s.agent_group_id s.id id (some source.id)
    → HasRow inboxes s id source
unfolding Written get_inbound_source_session_id
Written-HasRow inboxes s source id w =
    let p : MessageIn → Bool = λ m. m.id === id in
    elim (Option-cases (first p w.0.messages_in)) [
      | inl n ↦ absurd (some≢none (sym w.2 ∙ rw n refl))
      | inr (row, k) ↦ (
        w.0,
        row,
        w.1,
        first-In p w.0.messages_in row k,
        (===_iff row.id id).0 (first-some p w.0.messages_in row k),
        sym (rw k refl) ∙ w.2,
      )
    ]

-- A reply goes back to the session that asked. If a message of a session was routed to another agent
-- group, then the session that the resolution chose for it is an active one of that group and has
-- the message as a row, with the asking session as its source; and a reply from that session that
-- names the message, to the asking group, is routed to the asking session, whatever other sessions
-- that group has, as long as the asking session is still an active one of its group. The message's
-- id and the session's are not empty.
pub route_agent_message-returns :
    {W : Type 0} (env : Env) (agent_env agent_env' : AgentEnv)
    (destinations : List AgentDestination) (db : RouterDb W) (msg reply : MessageOut)
    (source a : Session) (target : String)
    → (agent_env.message_id === "") ≡ false
    → (source.id === "") ≡ false
    → msg.platform_id ≡ some target
    → (route_agent_message env agent_env destinations db msg source).threw ≡ false
    → reply.in_reply_to ≡ some agent_env.message_id
    → get_session
        (route_agent_message env agent_env destinations db msg source).db.sessions
        source.id
      ≡ some a
    → is_session_of source.agent_group_id a ≡ true
    → (t : Target W) × (resolve_target_session agent_env db msg source target ≡ some t)
      × (is_session_of target t.session ≡ true)
      × HasRow
          (route_agent_message env agent_env destinations db msg source).db.inboxes
          t.session
          agent_env.message_id
          source
      × (resolve_target_session agent_env'
            (route_agent_message env agent_env destinations db msg source).db
            reply
            t.session
            source.agent_group_id
          ≡ some (record {
            db = (route_agent_message env agent_env destinations db msg source).db;
            session = a;
          }))
unfolding write_to_target
route_agent_message-returns env agent_env agent_env' destinations db msg reply source a target m i q
      e p k h =
    let d = route_agent_message-done env agent_env destinations db msg source target q e in
    let forwarded = forward_file_attachments agent_env msg source in
    let written : Written (route_agent_message env agent_env destinations db msg source).db.inboxes
        d.0.session.agent_group_id d.0.session.id agent_env.message_id (some source.id) =
      rw d.3
        (store_at_target-Written env agent_env d.0 source forwarded.0 forwarded.1 (rw (← d.3) e)) in
    (
      d.0,
      d.2,
      resolve_target_session-IsFor agent_env db msg source target d.0 d.2,
      Written-HasRow (route_agent_message env agent_env destinations db msg source).db.inboxes
          d.0.session source agent_env.message_id written,
      reply-resolve_target_session env agent_env agent_env' source a reply m i p h _ d.0.session
          written k,
    )
