-- ===== src/Delivery/Keeps.antt =====
-- What the delivery of a message leaves alone: the attempts, the outboxes and the rows of `delivered`.
use lfontes_nanoclaw.Prelude.{
  ◌===◌, if◌then◌else◌, Bool-cases, Option-cases, any, some_injective, some≢none, String, ◌≡◌, refl,
  sym, ◌∙◌, inl, inr, Bool, true, false, ◌||◌, not, Option, none, some, List, [], ◌∷◌, ◌++◌, arith,
}
use lfontes_nanoclaw.SessionDb.{InDb, Delivered, MessageOut, NewMessage, insert_message, add_row}
use lfontes_nanoclaw.Sessions.{agent_shared, Session, resolve_session}
use lfontes_nanoclaw.Router.State.{Inbox, RouterDb, Env}
use lfontes_nanoclaw.Router.Deliver.{is_inbox, with_folder, write_inbox, write_session_message}
use lfontes_nanoclaw.AgentToAgent.Destinations.{AgentDestination}
use lfontes_nanoclaw.AgentToAgent.Files.{AgentEnv, ForwardedAttachment, forward_file_attachments}
use lfontes_nanoclaw.AgentToAgent.Route.{
  in_db_of, origin_session_id, candidate, agent_message, copies, store_at_target, Target,
  resolve_target_session, write_to_target, may_route, route_agent_message,
}

-- The rows of `delivered` of a session.
unfoldable pub delivered_in : List Inbox → String → String → Option (List Delivered)
delivered_in [] g s = none
delivered_in (b ∷ inboxes) g s =
    if is_inbox g s b then some b.in_db.delivered else delivered_in inboxes g s

pub delivered_in-in_db_of :
    (inboxes : List Inbox) (g s : String) (d : InDb)
    → in_db_of inboxes g s ≡ some d
    → delivered_in inboxes g s ≡ some d.delivered
unfolding delivered_in in_db_of
delivered_in-in_db_of [] g s d e = absurd (some≢none (sym e))
delivered_in-in_db_of (b ∷ inboxes) g s d e = ground (arith, delivered_in-in_db_of inboxes g s d)

pub in_db_of-delivered_in :
    (inboxes : List Inbox) (g s : String) (ds : List Delivered)
    → delivered_in inboxes g s ≡ some ds
    → (d : InDb) × (in_db_of inboxes g s ≡ some d) × (d.delivered ≡ ds)
unfolding delivered_in in_db_of
in_db_of-delivered_in [] g s ds e = absurd (some≢none (sym e))
in_db_of-delivered_in (b ∷ inboxes) g s ds e = elim (Bool-cases (is_inbox g s b)) [
  | inl y ↦ (
    b.in_db,
    rw (in_db_of, y) refl,
    some_injective b.in_db.delivered ds (sym (rw (delivered_in, y) refl) ∙ e),
  )
  | inr n ↦
      let (d, i, q) = in_db_of-delivered_in inboxes g s ds (sym (rw (delivered_in, n) refl) ∙ e) in
      (d, rw (in_db_of, n) i, q)
]

insert_message-delivered :
    (d d' : InDb) (m : NewMessage) → insert_message d m ≡ some d' → d'.delivered ≡ d.delivered
unfolding insert_message add_row
insert_message-delivered d d' m e = ground arith

delivered_in-write_inbox :
    (g s a b : String) (m : NewMessage) (inboxes inboxes' : List Inbox)
    → write_inbox inboxes a b m ≡ some inboxes'
    → delivered_in inboxes' g s ≡ delivered_in inboxes g s
unfolding delivered_in write_inbox
delivered_in-write_inbox g s a b m [] inboxes' e = absurd (some≢none (sym e))
delivered_in-write_inbox g s a b m (x ∷ inboxes) inboxes' e = elim (Bool-cases (is_inbox a b x)) [
  | inl k ↦ elim (Option-cases (insert_message x.in_db m)) [
    | inl n ↦ absurd (some≢none (sym e ∙ rw (k, n) refl))
    | inr (d, i) ↦
        rw (← some_injective (record x { in_db = d } ∷ inboxes) inboxes' (sym (rw (k, i) refl) ∙ e))
          (elim (Bool-cases (is_inbox g s x)) [
            | inl y ↦ rw (delivered_in, y, insert_message-delivered x.in_db d m i) refl
            | inr n ↦ rw (delivered_in, n) refl
          ])
  ]
  | inr k ↦ elim (Option-cases (write_inbox inboxes a b m)) [
    | inl n ↦ absurd (some≢none (sym e ∙ rw (k, n) refl))
    | inr (bs, i) ↦
        rw (← some_injective (x ∷ bs) inboxes' (sym (rw (k, i) refl) ∙ e))
          (elim (Bool-cases (is_inbox g s x)) [
            | inl y ↦ rw (delivered_in, y) refl
            | inr n ↦ rw (delivered_in, n) (delivered_in-write_inbox g s a b m inboxes bs i)
          ])
  ]
]

delivered_in-with_folder :
    (g s a b : String) (created : Bool) (inboxes : List Inbox) (ds : List Delivered)
    → delivered_in inboxes g s ≡ some ds
    → delivered_in (with_folder created a b inboxes) g s ≡ some ds
unfolding delivered_in
delivered_in-with_folder g s a b false inboxes ds e = e
delivered_in-with_folder g s a b true [] ds e = absurd (some≢none (sym e))
delivered_in-with_folder g s a b true (x ∷ inboxes) ds e =
    ground (arith, delivered_in-with_folder g s a b true inboxes ds)

module _ {W : Type 0} (g s : String) where
  -- The rows of `delivered` of a session, where its agent group and its inbound.db are there.
  unfoldable pub ready : RouterDb W → Option (List Delivered)
  ready db = if any (λ x. x === g) db.agent_groups then delivered_in db.inboxes g s else none

  pub ready_of :
      (db : RouterDb W) (ds : List Delivered)
      → any (λ x. x === g) db.agent_groups ≡ true
      → delivered_in db.inboxes g s ≡ some ds
      → ready db ≡ some ds
  unfolding ready
  ready_of db ds h e = rw h e

  pub ready-some :
      (db : RouterDb W) (ds : List Delivered)
      → ready db ≡ some ds
      → (any (λ x. x === g) db.agent_groups ≡ true) × (delivered_in db.inboxes g s ≡ some ds)
  unfolding ready
  ready-some db ds e = ground arith

  ready-write_session_message :
      (env : Env) (db db' : RouterDb W) (session : Session) (m : NewMessage)
      → write_session_message env db session m ≡ some db'
      → ready db' ≡ ready db
  unfolding write_session_message ready
  ready-write_session_message env db db' session m e =
      let content = env.extract_attachment_files session.agent_group_id session.id m.id m.content in
      let m' = record m { content = content } in
      elim (Option-cases (write_inbox db.inboxes session.agent_group_id session.id m')) [
        | inl n ↦ absurd (some≢none (sym e ∙ rw (write_session_message, n) refl))
        | inr (bs, k) ↦
            let q : db'.inboxes ≡ bs = ground arith in
            let r : db'.agent_groups ≡ db.agent_groups = ground arith in
            rw
              (
                q,
                r,
                delivered_in-write_inbox g s session.agent_group_id session.id m' db.inboxes bs k,
              )
              refl
      ]

  ready-store_at_target :
      (env : Env) (agent_env : AgentEnv) (t : Target W) (source : Session) (content : String)
      (attachments : List ForwardedAttachment)
      → ready (store_at_target env agent_env t source content attachments).db ≡ ready t.db
  unfolding store_at_target
  ready-store_at_target env agent_env t source content attachments =
      let db = record t.db {
        effects = t.db.effects ++ copies t.session.id agent_env.message_id attachments;
      } in
      let m = agent_message agent_env source content in
      elim (Option-cases (write_session_message env db t.session m)) [
        | inl n ↦ rw (store_at_target, n) (unfold ready in refl)
        | inr (db', k) ↦
            rw (store_at_target, k)
              (unfold ready in ready-write_session_message env db db' t.session m k)
      ]

  ready-resolve_target_session :
      (env : AgentEnv) (db : RouterDb W) (msg : MessageOut) (source : Session) (target : String)
      (t : Target W) (ds : List Delivered)
      → ready db ≡ some ds
      → resolve_target_session env db msg source target ≡ some t
      → ready t.db ≡ some ds
  unfolding resolve_target_session
  ready-resolve_target_session env db msg source target t ds h e =
      elim (Option-cases (in_db_of db.inboxes source.agent_group_id source.id)) [
        | inl n ↦ absurd (some≢none (sym e ∙ rw (resolve_target_session, n) refl))
        | inr (d, k) ↦
            elim (Option-cases (candidate db.sessions (origin_session_id d msg target) target)) [
              | inr (x, c) ↦ let q : t.db ≡ db = ground arith in rw q h
              | inl c ↦
                  elim (Option-cases (
                    resolve_session db.sessions target none none agent_shared env.session_id
                      env.now)) [
                        | inl n ↦
                            absurd (some≢none (sym e ∙ rw (resolve_target_session, k, c, n) refl))
                        | inr (r, m) ↦
                            let q : t.db.inboxes
                                ≡ with_folder r.created target r.session.id db.inboxes =
                              ground arith in
                            let a : t.db.agent_groups ≡ db.agent_groups = ground arith in
                            ready_of t.db ds (rw a (ready-some db ds h).0) (
                              rw q (
                                delivered_in-with_folder g s target r.session.id r.created
                                  db.inboxes ds (ready-some db ds h).1))
                      ]
            ]
      ]

  pub ready-route_agent_message :
      (env : Env) (agent_env : AgentEnv) (destinations : List AgentDestination) (db : RouterDb W)
      (msg : MessageOut) (source : Session) (ds : List Delivered)
      → ready db ≡ some ds
      → ready (route_agent_message env agent_env destinations db msg source).db ≡ some ds
  unfolding route_agent_message write_to_target
  ready-route_agent_message env agent_env destinations db msg source ds h =
      elim (Option-cases msg.platform_id) [
        | inl n ↦ rw (route_agent_message, n) h
        | inr (target, q) ↦
            elim (Bool-cases
              (target === "" || not (may_route db destinations source.agent_group_id target))) [
                | inl b ↦ rw (route_agent_message, q, b) h
                | inr b ↦
                    elim (Option-cases (resolve_target_session agent_env db msg source target)) [
                      | inl n ↦ rw (route_agent_message, q, b, n) h
                      | inr (t, k) ↦
                          let forwarded = forward_file_attachments agent_env msg source in
                          rw (route_agent_message, q, b, k)
                            (ready-store_at_target env agent_env t source forwarded.0 forwarded.1
                              ∙ ready-resolve_target_session agent_env db msg source target t ds h
                                  k)
                    ]
              ]
      ]
