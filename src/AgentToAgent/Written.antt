-- ===== src/AgentToAgent/Written.antt =====
-- A routed message is in the inbound.db of the session that it was routed to
-- (`writeSessionMessage` as `src/modules/agent-to-agent/agent-route.ts` calls it).
use lfontes_nanoclaw.Prelude.{
  ◌==◌, ◌===◌, ===_refl, Bool-cases, Option-cases, All-imp, first, any-false, first_added,
  some_injective, some≢none, true≢false, first-none_of, String, ◌≡◌, refl, sym, ◌∙◌, inl, inr,
  false, ◌||◌, Option, none, some, List, [], ◌∷◌, ◌++◌, arith,
}
use lfontes_nanoclaw.SessionDb.{
  InDb, MessageIn, NewMessage, insert_message, add_row, get_inbound_source_session_id,
}
use lfontes_nanoclaw.SessionDb.Rows.{add_row-some}
use lfontes_nanoclaw.Sessions.{Session}
use lfontes_nanoclaw.Router.State.{Inbox, RouterDb, Env}
use lfontes_nanoclaw.Router.Deliver.{is_inbox, write_inbox, write_session_message}
use lfontes_nanoclaw.AgentToAgent.Files.{AgentEnv, ForwardedAttachment}
use lfontes_nanoclaw.AgentToAgent.Route.{in_db_of, agent_message, copies, store_at_target, Target}

-- A message that was written to a session's inbound.db is in it, with where it came from.
unfoldable pub Written : List Inbox → String → String → String → Option String → Type 0
Written inboxes group session id source =
    (d : InDb) × (in_db_of inboxes group session ≡ some d)
    × (get_inbound_source_session_id d id ≡ source)

add_row-fresh :
    (d d' : InDb) (row : MessageIn)
    → add_row d row ≡ some d'
    → first (λ (m : MessageIn). m.id === row.id) d.messages_in ≡ none
unfolding add_row
add_row-fresh d d' row e = first-none_of _ d.messages_in (
    All-imp _ _ d.messages_in (λ m h. ground arith)
      (any-false (λ (m : MessageIn). m.id === row.id || m.seq == row.seq) d.messages_in
        (ground arith)))

add_row-source :
    (d d' : InDb) (row : MessageIn)
    → add_row d row ≡ some d'
    → get_inbound_source_session_id d' row.id ≡ row.source_session_id
unfolding get_inbound_source_session_id
add_row-source d d' row e =
    rw
      (
        add_row-some d d' row e,
        first_added (λ (x : MessageIn). x.id === row.id) d.messages_in row
            (add_row-fresh d d' row e) (===_refl row.id),
      )
      refl

insert_message-source :
    (d d' : InDb) (m : NewMessage)
    → insert_message d m ≡ some d'
    → get_inbound_source_session_id d' m.id ≡ m.source_session_id
unfolding insert_message
insert_message-source d d' m e = add_row-source d d' _ e

write_inbox-Written :
    (inboxes inboxes' : List Inbox) (group session : String) (m : NewMessage)
    → write_inbox inboxes group session m ≡ some inboxes'
    → Written inboxes' group session m.id m.source_session_id
unfolding write_inbox in_db_of Written
write_inbox-Written [] inboxes' group session m e = absurd (some≢none (sym e))
write_inbox-Written (b ∷ inboxes) inboxes' group session m e =
    elim (Bool-cases (is_inbox group session b)) [
      | inl k ↦ elim (Option-cases (insert_message b.in_db m)) [
        | inl n ↦ absurd (some≢none (sym e ∙ rw (k, n) refl))
        | inr (d, s) ↦
            rw
              (← some_injective (record b { in_db = d } ∷ inboxes) inboxes'
                (sym (rw (k, s) refl) ∙ e))
              (d, rw k refl, insert_message-source b.in_db d m s)
      ]
      | inr k ↦ elim (Option-cases (write_inbox inboxes group session m)) [
        | inl n ↦ absurd (some≢none (sym e ∙ rw (k, n) refl))
        | inr (bs, s) ↦
            rw (← some_injective (b ∷ bs) inboxes' (sym (rw (k, s) refl) ∙ e))
              (let w = write_inbox-Written inboxes bs group session m s in (w.0, rw k w.1, w.2))
      ]
    ]

module _ {W : Type 0} (env : Env) where
  write_session_message-Written :
      (db db' : RouterDb W) (s : Session) (m : NewMessage)
      → write_session_message env db s m ≡ some db'
      → Written db'.inboxes s.agent_group_id s.id m.id m.source_session_id
  unfolding write_session_message
  write_session_message-Written db db' s m e =
      let content = env.extract_attachment_files s.agent_group_id s.id m.id m.content in
      elim (Option-cases
        (write_inbox db.inboxes s.agent_group_id s.id (record m { content = content }))) [
          | inl n ↦ absurd (some≢none (sym e ∙ rw (write_session_message, n) refl))
          | inr (bs, k) ↦
              let q : db'.inboxes ≡ bs = ground arith in
              rw q (
                write_inbox-Written db.inboxes bs s.agent_group_id s.id
                  (record m { content = content }) k)
        ]

  -- Where the message goes and what is there then, whatever content and files it has.
  pub store_at_target-Written :
      (agent_env : AgentEnv) (t : Target W) (source : Session) (content : String)
      (attachments : List ForwardedAttachment)
      → (store_at_target env agent_env t source content attachments).threw ≡ false
      → Written
          (store_at_target env agent_env t source content attachments).db.inboxes
          t.session.agent_group_id
          t.session.id
          agent_env.message_id
          (some source.id)
  unfolding store_at_target
  store_at_target-Written agent_env t source content attachments e =
      let db = record t.db {
        effects = t.db.effects ++ copies t.session.id agent_env.message_id attachments;
      } in
      let m = agent_message agent_env source content in
      elim (Option-cases (write_session_message env db t.session m)) [
        | inl n ↦ absurd (true≢false (rw (store_at_target, n) at e))
        | inr (db', k) ↦
            rw (store_at_target, k) (write_session_message-Written db db' t.session m k)
      ]
