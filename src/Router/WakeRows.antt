-- ===== src/Router/WakeRows.antt =====
-- The messages that wake an agent group, and what the delivery to one agent does to them.
use lfontes_nanoclaw.Prelude.{
  some_injective, ◌===◌, if◌then◌else◌, ===_iff, Bool-cases, Option-cases, &&-true, or_else, select,
  select-append, String, ◌≡◌, refl, sym, ap, ◌∙◌, inl, inr, Bool, true, false, ◌&&◌, Option, some,
  List, [], ◌∷◌, ◌++◌, arith,
}
use lfontes_nanoclaw.SessionDb.{InDb, MessageIn, NewMessage, insert_message}
use lfontes_nanoclaw.SessionDb.Rows.{add_row-some}
use lfontes_nanoclaw.CommandGate.{GateResult, pass, filter, deny}
use lfontes_nanoclaw.Sessions.{Session, resolve_session}
use lfontes_nanoclaw.Sessions.Resolve.{resolve_session-group}
use lfontes_nanoclaw.Router.State.{
  MessagingGroup, MessagingGroupAgent, InboundEvent, Inbox, RouterDb, Env,
}
use lfontes_nanoclaw.Router.Deliver.{
  deliver_to_agent, write_inbox, with_folder, is_inbox, write_outbound_direct,
  write_session_message, wake_session, store_routed, routed_message, gate_of, after_gate,
  effective_session_mode,
}

-- The messages in the sessions of an agent group that wake it.
unfoldable pub wake_rows : String → List Inbox → List MessageIn
wake_rows group [] = []
wake_rows group (b ∷ inboxes) =
    (if b.agent_group_id === group
      then select (λ (m : MessageIn). m.trigger) b.in_db.messages_in
      else [])
    ++ wake_rows group inboxes

second_false : (p q : Bool) → p ≡ true → (p && q) ≡ false → q ≡ false
second_false true q g h = h
second_false false q g h = ground arith

append_empty {ℓ} : {A : Type ℓ} (xs : List A) → xs ++ [] ≡ xs
append_empty [] = refl
append_empty (x ∷ xs) = ap (λ ys. x ∷ ys) (append_empty xs)

insert_message-silent :
    (db db' : InDb) (message : NewMessage)
    → insert_message db message ≡ some db'
    → or_else message.trigger true ≡ false
    → select (λ (m : MessageIn). m.trigger) db'.messages_in
      ≡ select (λ (m : MessageIn). m.trigger) db.messages_in
unfolding insert_message select
insert_message-silent db db' message e t =
    rw (add_row-some db db' _ e, select-append (λ (m : MessageIn). m.trigger) db.messages_in _, t)
      (append_empty (select (λ (m : MessageIn). m.trigger) db.messages_in))

-- An inbox that is written keeps what wakes the group, if it is another's or the message is silent.
silent_inbox :
    (group a sid : String) (b : Inbox) (d : InDb) (message : NewMessage)
    → is_inbox a sid b ≡ true
    → insert_message b.in_db message ≡ some d
    → (a === group && or_else message.trigger true) ≡ false
    → (if b.agent_group_id === group
        then select (λ (m : MessageIn). m.trigger) d.messages_in
        else [])
      ≡ (if b.agent_group_id === group
          then select (λ (m : MessageIn). m.trigger) b.in_db.messages_in
          else [])
silent_inbox group a sid b d message k s h = elim (Bool-cases (a === group)) [
  | inl g ↦
      ap (λ rows. if b.agent_group_id === group then rows else [])
        (insert_message-silent b.in_db d message s (second_false (a === group) _ g h))
  | inr g ↦ rw ((===_iff b.agent_group_id a).0 (&&-true _ _ k).0, g) refl
]

wake_rows-write_inbox :
    (group a sid : String) (message : NewMessage) (inboxes inboxes' : List Inbox)
    → write_inbox inboxes a sid message ≡ some inboxes'
    → (a === group && or_else message.trigger true) ≡ false
    → wake_rows group inboxes' ≡ wake_rows group inboxes
unfolding write_inbox wake_rows
wake_rows-write_inbox group a sid message [] inboxes' e h = ground arith
wake_rows-write_inbox group a sid message (b ∷ inboxes) inboxes' e h =
    elim (Bool-cases (is_inbox a sid b)) [
      | inl k ↦ elim (Option-cases (insert_message b.in_db message)) [
        | inl n ↦ ground arith
        | inr (d, s) ↦
            rw
              (← some_injective (record b { in_db = d } ∷ inboxes) inboxes'
                (sym (rw (k, s) refl) ∙ e))
              (ap (λ rows. rows ++ wake_rows group inboxes)
                (silent_inbox group a sid b d message k s h))
      ]
      | inr k ↦ elim (Option-cases (write_inbox inboxes a sid message)) [
        | inl n ↦ ground arith
        | inr (bs, s) ↦
            rw (← some_injective (b ∷ bs) inboxes' (sym (rw (k, s) refl) ∙ e))
              (rw (wake_rows-write_inbox group a sid message inboxes bs s h) refl)
      ]
    ]

pub wake_rows-with_folder :
    (group a sid : String) (created : Bool) (inboxes : List Inbox)
    → wake_rows group (with_folder created a sid inboxes) ≡ wake_rows group inboxes
unfolding wake_rows select
wake_rows-with_folder group a sid false inboxes = refl
wake_rows-with_folder group a sid true [] = ground arith
wake_rows-with_folder group a sid true (b ∷ inboxes) =
    ap
      (λ rows.
        (if b.agent_group_id === group
          then select (λ (m : MessageIn). m.trigger) b.in_db.messages_in
          else [])
        ++ rows)
      (wake_rows-with_folder group a sid true inboxes)

module _ {W : Type 0} (env : Env) (group : String) where
  pub wake_rows-write_session_message :
      (db db' : RouterDb W) (s : Session) (message : NewMessage)
      → write_session_message env db s message ≡ some db'
      → (s.agent_group_id === group && or_else message.trigger true) ≡ false
      → wake_rows group db'.inboxes ≡ wake_rows group db.inboxes
  unfolding write_session_message
  wake_rows-write_session_message db db' s message e h =
      elim (Option-cases (
        write_inbox db.inboxes s.agent_group_id s.id (record message {
          content = env.extract_attachment_files s.agent_group_id s.id message.id message.content;
        }))) [
          | inl n ↦ ground arith
          | inr (bs, k) ↦
              ground (arith, wake_rows-write_inbox group s.agent_group_id s.id _ db.inboxes bs k h)
        ]

  wake_rows-store_routed :
      (db : RouterDb W) (agent : MessagingGroupAgent) (event : InboundEvent) (s : Session)
      (wake : Bool)
      → (s.agent_group_id === group && wake) ≡ false
      → wake_rows group (store_routed env db agent event s wake).db.inboxes
        ≡ wake_rows group db.inboxes
  unfolding store_routed wake_session
  wake_rows-store_routed db agent event s true h =
      elim (Option-cases (write_session_message env db s (routed_message env agent event true))) [
        | inl n ↦ rw (store_routed, n) refl
        | inr (db', k) ↦
            rw (store_routed, k)
              (wake_rows-write_session_message db db' s (routed_message env agent event true) k h)
      ]
  wake_rows-store_routed db agent event s false h =
      elim (Option-cases (write_session_message env db s (routed_message env agent event false))) [
        | inl n ↦ rw (store_routed, n) refl
        | inr (db', k) ↦
            rw (store_routed, k)
              (wake_rows-write_session_message db db' s (routed_message env agent event false) k h)
      ]

  wake_rows-after_gate :
      (db : RouterDb W) (agent : MessagingGroupAgent) (event : InboundEvent) (s : Session)
      (wake : Bool) (gate : GateResult)
      → (s.agent_group_id === group && wake) ≡ false
      → wake_rows group (after_gate env db agent event s wake gate).db.inboxes
        ≡ wake_rows group db.inboxes
  unfolding after_gate write_outbound_direct
  wake_rows-after_gate db agent event s wake filter h = refl
  wake_rows-after_gate db agent event s wake (deny command) h = refl
  wake_rows-after_gate db agent event s wake pass h = wake_rows-store_routed db agent event s wake h

  pub wake_rows-deliver_to_agent :
      (db : RouterDb W) (agent : MessagingGroupAgent) (mg : MessagingGroup) (event : InboundEvent)
      (user : Option String) (threads wake : Bool)
      → (agent.agent_group_id === group && wake) ≡ false
      → wake_rows group (deliver_to_agent env db agent mg event user threads wake).db.inboxes
        ≡ wake_rows group db.inboxes
  unfolding deliver_to_agent
  wake_rows-deliver_to_agent db agent mg event user threads wake h =
      elim (Option-cases (
        resolve_session db.sessions agent.agent_group_id (some mg.id) event.thread_id
          (effective_session_mode agent mg threads) (env.session_id agent) env.now)) [
            | inl n ↦ rw (deliver_to_agent, n) refl
            | inr (r, k) ↦
                rw (deliver_to_agent, k)
                  (wake_rows-after_gate _ agent event r.session wake
                      (gate_of env db agent event user)
                      (rw (resolve_session-group _ _ _ _ _ _ _ r k) h)
                    ∙ wake_rows-with_folder group agent.agent_group_id r.session.id r.created
                        db.inboxes)
          ]
