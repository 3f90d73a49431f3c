-- ===== src/Delivery/Progress.antt =====
-- No due message waits for ever: what a drain does for each message of its list, and three drains.
use lfontes_nanoclaw.Prelude.{
  leb, ◌===◌, if◌then◌else◌, ===_iff, ===_refl, Bool-cases, Option-cases, any, delete,
  some_injective, some≢none, any-append, ℕ, ◌+◌, ◌≤◌, ◌<◌, String, ◌≡◌, refl, sym, ◌∙◌, ◌⊎◌, inl,
  inr, Bool, true, false, ◌&&◌, not, Option, some, List, [], ◌∷◌, ◌++◌, arith,
}
use lfontes_nanoclaw.SessionDb.{
  InDb, Delivered, MessageOut, has_delivered, add_delivered, mark_delivered, mark_delivery_failed,
}
use lfontes_nanoclaw.Sessions.{Session}
use lfontes_nanoclaw.Router.State.{Inbox}
use lfontes_nanoclaw.Router.Deliver.{is_inbox}
use lfontes_nanoclaw.Delivery.State.{DeliveryDb, Delivery, Outbox}
use lfontes_nanoclaw.Delivery.Message.{is_for_agent}
use lfontes_nanoclaw.Delivery.Drain.{
  max_delivery_attempts, attempts_of, delete_attempts, set_attempts, change_in_db,
  change_session_db, without_attempts, after_success, after_failure, after_delivery,
}
use lfontes_nanoclaw.Delivery.Keeps.{delivered_in, ready, ready_of, ready-some}

abbrev pub recorded : List Delivered → String → Bool
recorded ds id = any (λ (d : Delivered). d.message_out_id === id) ds

attempts_of-set_attempts :
    (m : List (String × ℕ)) (id j : String) (n : ℕ)
    → attempts_of (set_attempts m id n) j ≡ (if id === j then n else attempts_of m j)
unfolding attempts_of set_attempts
attempts_of-set_attempts [] id j n = refl
attempts_of-set_attempts ((k, x) ∷ m) id j n =
    ground (arith, ===_iff id j, ===_iff k id, ===_iff k j, attempts_of-set_attempts m id j n)

attempts_of-delete_attempts :
    (m : List (String × ℕ)) (id j : String)
    → (id === j) ≡ false
    → attempts_of (delete_attempts m id) j ≡ attempts_of m j
unfolding attempts_of delete_attempts delete
attempts_of-delete_attempts [] id j h = refl
attempts_of-delete_attempts ((k, x) ∷ m) id j h =
    ground (arith, ===_iff id j, ===_iff k id, ===_iff k j, attempts_of-delete_attempts m id j)

delivered_in-change_in_db :
    (f : InDb → InDb) (F : List Delivered → List Delivered) (inboxes : List Inbox) (g s : String)
    (ds : List Delivered)
    → ((d : InDb) → (f d).delivered ≡ F d.delivered)
    → delivered_in inboxes g s ≡ some ds
    → delivered_in (change_in_db f inboxes g s) g s ≡ some (F ds)
unfolding delivered_in change_in_db
delivered_in-change_in_db f F [] g s ds k e = absurd (some≢none (sym e))
delivered_in-change_in_db f F (b ∷ inboxes) g s ds k e = elim (Bool-cases (is_inbox g s b)) [
  | inl y ↦
      let y' : is_inbox g s (record b { in_db = f b.in_db }) ≡ true = y in
      rw
        (
          y,
          k b.in_db,
          some_injective b.in_db.delivered ds (sym (rw (delivered_in, y) refl) ∙ e),
          y',
        )
        refl
  | inr n ↦
      rw (n, delivered_in, n)
        (delivered_in-change_in_db f F inboxes g s ds k (sym (rw (delivered_in, n) refl) ∙ e))
]

abbrev added : Delivered → List Delivered → List Delivered
added row ds = if recorded ds row.message_out_id then ds else ds ++ row ∷ []

add_delivered-delivered :
    (row : Delivered) (d : InDb) → (add_delivered d row).delivered ≡ added row d.delivered
unfolding add_delivered has_delivered
add_delivered-delivered row d = ground arith

recorded-added_self :
    (row : Delivered) (ds : List Delivered) → recorded (added row ds) row.message_out_id ≡ true
recorded-added_self row ds = elim (Bool-cases (recorded ds row.message_out_id)) [
  | inl b ↦ rw b b
  | inr b ↦
      rw
        (
          b,
          any-append (λ (d : Delivered). d.message_out_id === row.message_out_id) ds (row ∷ []),
          ===_refl row.message_out_id,
        )
        (ground arith)
]

recorded-added :
    (row : Delivered) (ds : List Delivered) (id : String)
    → recorded ds id ≡ true
    → recorded (added row ds) id ≡ true
recorded-added row ds id h = elim (Bool-cases (recorded ds row.message_out_id)) [
  | inl b ↦ rw b h
  | inr b ↦ rw (b, any-append (λ (d : Delivered). d.message_out_id === id) ds (row ∷ []), h) refl
]

-- A session where the delivery stands, and what is known of the attempts of one of its messages.
abbrev pub Tried :
    {W : Type 0} → Session → List Outbox → String → (ℕ → Type 0) → DeliveryDb W → Type 0
Tried session outs id C db =
    (ds : List Delivered) × (ready session.agent_group_id session.id db.shared.host ≡ some ds)
    × (db.outboxes ≡ outs)
    × ((recorded ds id ≡ true) ⊎ C (attempts_of db.delivery_attempts id))

ready-change_session_db :
    {W : Type 0} (f : InDb → InDb) (row : Delivered) (session : Session) (db : DeliveryDb W)
    (ds : List Delivered)
    → ((d : InDb) → (f d).delivered ≡ added row d.delivered)
    → ready session.agent_group_id session.id db.shared.host ≡ some ds
    → ready session.agent_group_id session.id (change_session_db f db session).shared.host
      ≡ some (added row ds)
unfolding change_session_db
ready-change_session_db f row session db ds k h =
    let r = ready-some session.agent_group_id session.id db.shared.host ds h in
    ready_of session.agent_group_id session.id (change_session_db f db session).shared.host
      (added row ds) r.0
      (delivered_in-change_in_db f (added row) db.shared.host.inboxes session.agent_group_id
        session.id ds k r.1)

module _ {W : Type 0} (now : ℕ) (session : Session) (msg : MessageOut) (db : DeliveryDb W)
    (ds : List Delivered)
    (h : ready session.agent_group_id session.id db.shared.host ≡ some ds) where
  -- The message has a row in `delivered`, and no attempts any more.
  abbrev pub Marked : DeliveryDb W → Type 0
  Marked db' =
      (row : Delivered) × (row.message_out_id ≡ msg.id)
      × (ready session.agent_group_id session.id db'.shared.host ≡ some (added row ds))
      × (db'.outboxes ≡ db.outboxes)
      × (db'.delivery_attempts ≡ delete_attempts db.delivery_attempts msg.id)

  Marked-change_session_db :
      (f : InDb → InDb) (row : Delivered)
      → row.message_out_id ≡ msg.id
      → ((d : InDb) → (f d).delivered ≡ added row d.delivered)
      → Marked (without_attempts (change_session_db f db session) msg.id)
  unfolding change_session_db
  Marked-change_session_db f row e k =
      (row, e, ready-change_session_db f row session db ds k h, refl, refl)

  after_success-Marked :
      (platform_message_id : Option String)
      → Marked (after_success now db session msg platform_message_id)
  unfolding after_success mark_delivered ready
  after_success-Marked platform_message_id =
      let m =
        Marked-change_session_db (λ d. mark_delivered d now msg.id platform_message_id) _ refl
          (add_delivered-delivered _) in
      elim (Bool-cases (not (msg.kind === "system") && not (is_for_agent msg))) [
        | inl b ↦ rw (after_success, b) m
        | inr b ↦ rw (after_success, b) m
      ]

  after_failure-Marked :
      Marked (after_failure now db session msg)
      ⊎ ((after_failure now db session msg ≡ record db {
        delivery_attempts =
            set_attempts db.delivery_attempts msg.id (attempts_of db.delivery_attempts msg.id + 1);
      })
          × (attempts_of db.delivery_attempts msg.id + 1 < 3))
  unfolding after_failure mark_delivery_failed
  after_failure-Marked =
      elim (Bool-cases (leb max_delivery_attempts (attempts_of db.delivery_attempts msg.id + 1))) [
        | inl b ↦ inl (
            rw (after_failure, b)
              (Marked-change_session_db (λ d. mark_delivery_failed d now msg.id) _ refl
                (add_delivered-delivered _)))
        | inr b ↦ inr (rw (after_failure, b) refl, ground arith)
      ]

  -- The message has one more attempt, below three.
  abbrev pub Counted : DeliveryDb W → Type 0
  Counted db' =
      (ready session.agent_group_id session.id db'.shared.host ≡ some ds)
      × (db'.outboxes ≡ db.outboxes)
      × (db'.delivery_attempts
          ≡ set_attempts db.delivery_attempts msg.id (attempts_of db.delivery_attempts msg.id + 1))
      × (attempts_of db.delivery_attempts msg.id + 1 < 3)

  pub after_delivery-or :
      (result : Delivery W)
      → result.db ≡ db
      → Marked (after_delivery now session msg result)
        ⊎ Counted (after_delivery now session msg result)
  after_delivery-or result e = elim (Option-cases result.outcome) [
    | inr (p, k) ↦ inl (rw (after_delivery, k, e) (after_success-Marked p))
    | inl k ↦ elim after_failure-Marked [
      | inl m ↦ inl (rw (after_delivery, k, e) m)
      | inr (m, l) ↦ inr (rw (after_delivery, k, e, m) (h, refl, refl, l))
    ]
  ]

module _ {W : Type 0} (session : Session) (outs : List Outbox) (msg : MessageOut)
    (db db' : DeliveryDb W) (ds : List Delivered)
    (h : ready session.agent_group_id session.id db.shared.host ≡ some ds)
    (o : db.outboxes ≡ outs) where
  pub Tried-own :
      (n : ℕ)
      → (recorded ds msg.id ≡ true) ⊎ (n ≤ attempts_of db.delivery_attempts msg.id)
      → Marked 0 session msg db ds h db' ⊎ Counted 0 session msg db ds h db'
      → Tried session outs msg.id (λ a. (n + 1 ≤ a) × (a < 3)) db'
  Tried-own n t (inl (row, e, r, b, a)) =
      (added row ds, r, b ∙ o, inl (rw (← e) (recorded-added_self row ds)))
  Tried-own n (inl t) (inr (r, b, a, l)) = (ds, r, b ∙ o, inl t)
  Tried-own n (inr t) (inr (r, b, a, l)) = (
    ds,
    r,
    b ∙ o,
    inr (
        rw
          (
            a,
            attempts_of-set_attempts db.delivery_attempts msg.id msg.id
                (attempts_of db.delivery_attempts msg.id + 1),
            ===_refl msg.id,
          )
          (omega arith, l)),
  )

  pub Tried-other :
      (id : String) (C : ℕ → Type 0)
      → (msg.id === id) ≡ false
      → (recorded ds id ≡ true) ⊎ C (attempts_of db.delivery_attempts id)
      → Marked 0 session msg db ds h db' ⊎ Counted 0 session msg db ds h db'
      → Tried session outs id C db'
  Tried-other id C n (inl t) (inl (row, e, r, b, a)) =
      (added row ds, r, b ∙ o, inl (recorded-added row ds id t))
  Tried-other id C n (inr t) (inl (row, e, r, b, a)) = (
    added row ds,
    r,
    b ∙ o,
    inr (rw (a, attempts_of-delete_attempts db.delivery_attempts msg.id id n) t),
  )
  Tried-other id C n (inl t) (inr (r, b, a, l)) = (ds, r, b ∙ o, inl t)
  Tried-other id C n (inr t) (inr (r, b, a, l)) = (
    ds,
    r,
    b ∙ o,
    inr (
        rw
          (
            a,
            attempts_of-set_attempts db.delivery_attempts msg.id id
                (attempts_of db.delivery_attempts msg.id + 1),
            n,
          )
          t),
  )
