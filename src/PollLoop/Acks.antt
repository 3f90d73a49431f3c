-- ===== src/PollLoop/Acks.antt =====
-- Which messages the runner has acknowledged as completed, and what the writes to processing_ack do to that
-- (`container/agent-runner/src/db/messages-in.ts`).
use lfontes_nanoclaw.Prelude.{
  ◌===◌, if◌then◌else◌, ===_iff, Bool-cases, any, select, first, delete, true≢false, ℕ, String, ◌≡◌,
  refl, sym, ap, ◌∙◌, inl, inr, Bool, true, false, ◌||◌, not, Option, none, some, List, [], ◌∷◌,
  reverse, arith,
}
use mathlib.Core.List.{reverse_aux}
use lfontes_nanoclaw.SessionDb.{MessageIn, InDb, Ack, AckStatus, OutDb}
use lfontes_nanoclaw.Container.MessagesIn.{
  is_acked, get_pending_messages, fetch_window, put_ack, put_acks, mark_processing, mark_completed,
}
use lfontes_nanoclaw.PollLoop.{ids_of, includes_id}

abbrev ack_of : List Ack → String → Option Ack
ack_of acks id = first (λ (a : Ack). a.message_id === id) acks

abbrev completed_ack : Option Ack → Bool
completed_ack none = false
completed_ack (some a) = elim a.status as (λ _. Bool) [
  | AckStatus.processing ↦ false
  | AckStatus.completed ↦ true
  | AckStatus.failed ↦ false
]

-- The acknowledgement of a message says completed.
unfoldable pub is_done : OutDb → String → Bool
is_done db id = completed_ack (ack_of db.processing_ack id)

differs : (a i id : String) → (a === i) ≡ false → (a === id) ≡ true → (i === id) ≡ false
differs a i id e k = elim (Bool-cases (i === id)) [
  | inl h ↦ absurd (true≢false (sym (rw ((===_iff i id).0 h) k) ∙ e))
  | inr h ↦ h
]

ack_of-put_ack :
    (now : ℕ) (status : AckStatus) (i id : String) (acks : List Ack)
    → completed_ack (ack_of (put_ack now status i acks) id) ≡ (
        if i === id
        then completed_ack
            (some (record { message_id = i; status = status; status_changed = none }))
        else completed_ack (ack_of acks id))
unfolding put_ack first delete
ack_of-put_ack now status i id [] = ground arith
ack_of-put_ack now status i id (a ∷ acks) = elim (Bool-cases (a.message_id === i)) [
  | inl e ↦
      rw (e, ack_of-put_ack now status i id acks, (===_iff a.message_id i).0 e)
        (elim (Bool-cases (i === id)) [ inl k ↦ rw k refl | inr k ↦ rw k refl ])
  | inr e ↦ elim (Bool-cases (a.message_id === id)) [
    | inl k ↦ rw (put_ack, e, k, differs a.message_id i id e k) refl
    | inr k ↦ rw (put_ack, e, k) (ack_of-put_ack now status i id acks)
  ]
]

-- Completing messages completes those, and undoes no other.
put_acks-completed :
    (now : ℕ) (id : String) (ids : List String) (acks : List Ack)
    → completed_ack (ack_of (put_acks now AckStatus.completed ids acks) id)
      ≡ (includes_id ids id || completed_ack (ack_of acks id))
unfolding put_acks
put_acks-completed now id [] acks = refl
put_acks-completed now id (i ∷ ids) acks =
    put_acks-completed now id ids (put_ack now AckStatus.completed i acks)
    ∙ rw (ack_of-put_ack now AckStatus.completed i id acks) (ground arith)

-- Claiming messages leaves the others as they are.
put_acks-processing :
    (now : ℕ) (id : String) (ids : List String) (acks : List Ack)
    → includes_id ids id ≡ false
    → completed_ack (ack_of (put_acks now AckStatus.processing ids acks) id)
      ≡ completed_ack (ack_of acks id)
unfolding put_acks
put_acks-processing now id [] acks h = refl
put_acks-processing now id (i ∷ ids) acks h = elim (Bool-cases (i === id)) [
  | inl k ↦ ground arith
  | inr k ↦
      put_acks-processing now id ids (put_ack now AckStatus.processing i acks) (ground arith)
      ∙ rw (ack_of-put_ack now AckStatus.processing i id acks, k) refl
]

pub is_done-mark_completed :
    (db : OutDb) (now : ℕ) (ids : List String) (id : String)
    → is_done (mark_completed db now ids) id ≡ (includes_id ids id || is_done db id)
unfolding is_done mark_completed
is_done-mark_completed db now ids id = put_acks-completed now id ids db.processing_ack

pub is_done-mark_processing :
    (db : OutDb) (now : ℕ) (ids : List String) (id : String)
    → includes_id ids id ≡ false
    → is_done (mark_processing db now ids) id ≡ is_done db id
unfolding is_done mark_processing
is_done-mark_processing db now ids id h = put_acks-processing now id ids db.processing_ack h

pub is_done-acks :
    (a b : OutDb) (id : String) → a.processing_ack ≡ b.processing_ack → is_done a id ≡ is_done b id
unfolding is_done
is_done-acks a b id e = ap (λ acks. completed_ack (ack_of acks id)) e

acked :
    (id : String) (acks : List Ack)
    → completed_ack (ack_of acks id) ≡ true
    → any (λ (a : Ack). a.message_id === id) acks ≡ true
unfolding first
acked id [] h = ground arith
acked id (a ∷ acks) h = elim (Bool-cases (a.message_id === id)) [
  | inl k ↦ rw k refl
  | inr k ↦
      let e : ack_of (a ∷ acks) id ≡ ack_of acks id = rw k refl in
      rw k (acked id acks (sym (ap completed_ack e) ∙ h))
]

pub is_done-is_acked : (db : OutDb) (id : String) → is_done db id ≡ true → is_acked db id ≡ true
unfolding is_done is_acked
is_done-is_acked db id h = acked id db.processing_ack h

any-reverse_aux :
    (ms acc : List MessageIn) (id : String)
    → includes_id (ids_of (reverse_aux ms acc)) id
      ≡ (includes_id (ids_of ms) id || includes_id (ids_of acc) id)
any-reverse_aux [] acc id = refl
any-reverse_aux (m ∷ ms) acc id = any-reverse_aux ms (m ∷ acc) id ∙ ground arith

any_reverse :
    (ms : List MessageIn) (id : String)
    → includes_id (ids_of (reverse ms)) id ≡ includes_id (ids_of ms) id
any_reverse ms id = any-reverse_aux ms [] id ∙ ground arith

unacked :
    (db : OutDb) (id : String) (ms : List MessageIn)
    → is_acked db id ≡ true
    → includes_id (ids_of (select (λ (m : MessageIn). not (is_acked db m.id)) ms)) id ≡ false
unfolding select
unacked db id [] h = refl
unacked db id (m ∷ ms) h = elim (Bool-cases (is_acked db m.id)) [
  | inl k ↦ rw k (unacked db id ms h)
  | inr k ↦ elim (Bool-cases (m.id === id)) [
    | inl e ↦ absurd (true≢false (sym (rw ((===_iff m.id id).0 e) h) ∙ k))
    | inr e ↦ rw (k, e) (unacked db id ms h)
  ]
]

-- A poll does not find what is acknowledged.
pub get_pending_messages-unacked :
    (inbound : InDb) (db : OutDb) (limit : ℕ) (is_first : Bool) (now : ℕ) (id : String)
    → is_acked db id ≡ true
    → includes_id (ids_of (get_pending_messages inbound db limit is_first now)) id ≡ false
unfolding get_pending_messages
get_pending_messages-unacked inbound db limit is_first now id h =
    any_reverse (select (λ (m : MessageIn). not (is_acked db m.id)) _) id
    ∙ unacked db id (fetch_window inbound limit is_first now) h

-- Nor does a part of it.
pub ids_of-select :
    (p : MessageIn → Bool) (ms : List MessageIn) (id : String)
    → includes_id (ids_of ms) id ≡ false
    → includes_id (ids_of (select p ms)) id ≡ false
unfolding select
ids_of-select p [] id h = refl
ids_of-select p (m ∷ ms) id h = ground (arith, ids_of-select p ms id)
