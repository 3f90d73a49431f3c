-- ===== src/Sessions/Resolve.antt =====
-- What `resolveSession` finds, and that it finds it again.
use lfontes_nanoclaw.Prelude.{
  first-All, first_added, some_injective, some≢none, ◌===◌, if◌then◌else◌, ===_iff, ===_refl,
  Bool-cases, Option-cases, &&-true, is_some, opt_eq, any, select, first, insert_by, order_by,
  All-order_by, select_holds, first-some, select-append, ℕ, String, ◌≡◌, refl, sym, ◌∙◌, ◌≢◌, ◌⊎◌,
  inl, inr, Bool, true, false, ◌||◌, not, Option, none, some, List, [], ◌∷◌, ◌++◌, arith,
}
use lfontes_nanoclaw.Sessions.{
  SessionMode, shared, per_thread, agent_shared, Session, is_truthy, create_session, is_session_for,
  find_session_for_agent, is_session_of, by_newest, find_session_by_agent_group, thread_to_store,
  existing_session, new_session, Resolved, resolve_session,
}

first_of_inserted {ℓ} :
    {A : Type ℓ} (le : A → A → Bool) (x : A) (xs : List A)
    → first (λ s. true) (insert_by le x xs) ≢ none
unfolding first insert_by
first_of_inserted le x [] e = ground arith
first_of_inserted le x (y ∷ ys) e = ground arith

nothing_ordered {ℓ} :
    {A : Type ℓ} (le : A → A → Bool) (xs : List A)
    → first (λ s. true) (order_by le xs) ≡ none
    → xs ≡ []
unfolding order_by
nothing_ordered le [] e = refl
nothing_ordered le (x ∷ xs) e = absurd (first_of_inserted le x (order_by le xs) e)

is_of_thread-own :
    (thread : Option String)
    → opt_eq thread (some "") ≡ false
    → (if is_truthy thread then opt_eq thread thread else not (is_some thread)) ≡ true
is_of_thread-own none t = refl
is_of_thread-own (some u) t = rw (t, ===_refl u) refl

module _ (sessions : List Session) (group mg : String) (thread : Option String) where
  existing_session-added :
      (mode : SessionMode) (id : String) (now : ℕ)
      → (mg === "") ≡ false
      → opt_eq thread (some "") ≡ false
      → existing_session sessions group (some mg) thread mode ≡ none
      → existing_session
          (sessions ++ new_session id now group (some mg) (thread_to_store mode thread) ∷ [])
          group
          (some mg)
          thread
          mode
        ≡ some (new_session id now group (some mg) (thread_to_store mode thread))
  unfolding existing_session find_session_for_agent find_session_by_agent_group
  existing_session-added agent_shared id now m t e =
      rw
        (
          select-append (is_session_of group) sessions _,
          nothing_ordered by_newest (select (is_session_of group) sessions) e,
        )
        (unfold select order_by insert_by first in rw (===_refl group) refl)
  existing_session-added shared id now m t e = rw m (
      first_added (is_session_for group mg none) sessions (new_session id now group (some mg) none)
        (ground arith) (rw (===_refl group, ===_refl mg) refl))
  existing_session-added per_thread id now m t e = rw m (
      first_added (is_session_for group mg thread) sessions
        (new_session id now group (some mg) thread) (ground arith)
        (rw (===_refl group, ===_refl mg, is_of_thread-own thread t) refl))

  abbrev Found : SessionMode → Resolved → Type 0
  Found mode r =
      (s : Session) × (existing_session sessions group (some mg) thread mode ≡ some s)
      × (r ≡ record { sessions = sessions; session = s; created = false })

  abbrev Created : SessionMode → String → ℕ → Resolved → Type 0
  Created mode id now r =
      let s = new_session id now group (some mg) (thread_to_store mode thread) in
      (existing_session sessions group (some mg) thread mode ≡ none)
      × (r ≡ record { sessions = sessions ++ s ∷ []; session = s; created = true })

  resolve_session-cases :
      (mode : SessionMode) (id : String) (now : ℕ) (r : Resolved)
      → resolve_session sessions group (some mg) thread mode id now ≡ some r
      → Found mode r ⊎ Created mode id now r
  unfolding resolve_session create_session
  resolve_session-cases mode id now r e =
      elim (Option-cases (existing_session sessions group (some mg) thread mode)) [
        | inr (s, k) ↦ inl (s, k, some_injective r _ (sym e ∙ rw (resolve_session, k) refl))
        | inl k ↦ elim (Bool-cases (any (λ (s : Session). s.id === id) sessions)) [
          | inl b ↦ absurd (some≢none (sym e ∙ rw (resolve_session, k, create_session, b) refl))
          | inr b ↦
              inr (k, some_injective r _ (sym e ∙ rw (resolve_session, k, create_session, b) refl))
        ]
      ]

abbrev pub is_agent_shared : SessionMode → Bool
is_agent_shared agent_shared = true
is_agent_shared _ = false

existing_session-IsFor :
    (sessions : List Session) (group mg : String) (thread : Option String) (mode : SessionMode)
    (s : Session)
    → (mg === "") ≡ false
    → existing_session sessions group (some mg) thread mode ≡ some s
    → (is_session_of group s ≡ true)
      × ((is_agent_shared mode || opt_eq s.messaging_group_id (some mg)) ≡ true)
unfolding existing_session find_session_for_agent find_session_by_agent_group
existing_session-IsFor sessions group mg thread agent_shared s m k = (
  first-All (λ x. is_session_of group x ≡ true) (λ x. true) _ s
      (All-order_by _ by_newest _ (select_holds (is_session_of group) sessions)) k,
  refl,
)
existing_session-IsFor sessions group mg thread shared s m k =
    let h = first-some (is_session_for group mg none) sessions s (ground arith) in
    (ground arith, ground arith)
existing_session-IsFor sessions group mg thread per_thread s m k =
    let h = first-some (is_session_for group mg thread) sessions s (ground arith) in
    (ground arith, ground arith)

-- A session that was resolved is found again: the same message with the same mode resolves to it,
-- and creates none, whatever id and time a new one would have got. The messaging group's id is not
-- empty, nor is the thread's.
pub resolve_session-again :
    (sessions : List Session) (group mg : String) (thread : Option String) (mode : SessionMode)
    (id id' : String) (now now' : ℕ) (r : Resolved)
    → (mg === "") ≡ false
    → opt_eq thread (some "") ≡ false
    → resolve_session sessions group (some mg) thread mode id now ≡ some r
    → resolve_session r.sessions group (some mg) thread mode id' now'
      ≡ some (record { sessions = r.sessions; session = r.session; created = false })
unfolding resolve_session
resolve_session-again sessions group mg thread mode id id' now now' r m t e =
    elim (resolve_session-cases sessions group mg thread mode id now r e) [
      | inl (s, k, q) ↦ rw (q, resolve_session, k) (rw q refl)
      | inr (k, q) ↦
          rw (q, resolve_session, existing_session-added sessions group mg thread mode id now m t k)
            (rw q refl)
    ]

-- The session that a message of an agent group and a messaging group resolves to is an active one of
-- that agent group, and of that messaging group unless the mode shares sessions across them. The
-- messaging group's id is not empty.
pub resolve_session-IsFor :
    (sessions : List Session) (group mg : String) (thread : Option String) (mode : SessionMode)
    (id : String) (now : ℕ) (r : Resolved)
    → (mg === "") ≡ false
    → resolve_session sessions group (some mg) thread mode id now ≡ some r
    → (is_session_of group r.session ≡ true)
      × ((is_agent_shared mode || opt_eq r.session.messaging_group_id (some mg)) ≡ true)
resolve_session-IsFor sessions group mg thread mode id now r m e =
    elim (resolve_session-cases sessions group mg thread mode id now r e) [
      | inl (s, k, q) ↦ rw q (existing_session-IsFor sessions group mg thread mode s m k)
      | inr (k, q) ↦ rw (q, ===_refl group, ===_refl mg) (refl, ground arith)
    ]

existing_session-group :
    (sessions : List Session) (group mg : String) (thread : Option String) (mode : SessionMode)
    (s : Session)
    → existing_session sessions group (some mg) thread mode ≡ some s
    → s.agent_group_id ≡ group
unfolding existing_session find_session_by_agent_group find_session_for_agent
existing_session-group sessions group mg thread agent_shared s k =
    let h =
      first-All (λ x. is_session_of group x ≡ true) (λ x. true) _ s
        (All-order_by _ by_newest _ (select_holds (is_session_of group) sessions)) k in
    (===_iff s.agent_group_id group).0 (&&-true _ _ h).0
existing_session-group sessions group mg thread shared s k =
    let h = first-some (is_session_for group mg none) sessions s (ground arith) in
    (===_iff s.agent_group_id group).0 (ground arith)
existing_session-group sessions group mg thread per_thread s k =
    let h = first-some (is_session_for group mg thread) sessions s (ground arith) in
    (===_iff s.agent_group_id group).0 (ground arith)

pub resolve_session-group :
    (sessions : List Session) (group mg : String) (thread : Option String) (mode : SessionMode)
    (id : String) (now : ℕ) (r : Resolved)
    → resolve_session sessions group (some mg) thread mode id now ≡ some r
    → r.session.agent_group_id ≡ group
resolve_session-group sessions group mg thread mode id now r e =
    elim (resolve_session-cases sessions group mg thread mode id now r e) [
      | inl (s, k, q) ↦ rw q (existing_session-group sessions group mg thread mode s k)
      | inr (k, q) ↦ rw q refl
    ]
