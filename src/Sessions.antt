-- ===== src/Sessions.antt =====
-- Sessions of the central database and how one is found for a message (`src/db/sessions.ts`, and
-- `resolveSession` of `src/session-manager.ts`).
pub mod Resolve
use lfontes_nanoclaw.Prelude.{
  ltb, leb, ◌==◌, ◌===◌, if◌then◌else◌, ltb→lt, leb→le, ==_iff, ===_iff, ===_refl, Bool-cases,
  Option-cases, &&-true, is_some, opt_eq, opt_eq_refl, opt_eq_iff, or_else, length, take, any, all,
  All, All-imp, All-and, All-append, All-take, length-append, length-take-le, In, All-In, In-All,
  any-In, In-append_left, In-append_right, In-map, select, first, update, delete, max_of, insert_by,
  order_by, All-select, All-delete, All-update, All-insert_by, All-order_by, select_holds,
  delete_fails, le-max_of, any-false, first-some, first-none, first-none_of, select-update_outside,
  map-update, update_twice, update_clears, select-append, any-append, any-update, length-update,
  update_congr, update_idempotent, select_none, update_union, update_same, ℕ, zero, suc, ◌+◌, ◌-◌,
  ◌*◌, ◌/◌, ◌%◌, ◌^◌, ◌≤◌, ◌<◌, min, max, String, ◌≡◌, refl, sym, ap, ◌∙◌, ◌≢◌, ◌↔◌, ◌⊎◌, inl, inr,
  Bool, true, false, ◌&&◌, ◌||◌, not, Option, none, some, List, [], ◌∷◌, ◌++◌, map, reverse, arith,
}

pub data SessionMode : Type 0 where
  shared per_thread agent_shared : SessionMode

pub data SessionStatus : Type 0 where
  active closed : SessionStatus

pub data ContainerStatus : Type 0 where
  running idle stopped : ContainerStatus

pub record Session : Type 0 where
  pub id : String
  pub agent_group_id : String
  pub messaging_group_id : Option String
  pub thread_id : Option String
  pub agent_provider : Option String
  pub status : SessionStatus
  pub container_status : ContainerStatus
  pub last_active : Option ℕ
  pub created_at : ℕ

abbrev pub is_active : SessionStatus → Bool
is_active active = true
is_active closed = false

-- A JavaScript string or null that is taken for true, which '' is not.
abbrev pub is_truthy : Option String → Bool
is_truthy none = false
is_truthy (some s) = not (s === "")

-- INSERT; the id is the primary key.
unfoldable pub create_session : List Session → Session → Option (List Session)
create_session sessions session =
    if any (λ (s : Session). s.id === session.id) sessions
    then none
    else some (sessions ++ session ∷ [])

unfoldable pub get_session : List Session → String → Option Session
get_session sessions id = first (λ (s : Session). s.id === id) sessions

abbrev pub is_of_thread : Option String → Session → Bool
is_of_thread thread_id s =
    if is_truthy thread_id then opt_eq s.thread_id thread_id else not (is_some s.thread_id)

abbrev pub is_session_for : String → String → Option String → Session → Bool
is_session_for agent_group_id messaging_group_id thread_id s =
    s.agent_group_id === agent_group_id
    && opt_eq s.messaging_group_id (some messaging_group_id)
    && is_of_thread thread_id s
    && is_active s.status

unfoldable pub find_session_for_agent :
    List Session → String → String → Option String → Option Session
find_session_for_agent sessions agent_group_id messaging_group_id thread_id =
    first (is_session_for agent_group_id messaging_group_id thread_id) sessions

abbrev pub is_session_of : String → Session → Bool
is_session_of agent_group_id s = s.agent_group_id === agent_group_id && is_active s.status

abbrev pub by_newest : Session → Session → Bool
by_newest a b = leb b.created_at a.created_at

-- ORDER BY created_at DESC LIMIT 1
unfoldable pub find_session_by_agent_group : List Session → String → Option Session
find_session_by_agent_group sessions agent_group_id =
    first (λ s. true) (order_by by_newest (select (is_session_of agent_group_id) sessions))

unfoldable pub get_active_sessions : List Session → List Session
get_active_sessions sessions = select (λ s. is_active s.status) sessions

unfoldable pub delete_session : List Session → String → List Session
delete_session sessions id = delete (λ (s : Session). s.id === id) sessions

abbrev pub or_null : SessionMode → Option String → Option String
or_null shared thread_id = none
or_null _ thread_id = thread_id

abbrev pub thread_to_store : SessionMode → Option String → Option String
thread_to_store per_thread thread_id = thread_id
thread_to_store _ thread_id = none

unfoldable pub existing_session :
    List Session → String → Option String → Option String → SessionMode → Option Session
existing_session sessions agent_group_id messaging_group_id thread_id agent_shared =
    find_session_by_agent_group sessions agent_group_id
existing_session sessions agent_group_id none thread_id _ = none
existing_session sessions agent_group_id (some mg) thread_id mode =
    if mg === ""
    then none
    else find_session_for_agent sessions agent_group_id mg (or_null mode thread_id)

abbrev pub new_session : String → ℕ → String → Option String → Option String → Session
new_session id now agent_group_id messaging_group_id thread_id = record {
  id = id;
  agent_group_id = agent_group_id;
  messaging_group_id = messaging_group_id;
  thread_id = thread_id;
  agent_provider = none;
  status = active;
  container_status = stopped;
  last_active = none;
  created_at = now;
}

pub record Resolved : Type 0 where
  pub sessions : List Session
  pub session : Session
  pub created : Bool

-- `id` and `now` are what `generateId` and the clock give. `none` where the INSERT throws.
unfoldable pub resolve_session :
    List Session
    → String
    → Option String
    → Option String
    → SessionMode
    → String
    → ℕ
    → Option Resolved
resolve_session sessions agent_group_id messaging_group_id thread_id mode id now =
    let session =
      new_session id now agent_group_id messaging_group_id (thread_to_store mode thread_id) in
    elim (existing_session sessions agent_group_id messaging_group_id thread_id mode) [
      | some s ↦ some (record { sessions = sessions; session = s; created = false })
      | none ↦ elim (create_session sessions session) [
        | none ↦ none
        | some db ↦ some (record { sessions = db; session = session; created = true })
      ]
    ]
