-- ===== src/Tests/Session.antt =====
-- Sessions resolved at concrete tables.
use lfontes_nanoclaw.Prelude.{opt_eq, first, ◌≡◌, refl, true, false, ◌||◌, none, some, [], ◌∷◌}
use lfontes_nanoclaw.Sessions.{
  per_thread, Session, Resolved, resolve_session, new_session, is_session_of, create_session,
  existing_session, find_session_for_agent,
}
use lfontes_nanoclaw.Sessions.Resolve.{
  is_agent_shared, resolve_session-again, resolve_session-IsFor,
}

abbrev other_session : Session
other_session = new_session "sess-1" 10 "ag-2" (some "mg-1") none

abbrev thread_session : Session
thread_session = new_session "sess-2" 20 "ag-1" (some "mg-1") (some "1700.1")

abbrev resolved : Resolved
resolved = record {
  sessions = other_session ∷ thread_session ∷ [];
  session = thread_session;
  created = true;
}

resolve_session-again_example :
    resolve_session resolved.sessions "ag-1" (some "mg-1") (some "1700.1") per_thread "sess-3" 30
    ≡ some (record { sessions = resolved.sessions; session = resolved.session; created = false })
unfolding resolve_session create_session existing_session find_session_for_agent first
resolve_session-again_example =
    resolve_session-again (other_session ∷ []) "ag-1" "mg-1" (some "1700.1") per_thread "sess-2"
      "sess-3" 20 30 resolved refl refl refl

resolve_session-IsFor_example :
    (is_session_of "ag-1" resolved.session ≡ true)
    × ((is_agent_shared per_thread || opt_eq resolved.session.messaging_group_id (some "mg-1"))
        ≡ true)
unfolding resolve_session create_session existing_session find_session_for_agent first
resolve_session-IsFor_example =
    resolve_session-IsFor (other_session ∷ []) "ag-1" "mg-1" (some "1700.1") per_thread "sess-2" 20
      resolved refl refl
