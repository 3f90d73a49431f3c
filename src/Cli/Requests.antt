-- ===== src/Cli/Requests.antt =====
-- A request of an agent, as it comes through outbound.db (`src/cli/delivery-action.ts`), and one that an
-- administrator has approved (the handler at the end of `src/cli/dispatch.ts`).
use Prim.Native.String.{◌++◌ as string_append}
use lfontes_nanoclaw.Prelude.{
  ◌===◌, if◌then◌else◌, or_else, ℕ, String, Bool, true, false, ◌||◌, Option, none, some,
}
use lfontes_nanoclaw.SessionDb.{InDb, NewMessage, insert_message}
use lfontes_nanoclaw.Sessions.{Session}
use lfontes_nanoclaw.Cli.{Args, Caller, host, agent, Request, Response, ok, rejected}
use lfontes_nanoclaw.Cli.Dispatch.{DispatchEnv, dispatch}

-- What a handler of delivery actions leaves, and whether it threw.
pub record Answered (W : Type 0) : Type 0 where
  pub state : W
  pub in_db : InDb
  pub threw : Bool

abbrev pub caller_of : Session → Caller
caller_of session = agent (record {
  session_id = session.id;
  agent_group_id = session.agent_group_id;
  messaging_group_id = or_else session.messaging_group_id "";
})

abbrev pub cli_response : ℕ → String → String → NewMessage
cli_response now request_id content = record {
  id = string_append "cli-resp-" request_id;
  kind = "system";
  timestamp = now;
  platform_id = none;
  channel_type = none;
  thread_id = none;
  content = content;
  process_after = none;
  recurrence = none;
  trigger = some false;
  source_session_id = none;
  on_wake = none;
}

abbrev pub is_ok : Response → Bool
is_ok (ok found) = true
is_ok _ = false

module _ {W : Type 0} where
  abbrev pub respond : (String → Response → String) → ℕ → InDb → String → W × Response → Answered W
  respond stringify now in_db request_id (w, rejected) = record {
    state = w;
    in_db = in_db;
    threw = true;
  }
  respond stringify now in_db request_id (w, response) =
      elim (insert_message in_db (cli_response now request_id (stringify request_id response))) [
        | none ↦ record { state = w; in_db = in_db; threw = true }
        | some in_db' ↦ record { state = w; in_db = in_db'; threw = false }
      ]

  -- A request without an id or a command is passed over. `stringify` is the JSON of the response.
  unfoldable pub cli_request :
      DispatchEnv W
      → (String → Response → String)
      → ℕ
      → W
      → InDb
      → Session
      → String
      → String
      → Args
      → Answered W
  unfolding dispatch insert_message
  cli_request env stringify now w in_db session request_id command args =
      if request_id === "" || command === ""
      then record { state = w; in_db = in_db; threw = false }
      else respond stringify now in_db request_id (
          dispatch env w (record { id = request_id; command = command; args = args })
            (caller_of session))

  -- The state, and whether the session is notified of a success; `none` where the dispatch threw.
  unfoldable pub run_approved : DispatchEnv W → W → Request → W × Option Bool
  unfolding dispatch
  run_approved env w frame =
      let response = dispatch env w frame host in
      (response.0, elim response.1 [ rejected ↦ none | r ↦ some (is_ok r) ])
