-- ===== src/Delivery/State.antt =====
-- The tables, parameters and results of the delivery (`src/delivery.ts`), and the questions that it
-- keeps (`src/channels/ask-question.ts`).
use lfontes_nanoclaw.Prelude.{or_else, ℕ, String, Bool, Option, List, map}
use lfontes_nanoclaw.SessionDb.{OutDb, MessageOut}
use lfontes_nanoclaw.Sessions.{Session}
use lfontes_nanoclaw.Router.State.{RouterDb, Env}
use lfontes_nanoclaw.AgentToAgent.Destinations.{AgentDestination}
use lfontes_nanoclaw.AgentToAgent.Files.{AgentEnv}

-- An option of a question, and the shape that it is stored in (`src/channels/ask-question.ts`).
pub data RawOption : Type 0 where
  text : String → RawOption
  input : String → Option String → Option String → RawOption

pub record NormalizedOption : Type 0 where
  pub label : String
  pub selected_label : String
  pub value : String

unfoldable pub normalize_option : RawOption → NormalizedOption
normalize_option (text raw) = record { label = raw; selected_label = raw; value = raw }
normalize_option (input label selected_label value) = record {
  label = label;
  selected_label = or_else selected_label label;
  value = or_else value label;
}

unfoldable pub normalize_options : List RawOption → List NormalizedOption
normalize_options raws = map normalize_option raws

pub record PendingQuestion : Type 0 where
  pub question_id : String
  pub session_id : String
  pub message_out_id : String
  pub platform_id : Option String
  pub channel_type : Option String
  pub thread_id : Option String
  pub title : String
  pub options : List NormalizedOption
  pub created_at : ℕ

-- A message's content as `JSON.parse` reads it; a field is `none` where it is missing or null.
-- `options` is `none` too where it is no array.
pub record OutContent : Type 0 where
  pub action : String
  pub type : String
  pub question_id : Option String
  pub title : Option String
  pub options : Option (List RawOption)

-- The outbound.db of a session, by the two ids in its path.
pub record Outbox : Type 0 where
  pub agent_group_id : String
  pub session_id : String
  pub out_db : OutDb

-- A call of the channel adapter, whether it returned or threw.
pub record Sent : Type 0 where
  pub agent_group_id : String
  pub session_id : String
  pub message_id : String
  pub channel_type : String
  pub platform_id : String
  pub thread_id : Option String
  pub content : String

-- What the delivery shares with the rest of the host. A table is `none` where its module is not
-- installed.
pub record Shared (W : Type 0) : Type 0 where
  pub host : RouterDb W
  pub destinations : Option (List AgentDestination)
  pub pending_questions : Option (List PendingQuestion)

pub record DeliveryDb (W : Type 0) : Type 0 where
  pub shared : Shared W
  pub outboxes : List Outbox
  pub delivery_attempts : List (String × ℕ)
  pub inflight_deliveries : List String
  pub sent : List Sent

-- What a call came to: the state, and `none` where it threw, else the platform's id if there is one.
pub record Delivery (W : Type 0) : Type 0 where
  pub db : DeliveryDb W
  pub outcome : Option (Option String)

-- The parameters: the channel adapter (`none`: not set yet; its answer is `none` where it throws; the
-- files of the outbox that it is handed are part of it),
-- the registered handlers of system actions, JSON, and those of the routing between agents.
pub record DeliveryEnv (W : Type 0) : Type 0 where
  pub env : Env
  pub agent_env : MessageOut → AgentEnv
  pub adapter : Option (W → MessageOut → W × Option (Option String))
  pub action_handler : String → Option (Shared W → Session → OutContent → Shared W × Bool)
  pub parse : String → Option OutContent
