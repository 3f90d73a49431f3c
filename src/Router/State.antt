-- ===== src/Router/State.antt =====
-- The tables, hooks and events of the inbound router (`src/router.ts`, `src/types.ts`,
-- `src/channels/adapter.ts`, `src/db/messaging-groups.ts`, `src/db/dropped-messages.ts`).
use lfontes_nanoclaw.Prelude.{
  leb, ◌===◌, if◌then◌else◌, length, any, select, first, update, order_by, ℕ, ◌+◌, String, Bool,
  ◌&&◌, ◌||◌, Option, none, some, List, [], ◌∷◌, ◌++◌,
}
use lfontes_nanoclaw.Text.{Text, Content}
use lfontes_nanoclaw.SessionDb.{InDb}
use lfontes_nanoclaw.Permissions.{UserRole}
use lfontes_nanoclaw.Sessions.{SessionMode, Session}

pub data EngageMode : Type 0 where
  pattern mention mention_sticky other_mode : EngageMode

pub data SenderScope : Type 0 where
  all_senders known_senders : SenderScope

pub data IgnoredMessagePolicy : Type 0 where
  drop accumulate : IgnoredMessagePolicy

pub data UnknownSenderPolicy : Type 0 where
  strict request_approval public_senders : UnknownSenderPolicy

-- `is_group` is 0 or 1.
pub record MessagingGroup : Type 0 where
  pub id : String
  pub channel_type : String
  pub platform_id : String
  pub name : Option String
  pub is_group : Bool
  pub unknown_sender_policy : UnknownSenderPolicy
  pub denied_at : Option ℕ
  pub created_at : ℕ

pub record MessagingGroupAgent : Type 0 where
  pub id : String
  pub messaging_group_id : String
  pub agent_group_id : String
  pub engage_mode : EngageMode
  pub engage_pattern : Option String
  pub sender_scope : SenderScope
  pub ignored_message_policy : IgnoredMessagePolicy
  pub session_mode : SessionMode
  pub priority : ℕ
  pub created_at : ℕ

pub record DeliveryAddress : Type 0 where
  pub channel_type : String
  pub platform_id : String
  pub thread_id : Option String

pub record InboundEvent : Type 0 where
  pub channel_type : String
  pub platform_id : String
  pub thread_id : Option String
  pub message_id : String
  pub kind : String
  pub content : String
  pub timestamp : ℕ
  pub is_mention : Option Bool
  pub is_group : Option Bool
  pub reply_to : Option DeliveryAddress

pub record UnregisteredSender : Type 0 where
  pub channel_type : String
  pub platform_id : String
  pub user_id : Option String
  pub sender_name : Option String
  pub reason : String
  pub messaging_group_id : Option String
  pub agent_group_id : Option String
  pub message_count : ℕ
  pub first_seen : ℕ
  pub last_seen : ℕ

-- The inbound.db of a session, by the two ids in its path.
pub record Inbox : Type 0 where
  pub agent_group_id : String
  pub session_id : String
  pub in_db : InDb

-- What the router asks of the adapter, the typing indicator, the container runner and the
-- permissions module, in order.
pub data Effect : Type 0 where
  subscribe : String → Option String → Effect
  start_typing stop_typing wake_container : String → Effect
  request_channel pause_typing : String → Effect
  copy_file : String → String → String → Effect

-- What the hooks read and write: the drop records, and a world of their own.
pub record Tables (W : Type 0) : Type 0 where
  pub unregistered_senders : List UnregisteredSender
  pub world : W

pub record RouterDb (W : Type 0) : Type 0 where
  pub messaging_groups : List MessagingGroup
  pub messaging_group_agents : List MessagingGroupAgent
  pub agent_groups : List String
  pub user_roles : Option (List UserRole)
  pub sessions : List Session
  pub inboxes : List Inbox
  pub tables : Tables W
  pub effects : List Effect

pub record Adapter : Type 0 where
  pub supports_threads : Bool
  pub has_subscribe : Bool

-- The registered hooks, each `none` where no module has registered one.
pub record Hooks (W : Type 0) : Type 0 where
  pub message_interceptor : Option (Tables W → InboundEvent → Tables W × Bool)
  pub sender_resolver : Option (Tables W → InboundEvent → Tables W × Option String)
  pub access_gate :
      Option (Tables W → InboundEvent → Option String → MessagingGroup → String → Tables W × Bool)
  pub sender_scope_gate : Option (
      Tables W
      → InboundEvent
      → Option String
      → MessagingGroup
      → MessagingGroupAgent
      → Tables W × Bool)
  pub has_channel_request_gate : Bool

-- The parameters: adapters, regular expressions, JSON, attachments, generated ids, the clock, and
-- whether a container starts.
pub record Env : Type 0 where
  pub get_channel_adapter : String → Option Adapter
  pub regex_test : String → Text → Option Bool
  pub parse : String → Content
  pub sender_name : String → Option String
  pub extract_attachment_files : String → String → String → String → String
  pub messaging_group_id : String
  pub session_id : MessagingGroupAgent → String
  pub message_id : MessagingGroupAgent → String
  pub now : ℕ
  pub wakes : Session → Bool

-- ON CONFLICT (channel_type, platform_id) DO UPDATE
unfoldable pub record_dropped_message :
    List UnregisteredSender → UnregisteredSender → List UnregisteredSender
record_dropped_message rows msg =
    let same = λ (r : UnregisteredSender).
      r.channel_type === msg.channel_type && r.platform_id === msg.platform_id in
    if any same rows
    then update same
        (λ r. record r {
          user_id = elim msg.user_id [ none ↦ r.user_id | some u ↦ some u ];
          sender_name = elim msg.sender_name [ none ↦ r.sender_name | some n ↦ some n ];
          reason = msg.reason;
          message_count = r.message_count + 1;
          last_seen = msg.last_seen;
        })
        rows
    else rows ++ msg ∷ []

-- INSERT, under PRIMARY KEY (id) and UNIQUE (channel_type, platform_id).
unfoldable pub create_messaging_group :
    List MessagingGroup → MessagingGroup → Option (List MessagingGroup)
create_messaging_group groups g =
    if any
      (λ (x : MessagingGroup).
        x.id === g.id || (x.channel_type === g.channel_type && x.platform_id === g.platform_id))
      groups
    then none
    else some (groups ++ g ∷ [])

unfoldable pub get_messaging_group_agents :
    List MessagingGroupAgent → String → List MessagingGroupAgent
get_messaging_group_agents agents messaging_group_id =
    order_by (λ (a b : MessagingGroupAgent). leb b.priority a.priority)
      (select (λ (a : MessagingGroupAgent). a.messaging_group_id === messaging_group_id) agents)

unfoldable pub get_messaging_group_with_agent_count :
    List MessagingGroup → List MessagingGroupAgent → String → String → Option (MessagingGroup × ℕ)
get_messaging_group_with_agent_count groups agents channel_type platform_id =
    elim (first
      (λ (g : MessagingGroup). g.channel_type === channel_type && g.platform_id === platform_id)
      groups) [
        | none ↦ none
        | some g ↦
            some (
              g,
              length (select (λ (a : MessagingGroupAgent). a.messaging_group_id === g.id) agents),
            )
      ]
