-- ===== src/Senders/Gates.antt =====
-- The sender resolver and the two gates that the permissions module gives the router, and the answers
-- to its cards (`src/modules/permissions/index.ts`).
use lfontes_nanoclaw.Prelude.{
  ◌===◌, if◌then◌else◌, is_some, String, Bool, true, false, ◌&&◌, not, Option, none, some,
}
use lfontes_nanoclaw.Permissions.{is_allowed, can_access_agent_group}
use lfontes_nanoclaw.Router.State.{
  all_senders, known_senders, UnknownSenderPolicy, strict, request_approval, public_senders,
  MessagingGroup, MessagingGroupAgent, InboundEvent, UnregisteredSender, Tables, Hooks,
  record_dropped_message,
}
use lfontes_nanoclaw.Senders.{
  Central, roster, SenderContent, SenderEnv, namespaced, get_user, upsert_user,
}
use lfontes_nanoclaw.Senders.Request.{RequestSenderApproval, request_sender_approval}

-- `a ?? b`
abbrev coalesce : Option String → Option String → Option String
coalesce none b = b
coalesce (some a) b = some a

-- A string that is neither null nor empty.
abbrev truthy : Option String → Option String
truthy none = none
truthy (some s) = if s === "" then none else some s

abbrev raw_handle : SenderContent → Option String
raw_handle c = truthy (coalesce c.sender_id (coalesce c.sender c.author_user_id))

abbrev name_of : SenderContent → Option String
name_of c = coalesce c.sender_name (coalesce c.author_full_name c.author_user_name)

-- The user id of an event.
unfoldable pub sender_of : SenderEnv → InboundEvent → Option String
unfolding namespaced
sender_of env event = elim (env.parse_sender event.content) [
  | none ↦ none
  | some c ↦ elim (raw_handle c) [
    | none ↦ none
    | some handle ↦ some (namespaced event.channel_type handle)
  ]
]

abbrev display_name_of : SenderEnv → InboundEvent → Option String
display_name_of env event = elim (env.parse_sender event.content) [
  | none ↦ none
  | some c ↦ name_of c
]

unfoldable pub extract_and_upsert_user :
    SenderEnv → Central → InboundEvent → Central × Option String
unfolding sender_of get_user upsert_user
extract_and_upsert_user env db event = elim (sender_of env event) [
  | none ↦ (db, none)
  | some user_id ↦ (
    if is_some (get_user db user_id)
        then db
        else upsert_user db (record {
          id = user_id;
          kind = event.channel_type;
          display_name = display_name_of env event;
        }),
    some user_id,
  )
]

abbrev policy_reason : UnknownSenderPolicy → String
policy_reason strict = "unknown_sender_strict"
policy_reason request_approval = "unknown_sender_request_approval"
policy_reason public_senders = "unknown_sender_public"

-- `parsed.sender ?? null`
abbrev sender_field : SenderEnv → InboundEvent → Option String
sender_field env event = elim (env.parse_sender event.content) [ none ↦ none | some c ↦ c.sender ]

abbrev pub unknown_sender_record :
    SenderEnv → MessagingGroup → Option String → String → InboundEvent → UnregisteredSender
unknown_sender_record env mg user_id agent_group_id event = record {
  channel_type = event.channel_type;
  platform_id = event.platform_id;
  user_id = user_id;
  sender_name = sender_field env event;
  reason = policy_reason mg.unknown_sender_policy;
  messaging_group_id = some mg.id;
  agent_group_id = some agent_group_id;
  message_count = 1;
  first_seen = env.now;
  last_seen = env.now;
}

abbrev pub request_for :
    SenderEnv → MessagingGroup → String → String → InboundEvent → RequestSenderApproval
request_for env mg user_id agent_group_id event = record {
  messaging_group_id = mg.id;
  agent_group_id = agent_group_id;
  sender_identity = user_id;
  sender_name = sender_field env event;
  event = event;
}

abbrev pub request_if_known :
    SenderEnv → Central → MessagingGroup → Option String → String → InboundEvent → Central
request_if_known env db mg none agent_group_id event = db
request_if_known env db mg (some user_id) agent_group_id event =
    if user_id === ""
    then db
    else request_sender_approval env db (request_for env mg user_id agent_group_id event)

unfoldable pub handle_unknown_sender :
    SenderEnv
    → Tables Central
    → MessagingGroup
    → Option String
    → String
    → InboundEvent
    → Tables Central
unfolding record_dropped_message request_sender_approval
handle_unknown_sender env tables mg user_id agent_group_id event =
    let rows =
      record_dropped_message tables.unregistered_senders
        (unknown_sender_record env mg user_id agent_group_id event) in
    elim mg.unknown_sender_policy [
      | strict ↦ record tables { unregistered_senders = rows }
      | request_approval ↦ record {
        unregistered_senders = rows;
        world = request_if_known env tables.world mg user_id agent_group_id event;
      }
      | public_senders ↦ tables
    ]

-- A sender without access, whom the gate gives to `handleUnknownSender`.
abbrev pub refuse_sender :
    SenderEnv
    → Tables Central
    → InboundEvent
    → Option String
    → MessagingGroup
    → String
    → Tables Central × Bool
refuse_sender env tables event user_id mg agent_group_id =
    (handle_unknown_sender env tables mg user_id agent_group_id event, false)

abbrev pub check_access :
    SenderEnv
    → Tables Central
    → InboundEvent
    → Option String
    → MessagingGroup
    → String
    → Tables Central × Bool
check_access env tables event none mg agent_group_id =
    refuse_sender env tables event none mg agent_group_id
check_access env tables event (some user_id) mg agent_group_id =
    if user_id === ""
    then refuse_sender env tables event none mg agent_group_id
    else if is_allowed (can_access_agent_group (roster tables.world) user_id agent_group_id)
    then (tables, true)
    else refuse_sender env tables event (some user_id) mg agent_group_id

abbrev pub is_public : UnknownSenderPolicy → Bool
is_public public_senders = true
is_public _ = false

unfoldable pub access_gate :
    SenderEnv
    → Tables Central
    → InboundEvent
    → Option String
    → MessagingGroup
    → String
    → Tables Central × Bool
unfolding handle_unknown_sender can_access_agent_group
access_gate env tables event user_id mg agent_group_id =
    if is_public mg.unknown_sender_policy
    then (tables, true)
    else check_access env tables event user_id mg agent_group_id

abbrev pub known_in : Central → Option String → String → Bool
known_in db none agent_group_id = false
known_in db (some user_id) agent_group_id =
    not (user_id === "") && is_allowed (can_access_agent_group (roster db) user_id agent_group_id)

unfoldable pub sender_scope_gate :
    Tables Central
    → InboundEvent
    → Option String
    → MessagingGroup
    → MessagingGroupAgent
    → Tables Central × Bool
unfolding can_access_agent_group
sender_scope_gate tables event user_id mg agent = elim agent.sender_scope [
  | all_senders ↦ (tables, true)
  | known_senders ↦ (tables, known_in tables.world user_id agent.agent_group_id)
]

abbrev pub resolve_sender_in :
    SenderEnv → Tables Central → InboundEvent → Tables Central × Option String
resolve_sender_in env tables event =
    let (db, user_id) = extract_and_upsert_user env tables.world event in
    (record tables { world = db }, user_id)

-- The hooks that the module registers, next to those of the registration of channels.
unfoldable pub with_gates : SenderEnv → Hooks Central → Hooks Central
unfolding extract_and_upsert_user access_gate sender_scope_gate
with_gates env hooks = record hooks {
  sender_resolver = some (resolve_sender_in env);
  access_gate = some (access_gate env);
  sender_scope_gate = some sender_scope_gate;
}
