-- ===== src/Senders/Request.antt =====
-- The request for an approval (`src/modules/permissions/sender-approval.ts`) and whom it goes to
-- (`pickApprovalDelivery` of `src/modules/approvals/primitive.ts`). A request is taken to run to its end.
use lfontes_nanoclaw.Prelude.{
  ◌==◌, ◌===◌, if◌then◌else◌, or_else, length, select, String, Bool, ◌||◌, Option, none, some, List,
  [], ◌∷◌, ◌++◌,
}
use Prim.Native.String
use lfontes_nanoclaw.Permissions.{pick_approver}
use lfontes_nanoclaw.Router.State.{MessagingGroup, InboundEvent}
use lfontes_nanoclaw.Senders.{
  PendingSenderApproval, Card, Central, roster, SenderEnv, split_colon, get_messaging_group,
  has_in_flight_sender_approval, create_pending_sender_approval,
}
use lfontes_nanoclaw.Senders.Dm.{reached, unreachable, threw_dm, ensure_user_dm}

-- Where a request goes: an approver with a chat, nobody, or an exception.
pub data ApprovalTarget : Type 0 where
  approver_at : String → MessagingGroup → ApprovalTarget
  nobody threw_target : ApprovalTarget

-- A loop over approvers: the first one that is reached.
unfoldable pub first_reached : SenderEnv → Central → List String → Central × ApprovalTarget
unfolding ensure_user_dm
first_reached env db [] = (db, nobody)
first_reached env db (user_id ∷ approvers) =
    let (db', dm) = ensure_user_dm env db user_id in
    let rest = first_reached env db' approvers in
    elim dm [
      | reached mg ↦ (db', approver_at user_id mg)
      | threw_dm ↦ (db', threw_target)
      | unreachable ↦ rest
    ]

unfoldable pub channel_type_of : String → String
unfolding split_colon
channel_type_of user_id = elim (split_colon user_id) [ none ↦ "" | some r ↦ r.0 ]

-- The approvers on the origin channel first, then all of them.
unfoldable pub pick_approval_delivery :
    SenderEnv → Central → List String → String → Central × ApprovalTarget
unfolding first_reached channel_type_of
pick_approval_delivery env db approvers origin =
    let (db', target) =
      first_reached env db
        (if origin === "" then [] else select (λ u. channel_type_of u === origin) approvers) in
    elim target [
      | approver_at user_id mg ↦ (db', approver_at user_id mg)
      | threw_target ↦ (db', threw_target)
      | nobody ↦ first_reached env db' approvers
    ]

pub record RequestSenderApproval : Type 0 where
  pub messaging_group_id : String
  pub agent_group_id : String
  pub sender_identity : String
  pub sender_name : Option String
  pub event : InboundEvent

abbrev pub origin_channel : Option MessagingGroup → String
origin_channel none = ""
origin_channel (some mg) = mg.channel_type

abbrev origin_name : Option MessagingGroup → String
origin_name none = "a  channel"
origin_name (some mg) = or_else mg.name (String.◌++◌ "a " (String.◌++◌ mg.channel_type " channel"))

abbrev sender_display : RequestSenderApproval → String
sender_display input = elim input.sender_name [
  | none ↦ input.sender_identity
  | some name ↦ if name === "" then input.sender_identity else name
]

abbrev pub approval_title : String
approval_title = "👤 New sender"

abbrev pub approval_row : SenderEnv → RequestSenderApproval → String → PendingSenderApproval
approval_row env input approver = record {
  id = env.approval_id;
  messaging_group_id = input.messaging_group_id;
  agent_group_id = input.agent_group_id;
  sender_identity = input.sender_identity;
  sender_name = input.sender_name;
  original_message = env.stringify_event input.event;
  approver_user_id = approver;
  created_at = env.now;
  title = approval_title;
  options_json = env.approval_options;
}

abbrev approval_card :
    SenderEnv → RequestSenderApproval → Option MessagingGroup → MessagingGroup → Card
approval_card env input origin mg = record {
  channel_type = mg.channel_type;
  platform_id = mg.platform_id;
  question_id = env.approval_id;
  title = approval_title;
  question = String.◌++◌ (sender_display input) (
      String.◌++◌ " wants to talk to your agent in " (String.◌++◌ (origin_name origin) ". Allow?"));
}

-- The row, and then the card, whose delivery may fail without a consequence.
unfoldable pub ask_approver :
    SenderEnv
    → Central
    → RequestSenderApproval
    → Option MessagingGroup
    → String
    → MessagingGroup
    → Central
unfolding create_pending_sender_approval
ask_approver env db input origin approver mg =
    elim (create_pending_sender_approval db (approval_row env input approver)) [
      | none ↦ db
      | some db' ↦
          if env.has_delivery_adapter
          then record db' { cards = db'.cards ++ approval_card env input origin mg ∷ [] }
          else db'
    ]

unfoldable pub seek_approver : SenderEnv → Central → RequestSenderApproval → List String → Central
unfolding get_messaging_group pick_approval_delivery ask_approver
seek_approver env db input approvers =
    let origin = get_messaging_group db input.messaging_group_id in
    let (db', target) = pick_approval_delivery env db approvers (origin_channel origin) in
    elim target [
      | approver_at user_id mg ↦ ask_approver env db' input origin user_id mg
      | nobody ↦ db'
      | threw_target ↦ db'
    ]

-- A card is on its way, or there is nobody to ask.
abbrev pub is_skipped : Central → RequestSenderApproval → List String → Bool
is_skipped db input approvers =
    has_in_flight_sender_approval db input.messaging_group_id input.sender_identity
    || length approvers == 0

-- What it throws is caught and logged by its caller.
unfoldable pub request_sender_approval : SenderEnv → Central → RequestSenderApproval → Central
unfolding has_in_flight_sender_approval pick_approver seek_approver
request_sender_approval env db input =
    let approvers = pick_approver (roster db) (some input.agent_group_id) in
    if is_skipped db input approvers then db else seek_approver env db input approvers
