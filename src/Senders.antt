-- ===== src/Senders.antt =====
-- The approval of unknown senders: its tables and their operations (`src/modules/permissions/db`:
-- `users.ts`, `user-dms.ts`, `pending-sender-approvals.ts`; `src/db/messaging-groups.ts`).
pub mod Dm
pub mod Request
pub mod Gates
pub mod Answers
pub mod Ranks
pub mod GateRanks
pub mod KeptOut
pub mod Outsiders
pub mod Approved
pub mod Admitted
use lfontes_nanoclaw.Prelude.{
  ltb, leb, ◌==◌, ◌===◌, if◌then◌else◌, ltb→lt, leb→le, ==_iff, ===_iff, ===_refl, Bool-cases,
  Option-cases, &&-true, is_some, opt_eq, opt_eq_refl, opt_eq_iff, or_else, length, take, drop, any,
  all, All, All-imp, All-and, All-append, All-take, length-append, length-take-le, In, All-In,
  In-All, any-In, In-append_left, In-append_right, In-map, select, first, update, delete, max_of,
  insert_by, order_by, All-select, All-delete, All-update, All-insert_by, All-order_by,
  select_holds, In-select, first-In, delete-append, select-delete, select-delete_inside,
  delete_none, any-delete, any-none, delete_fails, le-max_of, any-false, first-some, first-All,
  first_added, some_injective, some≢none, true≢false, first-none, first-none_of,
  select-update_outside, map-update, update_twice, update_clears, select-append, any-append,
  any-update, length-update, update_congr, update_idempotent, select_none, update_union,
  update_same, ℕ, zero, suc, ◌+◌, ◌-◌, ◌*◌, ◌/◌, ◌%◌, ◌^◌, ◌≤◌, ◌<◌, min, max, String, ◌≡◌, refl,
  sym, ap, ◌∙◌, ◌≢◌, ◌↔◌, ◌⊎◌, inl, inr, Bool, true, false, ◌&&◌, ◌||◌, not, Option, none, some,
  List, [], ◌∷◌, ◌++◌, map, reverse, arith,
}
use Prim.Native.Char.{code}
use Prim.Native.String
use lfontes_nanoclaw.Permissions.{UserRole, AgentGroupMember, Roster}
use lfontes_nanoclaw.Router.State.{MessagingGroup, InboundEvent}

pub record User : Type 0 where
  pub id : String
  pub kind : String
  pub display_name : Option String

pub record UserDm : Type 0 where
  pub user_id : String
  pub channel_type : String
  pub messaging_group_id : String
  pub resolved_at : ℕ

pub record PendingSenderApproval : Type 0 where
  pub id : String
  pub messaging_group_id : String
  pub agent_group_id : String
  pub sender_identity : String
  pub sender_name : Option String
  pub original_message : String
  pub approver_user_id : String
  pub created_at : ℕ
  pub title : String
  pub options_json : String

-- What `adapter.deliver` is given for a question.
pub record Card : Type 0 where
  pub channel_type : String
  pub platform_id : String
  pub question_id : String
  pub title : String
  pub question : String

-- The tables of the central database as the module sees them, and the cards it has sent.
pub record Central : Type 0 where
  pub users : List User
  pub agent_groups : List String
  pub user_roles : List UserRole
  pub agent_group_members : List AgentGroupMember
  pub messaging_groups : List MessagingGroup
  pub user_dms : List UserDm
  pub pending_sender_approvals : List PendingSenderApproval
  pub cards : List Card

-- The tables that the access functions read.
abbrev pub roster : Central → Roster
roster db = record {
  users = map (λ (u : User). u.id) db.users;
  agent_groups = db.agent_groups;
  user_roles = db.user_roles;
  agent_group_members = db.agent_group_members;
}

-- The fields of a message that `JSON.parse` finds as strings, at the top and under `author`.
pub record SenderContent : Type 0 where
  pub sender_id : Option String
  pub sender : Option String
  pub sender_name : Option String
  pub author_user_id : Option String
  pub author_full_name : Option String
  pub author_user_name : Option String

-- An adapter by its `openDM`, if it has one: `none` where it answers null or throws.
pub record DmAdapter : Type 0 where
  pub open_dm : Option (String → Option String)

-- The parameters: JSON, the adapters, the generated ids and the clock. `parse_sender` is `none` for
-- a content that does not parse.
pub record SenderEnv : Type 0 where
  pub parse_sender : String → Option SenderContent
  pub stringify_event : InboundEvent → String
  pub parse_event : String → Option InboundEvent
  pub get_channel_adapter : String → Option DmAdapter
  pub has_delivery_adapter : Bool
  pub approval_options : String
  pub messaging_group_id : String → String
  pub approval_id : String
  pub now : ℕ

-- The parts before and after the first colon.
unfoldable pub split_colon : String → Option (String × String)
split_colon String.[] = none
split_colon (String.◌∷◌ c s) =
    let rest = split_colon s in
    if code c == b':'
    then some ("", s)
    else elim rest [ none ↦ none | some r ↦ some (String.◌∷◌ c r.0, r.1) ]

-- `id.includes(':') ? id : channelType + ':' + id`
unfoldable pub namespaced : String → String → String
unfolding split_colon
namespaced channel_type id =
    if is_some (split_colon id) then id else String.◌++◌ channel_type (String.◌++◌ ":" id)

unfoldable pub get_user : Central → String → Option User
get_user db id = first (λ (u : User). u.id === id) db.users

-- ON CONFLICT (id) DO UPDATE SET display_name
unfoldable pub upsert_user : Central → User → Central
unfolding get_user
upsert_user db user =
    if is_some (get_user db user.id)
    then record db {
      users =
          update (λ (u : User). u.id === user.id)
            (λ (u : User). record u {
              display_name = elim user.display_name [ none ↦ u.display_name | some n ↦ some n ];
            })
            db.users;
    }
    else record db { users = db.users ++ user ∷ [] }

unfoldable pub get_user_dm : Central → String → String → Option UserDm
get_user_dm db user_id channel_type =
    first (λ (d : UserDm). d.user_id === user_id && d.channel_type === channel_type) db.user_dms

-- ON CONFLICT (user_id, channel_type) DO UPDATE
unfoldable pub upsert_user_dm : Central → UserDm → Central
unfolding get_user_dm
upsert_user_dm db row =
    if is_some (get_user_dm db row.user_id row.channel_type)
    then record db {
      user_dms =
          update (λ (d : UserDm). d.user_id === row.user_id && d.channel_type === row.channel_type)
            (λ (d : UserDm). record d {
              messaging_group_id = row.messaging_group_id;
              resolved_at = row.resolved_at;
            })
            db.user_dms;
    }
    else record db { user_dms = db.user_dms ++ row ∷ [] }

unfoldable pub get_messaging_group : Central → String → Option MessagingGroup
get_messaging_group db id = first (λ (g : MessagingGroup). g.id === id) db.messaging_groups

unfoldable pub get_messaging_group_by_platform : Central → String → String → Option MessagingGroup
get_messaging_group_by_platform db channel_type platform_id =
    first (λ (g : MessagingGroup). g.channel_type === channel_type && g.platform_id === platform_id)
      db.messaging_groups

unfoldable pub get_pending_sender_approval : Central → String → Option PendingSenderApproval
get_pending_sender_approval db id =
    first (λ (r : PendingSenderApproval). r.id === id) db.pending_sender_approvals

unfoldable pub has_in_flight_sender_approval : Central → String → String → Bool
has_in_flight_sender_approval db messaging_group_id sender_identity =
    any
      (λ (r : PendingSenderApproval).
        r.messaging_group_id === messaging_group_id && r.sender_identity === sender_identity)
      db.pending_sender_approvals

-- INSERT, under PRIMARY KEY (id), UNIQUE (messaging_group_id, sender_identity) and two foreign keys;
-- `none` where it throws.
unfoldable pub create_pending_sender_approval : Central → PendingSenderApproval → Option Central
unfolding get_pending_sender_approval has_in_flight_sender_approval get_messaging_group
create_pending_sender_approval db row =
    if is_some (get_pending_sender_approval db row.id)
      || has_in_flight_sender_approval db row.messaging_group_id row.sender_identity
      || not (is_some (get_messaging_group db row.messaging_group_id))
      || not (any (λ g. g === row.agent_group_id) db.agent_groups)
    then none
    else some (record db { pending_sender_approvals = db.pending_sender_approvals ++ row ∷ [] })

unfoldable pub delete_pending_sender_approval : Central → String → Central
delete_pending_sender_approval db id = record db {
  pending_sender_approvals =
      delete (λ (r : PendingSenderApproval). r.id === id) db.pending_sender_approvals;
}
