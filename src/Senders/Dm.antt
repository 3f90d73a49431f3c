-- ===== src/Senders/Dm.antt =====
-- The direct message that reaches a user (`src/modules/permissions/user-dm.ts`).
use lfontes_nanoclaw.Prelude.{
  ◌===◌, if◌then◌else◌, is_some, String, Bool, false, ◌&&◌, ◌||◌, not, Option, none, some,
}
use lfontes_nanoclaw.Router.State.{MessagingGroup, strict, create_messaging_group}
use lfontes_nanoclaw.Senders.{
  User, Central, SenderEnv, split_colon, get_user, get_user_dm, upsert_user_dm, get_messaging_group,
  get_messaging_group_by_platform,
}

-- What becomes of the search for a direct message: a chat, null, or an exception.
pub data DmResult : Type 0 where
  reached : MessagingGroup → DmResult
  unreachable threw_dm : DmResult

abbrev is_adapter : SenderEnv → String → Bool
is_adapter env channel_type = is_some (env.get_channel_adapter channel_type)

unfoldable pub parse_user_id : SenderEnv → User → Option (String × String)
unfolding split_colon
parse_user_id env user = elim (split_colon user.id) [
  | none ↦ none
  | some (prefix, handle) ↦
      if prefix === "" || handle === ""
      then none
      else if not (is_adapter env prefix) && not (user.kind === "") && is_adapter env user.kind
      then some (user.kind, user.id)
      else some (prefix, handle)
]

unfoldable pub resolve_dm_platform_id : SenderEnv → String → String → Option String
resolve_dm_platform_id env channel_type handle = elim (env.get_channel_adapter channel_type) [
  | none ↦ none
  | some adapter ↦ elim adapter.open_dm [ none ↦ some handle | some f ↦ f handle ]
]

-- The chat of a cached row, if the chat is still there.
abbrev cached_dm : Central → String → String → Option MessagingGroup
cached_dm db user_id channel_type = elim (get_user_dm db user_id channel_type) [
  | none ↦ none
  | some d ↦ get_messaging_group db d.messaging_group_id
]

abbrev dm_group : SenderEnv → User → String → String → MessagingGroup
dm_group env user channel_type platform_id = record {
  id = env.messaging_group_id user.id;
  channel_type = channel_type;
  platform_id = platform_id;
  name = user.display_name;
  is_group = false;
  unknown_sender_policy = strict;
  denied_at = none;
  created_at = env.now;
}

abbrev remember_dm : SenderEnv → Central → String → String → MessagingGroup → Central × DmResult
remember_dm env db user_id channel_type mg = (
  upsert_user_dm db (record {
    user_id = user_id;
    channel_type = channel_type;
    messaging_group_id = mg.id;
    resolved_at = env.now;
  }),
  reached mg,
)

-- The chat with that platform id, created where there is none.
unfoldable pub find_or_create_dm : SenderEnv → Central → User → String → String → Central × DmResult
unfolding get_messaging_group_by_platform create_messaging_group upsert_user_dm
find_or_create_dm env db user channel_type platform_id =
    elim (get_messaging_group_by_platform db channel_type platform_id) [
      | some mg ↦ remember_dm env db user.id channel_type mg
      | none ↦
          let mg = dm_group env user channel_type platform_id in
          elim (create_messaging_group db.messaging_groups mg) [
            | none ↦ (db, threw_dm)
            | some groups ↦
                remember_dm env (record db { messaging_groups = groups }) user.id channel_type mg
          ]
    ]

unfoldable pub ensure_user_dm : SenderEnv → Central → String → Central × DmResult
unfolding get_user get_user_dm get_messaging_group parse_user_id resolve_dm_platform_id
    find_or_create_dm
ensure_user_dm env db user_id = elim (get_user db user_id) [
  | none ↦ (db, unreachable)
  | some user ↦ elim (parse_user_id env user) [
    | none ↦ (db, unreachable)
    | some (channel_type, handle) ↦ elim (cached_dm db user_id channel_type) [
      | some mg ↦ (db, reached mg)
      | none ↦ elim (resolve_dm_platform_id env channel_type handle) [
        | none ↦ (db, unreachable)
        | some platform_id ↦
            if platform_id === ""
            then (db, unreachable)
            else find_or_create_dm env db user channel_type platform_id
      ]
    ]
  ]
]
