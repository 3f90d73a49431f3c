-- ===== src/AgentToAgent/Files.antt =====
-- The files that go with a message to another agent (`src/modules/agent-to-agent/agent-route.ts`,
-- `src/attachment-safety.ts`).
use lfontes_nanoclaw.Prelude.{
  ◌==◌, ◌===◌, if◌then◌else◌, any, ℕ, String, Bool, ◌&&◌, ◌||◌, not, Option, none, some, List, [],
  ◌∷◌,
}
use lfontes_nanoclaw.Text.{Text, codes}
use lfontes_nanoclaw.SessionDb.{MessageOut}
use lfontes_nanoclaw.Sessions.{Session}

pub record ForwardedAttachment : Type 0 where
  pub name : String
  pub filename : String
  pub local_path : List String

-- The parameters of one routing: generated ids, the clock, JSON (`files_of`: the texts of the array
-- `files`, where the content parses and has it; `add_attachments`: the content with more in its
-- `attachments`), the file system (`outbox`: the names in the source's outbox, where that is there)
-- and node's `path.basename`.
pub record AgentEnv : Type 0 where
  pub message_id : String
  pub session_id : String
  pub now : ℕ
  pub files_of : String → Option (List String)
  pub add_attachments : String → List ForwardedAttachment → String
  pub outbox : String → String → String → Option (List String)
  pub basename : String → String

abbrev has_code : ℕ → Text → Bool
has_code c s = any (λ d. d == c) s

unfoldable pub is_safe_attachment_name : (String → String) → String → Bool
is_safe_attachment_name basename name =
    not (name === "")
    && not (name === "." || name === "..")
    && not (has_code b'\\' (codes name) || has_code b'/' (codes name) || has_code 0 (codes name))
    && basename name === name

-- The loop of `forwardAttachedFiles`: which files are copied and named.
unfoldable pub forwarded_files : AgentEnv → List String → List String → List ForwardedAttachment
unfolding is_safe_attachment_name
forwarded_files env present [] = []
forwarded_files env present (filename ∷ filenames) =
    let rest = forwarded_files env present filenames in
    if not (is_safe_attachment_name env.basename filename)
    then rest
    else if not (any (λ f. f === filename) present)
    then rest
    else record {
      name = filename;
      filename = filename;
      local_path = "inbox" ∷ env.message_id ∷ filename ∷ [];
    }
      ∷ rest

unfoldable pub forward_attached_files :
    AgentEnv → String → String → String → List String → List ForwardedAttachment
unfolding forwarded_files
forward_attached_files env agent_group_id session_id message_id [] = []
forward_attached_files env agent_group_id session_id message_id (f ∷ filenames) =
    elim (env.outbox agent_group_id session_id message_id) [
      | none ↦ []
      | some present ↦ forwarded_files env present (f ∷ filenames)
    ]

-- The content to write, and the files that were copied for it.
unfoldable pub forward_file_attachments :
    AgentEnv → MessageOut → Session → String × List ForwardedAttachment
unfolding forward_attached_files
forward_file_attachments env msg session = elim (env.files_of msg.content) [
  | none ↦ (msg.content, [])
  | some [] ↦ (msg.content, [])
  | some (f ∷ filenames) ↦
      let attachments =
        forward_attached_files env session.agent_group_id session.id msg.id (f ∷ filenames) in
      (env.add_attachments msg.content attachments, attachments)
]
