-- ===== src/Container/Commands.antt =====
-- How the runner tells commands from messages: `container/agent-runner/src/formatter.ts`.
use lfontes_nanoclaw.Prelude.{
  ◌===◌, if◌then◌else◌, String, Bool, true, false, ◌&&◌, ◌||◌, not, List, [], ◌∷◌,
}
use lfontes_nanoclaw.Text.{
  Text, Content, content_text, starts_with, to_lower, first_word, codes, contains_text,
}

pub data CommandCategory : Type 0 where
  admin filtered passthrough not_command : CommandCategory

abbrev pub runner_admin_commands : List Text
runner_admin_commands =
    codes "/remote-control"
    ∷ codes "/clear"
    ∷ codes "/compact"
    ∷ codes "/context"
    ∷ codes "/cost"
    ∷ codes "/files"
    ∷ []

abbrev pub runner_filtered_commands : List Text
runner_filtered_commands =
    codes "/help"
    ∷ codes "/login"
    ∷ codes "/logout"
    ∷ codes "/doctor"
    ∷ codes "/config"
    ∷ codes "/start"
    ∷ []

unfoldable pub categorize_message : Content → CommandCategory
unfolding content_text starts_with first_word to_lower contains_text
categorize_message content =
    let text = content_text content in
    let command = to_lower (first_word text) in
    if not (starts_with text (codes "/"))
    then not_command
    else if contains_text runner_admin_commands command
    then admin
    else if contains_text runner_filtered_commands command
    then filtered
    else passthrough

unfoldable pub is_clear_command : Content → Bool
unfolding content_text starts_with to_lower
is_clear_command content = starts_with (to_lower (content_text content)) (codes "/clear")

-- `kind` is 'chat' or 'chat-sdk'.
abbrev pub is_chat : String → Bool
is_chat kind = kind === "chat" || kind === "chat-sdk"

abbrev needs_query_start : CommandCategory → Bool
needs_query_start admin = true
needs_query_start passthrough = true
needs_query_start _ = false

unfoldable pub is_runner_command : String → Content → Bool
unfolding categorize_message
is_runner_command kind content = is_chat kind && needs_query_start (categorize_message content)
