-- ===== src/Active/Env.antt =====
-- .trellis/scripts/common/active_task.py: the environment variables that name a session.
use taihu.Base.{Option, none, some, List, [], ◌∷◌, if◌then◌else◌, Text, lit, ◌==◌}
use taihu.Json.{str}
use taihu.Active.Keys.{Kind, session, conversation, transcript, string_value, context_key, or_else}

abbrev pub EnvTable : Type 0
EnvTable = List (Text × List Text)

abbrev pub env_session_keys : EnvTable
env_session_keys =
    (lit "dsh", lit "DSH_SESSION_ID" ∷ [])
    ∷ (lit "claude", lit "CLAUDE_CODE_SESSION_ID" ∷ [])
    ∷ (lit "codex", lit "CODEX_THREAD_ID" ∷ [])
    ∷ (lit "gemini", lit "GEMINI_SESSION_ID" ∷ [])
    ∷ (lit "qoder", lit "QODER_SESSION_ID" ∷ [])
    ∷ (lit "kiro", lit "KIRO_SESSION_ID" ∷ [])
    ∷ (lit "copilot", lit "COPILOT_SESSION_ID" ∷ lit "COPILOT_SESSIONID" ∷ [])
    ∷ (lit "zcode", lit "CLAUDE_CODE_SESSION_ID" ∷ lit "CLAUDE_SESSION_ID" ∷ [])
    ∷ (lit "snow", lit "SNOW_SESSION_ID" ∷ [])
    ∷ []

abbrev pub env_conversation_keys : EnvTable
env_conversation_keys =
    (lit "cursor", lit "CURSOR_CONVERSATION_ID" ∷ lit "CURSOR_CONVERSATIONID" ∷ []) ∷ []

abbrev pub env_transcript_keys : EnvTable
env_transcript_keys =
    (lit "cursor", lit "CURSOR_TRANSCRIPT_PATH" ∷ [])
    ∷ (lit "gemini", lit "GEMINI_TRANSCRIPT_PATH" ∷ [])
    ∷ (lit "droid", lit "FACTORY_TRANSCRIPT_PATH" ∷ lit "DROID_TRANSCRIPT_PATH" ∷ [])
    ∷ (lit "qoder", lit "QODER_TRANSCRIPT_PATH" ∷ [])
    ∷ (lit "codebuddy", lit "CODEBUDDY_TRANSCRIPT_PATH" ∷ [])
    ∷ []

unfoldable pub platform_alias : Text → Text
platform_alias name =
    if name == lit "claude-code"
    then lit "claude"
    else if name == lit "factory"
    then lit "droid"
    else if name == lit "factory-ai"
    then lit "droid"
    else if name == lit "github-copilot"
    then lit "copilot"
    else name

-- `_env_platform_name`
unfoldable pub env_platform_name : Option Text → Option Text
env_platform_name none = none
env_platform_name (some []) = none
env_platform_name (some (c ∷ s)) =
    if (c ∷ s) == lit "session" then none else some (platform_alias (c ∷ s))

-- The rows of a platform.
unfoldable pub rows_of : Text → EnvTable → EnvTable
rows_of p [] = []
rows_of p ((name, keys) ∷ rows) =
    let rest = rows_of p rows in if name == p then (name, keys) ∷ rest else rest

-- `_iter_env_keys`
unfoldable pub iter_env_keys : EnvTable → Option Text → EnvTable
iter_env_keys table none = table
iter_env_keys table (some []) = table
iter_env_keys table (some (c ∷ s)) = rows_of (c ∷ s) table

module _ (hash : Text → Text) (environ : Text → Option Text) where
  abbrev env_value : Option Text → Option Text
  env_value none = none
  env_value (some s) = string_value (str s)

  unfoldable pub first_set : List Text → Option Text
  first_set [] = none
  first_set (k ∷ ks) = or_else (env_value (environ k)) (first_set ks)

  unfoldable pub key_from : Kind → EnvTable → Option Text
  key_from kind [] = none
  key_from kind ((name, keys) ∷ rows) = elim (first_set keys) [
    | some v ↦ some (context_key hash name kind v)
    | none ↦ key_from kind rows
  ]

  -- `_lookup_env_context_key`
  unfoldable pub lookup_env_context_key : Option Text → Option Text
  lookup_env_context_key platform =
      let p = env_platform_name platform in
      or_else (key_from session (iter_env_keys env_session_keys p)) (
        or_else (key_from conversation (iter_env_keys env_conversation_keys p))
          (key_from transcript (iter_env_keys env_transcript_keys p)))
