-- ===== src/Active/Safe.antt =====
-- .trellis/scripts/common/active_task.py: a context key is a file name of harmless characters.
use taihu.Base.{
  ◌≡◌, refl, inl, inr, ◌⊎◌, Bool, true, false, Option, none, some, List, [], ◌∷◌, ◌++◌, reverse,
  if◌then◌else◌, Text, lit, ◌==◌,
}
use taihu.Json.{str, Fields, end, field}
use taihu.Active.Keys.{
  Kind, session, conversation, transcript, is_safe, sanitize_key, or_text, string_value, aliased,
  context_key, or_else, lookup_string, session_keys, conversation_keys, transcript_keys,
}
use taihu.Active.Env.{
  EnvTable, env_session_keys, env_conversation_keys, env_transcript_keys, rows_of, iter_env_keys,
  env_platform_name, key_from, first_set, lookup_env_context_key,
}
use taihu.Active.Tickets.{
  Process, resolve_context_key, find_root, input_key, keyed, override_key, platform_of,
  platform_or_session, lookup_shell_ticket,
}
use taihu.Active.SafeTexts.{
  IsSafe, all-append, sanitize_key-safe, or_text-safe, session-safe, detect_platform-safe,
  aliased-safe,
}

abbrev SafeKey : Option Text → Type 0
SafeKey none = Unit
SafeKey (some k) = IsSafe k

or_else-safe : (a b : Option Text) → SafeKey a → SafeKey b → SafeKey (or_else a b)
or_else-safe none b h k = k
or_else-safe (some v) b h k = h

abbrev SafeRows : EnvTable → Type 0
SafeRows [] = Unit
SafeRows ((name, keys) ∷ rows) = IsSafe name × SafeRows rows

rows_of-safe : (p : Text) (rows : EnvTable) → SafeRows rows → SafeRows (rows_of p rows)
unfolding rows_of
rows_of-safe p [] h = tt
rows_of-safe p ((name, keys) ∷ rows) (a, h) = go (name == p) (rows_of-safe p rows h)
  where
    go :
        (b : Bool)
        → SafeRows (rows_of p rows)
        → SafeRows (if b then (name, keys) ∷ rows_of p rows else rows_of p rows)
    go true k = (a, k)
    go false k = k

iter_env_keys-safe :
    (rows : EnvTable) (p : Option Text) → SafeRows rows → SafeRows (iter_env_keys rows p)
unfolding iter_env_keys
iter_env_keys-safe rows none h = h
iter_env_keys-safe rows (some []) h = h
iter_env_keys-safe rows (some (c ∷ s)) h = rows_of-safe (c ∷ s) rows h

module _ (hash : Text → Text) (digest : (s : Text) → IsSafe (hash s)) where
  value-safe : (v : Text) → IsSafe (b'_' ∷ or_text (sanitize_key v) (hash v))
  unfolding is_safe
  value-safe v = or_text-safe (sanitize_key v) (hash v) (sanitize_key-safe v).0 (digest v)

  transcript-safe : (v : Text) → IsSafe (lit "_transcript_" ++ hash v)
  unfolding is_safe
  transcript-safe v = digest v

  context_key-safe :
      (p : Text) (kind : Kind) (v : Text) → IsSafe p → IsSafe (context_key hash p kind v)
  unfolding context_key
  context_key-safe p session v h =
      all-append is_safe (aliased p) _ (aliased-safe p h) (value-safe v)
  context_key-safe p conversation v h =
      all-append is_safe (aliased p) _ (aliased-safe p h) (value-safe v)
  context_key-safe p transcript v h =
      all-append is_safe (aliased p) (lit "_transcript_" ++ hash v) (aliased-safe p h)
        (transcript-safe v)

  key_from-safe :
      (environ : Text → Option Text) (kind : Kind) (rows : EnvTable)
      → SafeRows rows
      → SafeKey (key_from hash environ kind rows)
  unfolding key_from
  key_from-safe environ kind [] h = tt
  key_from-safe environ kind ((name, keys) ∷ rows) (a, h) =
      go (first_set hash environ keys) (key_from-safe environ kind rows h)
    where
      go :
          (o : Option Text)
          → SafeKey (key_from hash environ kind rows)
          → SafeKey (elim o [
            | some v ↦ some (context_key hash name kind v)
            | none ↦ key_from hash environ kind rows
          ])
      go none k = k
      go (some v) k = context_key-safe name kind v a

  tables-safe :
      SafeRows env_session_keys × SafeRows env_conversation_keys × SafeRows env_transcript_keys
  unfolding is_safe
  tables-safe = (
    (refl, (refl, (refl, (refl, (refl, (refl, (refl, (refl, (refl, tt))))))))),
    (refl, tt),
    (refl, (refl, (refl, (refl, (refl, tt))))),
  )

  lookup_env_context_key-safe :
      (environ : Text → Option Text) (p : Option Text)
      → SafeKey (lookup_env_context_key hash environ p)
  unfolding lookup_env_context_key
  lookup_env_context_key-safe environ p =
      let rows = tables-safe in
      let q = env_platform_name p in
      or_else-safe _ _
        (key_from-safe environ session _ (iter_env_keys-safe env_session_keys q rows.0))
        (or_else-safe _ _
          (key_from-safe environ conversation _ (iter_env_keys-safe env_conversation_keys q rows.1))
          (key_from-safe environ transcript _ (iter_env_keys-safe env_transcript_keys q rows.2)))

module _ (proc : Process) (digest : (s : Text) → IsSafe (proc.hash s)) where
  platform_or-safe : (o : Option Text) → SafeKey o → IsSafe (platform_or_session proc o)
  platform_or-safe none h = session-safe
  platform_or-safe (some v) h = or_text-safe v (lit "session") h session-safe

  platform_of-safe : (d : Fields) (p : Option Text) → SafeKey (platform_of proc d p)
  platform_of-safe end none = tt
  platform_of-safe end (some []) = tt
  platform_of-safe end (some (c ∷ s)) = detect_platform-safe end (some (c ∷ s))
  platform_of-safe (field k v d) p = detect_platform-safe (field k v d) p

  platform_or_session-safe :
      (d : Fields) (p : Option Text) → IsSafe (platform_or_session proc (platform_of proc d p))
  platform_or_session-safe d p = platform_or-safe (platform_of proc d p) (platform_of-safe d p)

  keyed-safe :
      (d : Fields) (p : Option Text) (kind : Kind) (o : Option Text)
      → SafeKey (keyed proc (platform_of proc d p) kind o)
  keyed-safe d p kind none = tt
  keyed-safe d p kind (some v) =
      context_key-safe proc.hash digest (platform_or_session proc (platform_of proc d p)) kind v
        (platform_or_session-safe d p)

  input_key-safe :
      (d : Fields) (p : Option Text) → SafeKey (input_key proc d (platform_of proc d p))
  unfolding input_key
  input_key-safe d p =
      or_else-safe (keyed proc (platform_of proc d p) session (lookup_string session_keys d)) _
        (keyed-safe d p session (lookup_string session_keys d))
        (or_else-safe
          (keyed proc (platform_of proc d p) conversation (lookup_string conversation_keys d))
          (keyed proc (platform_of proc d p) transcript (lookup_string transcript_keys d))
          (keyed-safe d p conversation (lookup_string conversation_keys d))
          (keyed-safe d p transcript (lookup_string transcript_keys d)))

  override_key-safe : (o : Option Text) → SafeKey (override_key proc o)
  override_key-safe none = tt
  override_key-safe (some s) = go (string_value (str s))
    where
      go :
          (o : Option Text)
          → SafeKey
              (elim o [ none ↦ none | some v ↦ some (or_text (sanitize_key v) (proc.hash v)) ])
      go none = tt
      go (some v) = or_text-safe (sanitize_key v) (proc.hash v) (sanitize_key-safe v).0 (digest v)

  abbrev pub SafeOr : Option Text → Option Text → Type 0
  SafeOr ticket none = Unit
  SafeOr ticket (some k) = IsSafe k ⊎ (ticket ≡ some k)

  SafeKey-SafeOr : (t a : Option Text) → SafeKey a → SafeOr t a
  SafeKey-SafeOr t none h = tt
  SafeKey-SafeOr t (some k) h = inl h

  SafeOr-self : (t : Option Text) → SafeOr t t
  SafeOr-self none = tt
  SafeOr-self (some k) = inr refl

  or_else-SafeOr : (t a b : Option Text) → SafeKey a → SafeOr t b → SafeOr t (or_else a b)
  or_else-SafeOr t none b h k = k
  or_else-SafeOr t (some v) b h k = inl h

  -- The key of a session, where it is not the one that a ticket holds, has only letters, digits, dots,
  -- underscores and dashes, if the digest has, so the session's file lies in the sessions' directory.
  pub resolve_context_key-safe :
      (tickets : List Fields) (d : Fields) (platform : Option Text) (from_environment : Bool)
      → SafeOr
          (lookup_shell_ticket proc tickets (find_root proc (reverse proc.cwd)))
          (resolve_context_key proc tickets d platform from_environment)
  unfolding resolve_context_key
  resolve_context_key-safe tickets d p true =
      let ticket = lookup_shell_ticket proc tickets (find_root proc (reverse proc.cwd)) in
      let from_env = lookup_env_context_key proc.hash proc.environ (platform_of proc d p) in
      or_else-SafeOr ticket (override_key proc (proc.environ (lit "TRELLIS_CONTEXT_ID")))
        (or_else (input_key proc d (platform_of proc d p)) (or_else from_env ticket))
        (override_key-safe (proc.environ (lit "TRELLIS_CONTEXT_ID")))
        (or_else-SafeOr ticket (input_key proc d (platform_of proc d p)) (or_else from_env ticket)
          (input_key-safe d p)
          (or_else-SafeOr ticket from_env ticket
            (lookup_env_context_key-safe proc.hash digest proc.environ (platform_of proc d p))
            (SafeOr-self ticket)))
  resolve_context_key-safe tickets d p false = SafeKey-SafeOr _ _ (input_key-safe d p)
