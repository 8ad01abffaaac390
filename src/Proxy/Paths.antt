-- ===== src/Proxy/Paths.antt =====
-- scripts/proxy.py: `_resolve`, with what it uses of `urllib.parse.unquote` and `os.path`.
use taihu.Base.{
  ℕ, ◌+◌, ◌-◌, ◌*◌, true, false, ◌&&◌, ◌||◌, Option, none, some, List, [], ◌∷◌, ◌++◌, ltb, leb, eqb,
  if◌then◌else◌, Text, lit, ◌==◌, is_empty, ends_with, join, reverse, split_slash, leading_slashes,
  is_abs,
}
use taihu.Files.Tree.{FilePath}

unfoldable pub hex_digit : ℕ → Option ℕ
hex_digit c =
    if leb b'0' c && leb c b'9'
    then some (c - b'0')
    else if leb b'A' c && leb c b'F'
    then some (c - 55)
    else if leb b'a' c && leb c b'f'
    then some (c - 87)
    else none

abbrev both : Option ℕ → Option ℕ → Option ℕ
both (some h) (some l) = some (h * 16 + l)
both _ _ = none

-- The byte that two hexadecimal digits stand for.
unfoldable pub hex_byte : ℕ → ℕ → Option ℕ
unfolding hex_digit
hex_byte h l = both (hex_digit h) (hex_digit l)

-- The bytes of a run of ASCII characters, with its escapes read.
unfoldable pub unquote_to_bytes : Text → List ℕ
unfolding hex_byte
unquote_to_bytes [] = []
unquote_to_bytes (c ∷ []) = c ∷ []
unquote_to_bytes (c ∷ d ∷ []) = c ∷ d ∷ []
unquote_to_bytes (c ∷ h ∷ l ∷ s) = elim (eqb c b'%') [
  | true ↦ elim (hex_byte h l) [
    | some b ↦ b ∷ unquote_to_bytes s
    | none ↦ c ∷ unquote_to_bytes (h ∷ l ∷ s)
  ]
  | false ↦ c ∷ unquote_to_bytes (h ∷ l ∷ s)
]

-- The loop of `normpath` on an absolute path, with the segments kept so far, the last one first.
unfoldable pub norm_step : List Text → Text → List Text
unfolding ◌==◌
norm_step kept segment =
    if is_empty segment || segment == lit "."
    then kept
    else if segment == lit ".."
    then (elim kept [ [] ↦ [] | t ∷ ts ↦ ts ])
    else segment ∷ kept

unfoldable pub norm_segments : List Text → List Text → FilePath
unfolding norm_step
norm_segments kept [] = reverse kept
norm_segments kept (s ∷ ss) = norm_segments (norm_step kept s) ss

unfoldable pub segments : Text → FilePath
unfolding norm_segments split_slash
segments s = norm_segments [] (split_slash s)

-- `os.path.normpath` of an absolute path, as a text.
unfoldable pub normpath : Text → Text
unfolding leading_slashes segments join
normpath s = leading_slashes s ++ join (lit "/") (segments s)

-- `os.path.join(root, p)` for a relative `p`.
unfoldable pub join_path : Text → Text → Text
unfolding ends_with
join_path root p = if ends_with root (lit "/") then root ++ p else root ++ (b'/' ∷ p)

-- `decode` reads bytes as UTF-8, with replacement characters for what is none.
module _ (decode : List ℕ → Text) where
  -- A run of ASCII characters, reversed, decoded in front of the rest.
  abbrev flush : Text → Text → Text
  flush [] rest = rest
  flush (c ∷ run) rest = decode (unquote_to_bytes (reverse (c ∷ run))) ++ rest

  unfoldable pub unquote_runs : Text → Text → Text
  unquote_runs run [] = flush run []
  unquote_runs run (c ∷ s) = elim (ltb c 128) [
    | true ↦ unquote_runs (c ∷ run) s
    | false ↦ flush run (c ∷ unquote_runs [] s)
  ]

  unfoldable pub unquote : Text → Text
  unfolding unquote_runs unquote_to_bytes
  unquote s = unquote_runs [] s

  unfoldable pub resolve_text : Text → Text → Text
  unfolding is_abs normpath join_path
  resolve_text root p = if is_abs p then normpath p else normpath (join_path root p)

  -- `_resolve`
  unfoldable pub resolve : Text → Text → Text
  unfolding unquote resolve_text
  resolve root raw_path = resolve_text root (unquote raw_path)
