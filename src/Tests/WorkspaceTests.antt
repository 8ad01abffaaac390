-- ===== src/Tests/WorkspaceTests.antt =====
-- .trellis/scripts/common/paths.py at concrete names.
use taihu.Base.{
  ℕ, ◌≡◌, refl, Bool, true, some, List, [], ◌∷◌, Text, lit, All, starts_with, ends_with,
}
use taihu.Workspace.Journal.{
  get_active_journal_file, latest_from, journal_number, trailing_number, leading_digits, value_from,
  AtMost, get_active_journal_file-AtMost,
}

abbrev is_file : Text → Bool
is_file name = true

abbrev names : List Text
names = lit "index.md" ∷ lit "journal-9.md" ∷ lit "journal-10.md" ∷ lit "journal-2.md" ∷ []

journal_run : get_active_journal_file is_file names ≡ some (lit "journal-10.md")
unfolding get_active_journal_file latest_from journal_number trailing_number leading_digits
    value_from starts_with ends_with
journal_run = refl

get_active_journal_file-AtMost_example :
    (n : ℕ) × (journal_number is_file (lit "journal-10.md") ≡ some n) × All (AtMost is_file n) names
get_active_journal_file-AtMost_example =
    get_active_journal_file-AtMost is_file names (lit "journal-10.md") journal_run
