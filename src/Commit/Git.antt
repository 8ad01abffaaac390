-- ===== src/Commit/Git.antt =====
-- .trellis/scripts/common/git.py: what is read from the answers of git, and the retry.
use taihu.Base.{
  ℕ, suc, Bool, true, false, not, ◌&&◌, Option, none, some, List, [], ◌∷◌, eqb, if◌then◌else◌, Text,
  lit, is_empty, is_space, strip, lower, starts_with,
}

-- What a run of git returns: an exit code that is 0 on success, its output and its errors.
pub record GitRun : Type 0 where
  pub returncode : ℕ
  pub stdout : Text
  pub stderr : Text

-- `t in s`
unfoldable pub contains : Text → Text → Bool
contains [] t = is_empty t
contains (c ∷ s) t = let rest = contains s t in if starts_with (c ∷ s) t then true else rest

unfoldable pub stderr_indicates_index_lock : Text → Bool
stderr_indicates_index_lock stderr =
    not (is_empty stderr) && contains (lower stderr) (lit "index.lock")

unfoldable pub is_locked : GitRun → Bool
is_locked r = not (eqb r.returncode 0) && stderr_indicates_index_lock r.stderr

-- The sleeps between the attempts, in milliseconds.
abbrev pub index_lock_retry_backoff : List ℕ
index_lock_retry_backoff = 500 ∷ 1000 ∷ []

-- The loop from the attempt `i`, with the sleeps that are left, where `runs i` is what the attempt
-- returns: the last result, and the number of attempts.
unfoldable pub retry : (ℕ → GitRun) → ℕ → List ℕ → GitRun × ℕ
retry runs i [] = (runs i, suc i)
retry runs i (sleep ∷ sleeps) = elim (is_locked (runs i)) [
  | true ↦ retry runs (suc i) sleeps
  | false ↦ (runs i, suc i)
]

unfoldable pub run_git_retry_index_lock : (ℕ → GitRun) → GitRun × ℕ
run_git_retry_index_lock runs = retry runs 0 index_lock_retry_backoff

abbrev stripped_or_none : Text → Option Text
stripped_or_none [] = none
stripped_or_none (c ∷ s) = some (c ∷ s)

unfoldable pub current_branch_name : GitRun → Option Text
current_branch_name r =
    if eqb r.returncode 0 then stripped_or_none (strip is_space r.stdout) else none

unfoldable pub has_git_remote : GitRun → Bool
has_git_remote r = eqb r.returncode 0 && not (is_empty (strip is_space r.stdout))

unfoldable pub index_lock_path : GitRun → Text
index_lock_path r = if has_git_remote r then strip is_space r.stdout else lit ".git/index.lock"

unfoldable pub branch_exists_locally : Text → GitRun → Bool
branch_exists_locally branch r = not (is_empty branch) && eqb r.returncode 0
