-- ===== src/Tests/CommitTests.antt =====
-- .trellis/scripts/common: git.py and safe_commit.py at concrete answers.
use taihu.Base.{ℕ, zero, suc, true, some, [], ◌∷◌, lit}
use taihu.Tasks.Refs.{Disk}
use taihu.Commit.Git.{GitRun, run_git_retry_index_lock}
use taihu.Commit.Paths.{safe_trellis_paths_to_add}
use taihu.Commit.Laws.{
  Ended, run_git_retry_index_lock-Ended, Scoped, safe_trellis_paths_to_add-InScope,
}

abbrev locked : GitRun
locked = record { returncode = 128; stdout = []; stderr = lit "Unable to create '.git/index.lock'" }

abbrev done : GitRun
done = record { returncode = 0; stdout = []; stderr = [] }

abbrev answers : ℕ → GitRun
answers zero = locked
answers (suc i) = done

run_git_retry_index_lock-Ended_example : Ended answers 0 2 (run_git_retry_index_lock answers)
run_git_retry_index_lock-Ended_example = run_git_retry_index_lock-Ended answers

abbrev disk : Disk
disk = record {
  resolve = λ p. some p;
  is_dir = λ p. true;
  names = λ p. lit "index.md" ∷ lit "journal-1.md" ∷ [];
}

safe_trellis_paths_to_add-InScope_example :
    Scoped disk
      (λ p. true)
      (lit "w" ∷ [])
      (lit "me")
      (lit "01-02-a")
      (safe_trellis_paths_to_add disk
        (λ p. true)
        (lit "w" ∷ [])
        (some (lit "me"))
        (some (lit "01-02-a")))
safe_trellis_paths_to_add-InScope_example =
    safe_trellis_paths_to_add-InScope disk (λ p. true) (lit "w" ∷ []) (lit "me") (lit "01-02-a")
