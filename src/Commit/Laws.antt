-- ===== src/Commit/Laws.antt =====
-- .trellis/scripts/common: what is staged, and how often git is run.
use taihu.Base.{
  ℕ, suc, ◌+◌, ◌≤◌, ◌<◌, ◌≡◌, refl, Bool, true, false, ◌&&◌, some, List, [], ◌∷◌, ◌++◌,
  if◌then◌else◌, Text, lit, starts_with, ends_with, arith, inl, inr, ◌⊎◌, Bool-cases, All, eqb,
  length,
}
use taihu.Files.Tree.{FilePath}
use taihu.Tasks.Refs.{Disk, dir_workflow, dir_tasks}
use taihu.Commit.Git.{GitRun, is_locked, retry, run_git_retry_index_lock, index_lock_retry_backoff}
use taihu.Commit.Paths.{
  workspace_prefix, tasks_path, journal_paths, index_paths, paths_in, workspace_paths, if_dir,
  narrow_paths, safe_trellis_paths_to_add,
}

-- How a loop from the attempt `i` with `n` sleeps left ends: after some attempts, with the result of
-- the last; all before it met the lock, and it did not, unless no sleep was left.
abbrev pub Ended : (ℕ → GitRun) → ℕ → ℕ → GitRun × ℕ → Type 0
Ended runs i n (r, count) =
    (k : ℕ) × (count ≡ suc k)
    × (i ≤ k)
    × (k ≤ i + n)
    × (r ≡ runs k)
    × ((j : ℕ) → i ≤ j → j < k → is_locked (runs j) ≡ true)
    × ((is_locked r ≡ false) ⊎ (k ≡ i + n))

from_first :
    (runs : ℕ → GitRun) (i k j : ℕ)
    → is_locked (runs i) ≡ true
    → ((m : ℕ) → suc i ≤ m → m < k → is_locked (runs m) ≡ true)
    → i ≤ j
    → j < k
    → is_locked (runs j) ≡ true
from_first runs i k j e later a b = elim (Bool-cases (eqb j i)) [
  | inl x ↦ let same : j ≡ i = ground arith in rw same e
  | inr x ↦ later j (ground arith) b
]

retry-Ended :
    (runs : ℕ → GitRun) (i : ℕ) (sleeps : List ℕ)
    → Ended runs i (length sleeps) (retry runs i sleeps)
unfolding retry
retry-Ended runs i [] =
    (i, refl, omega arith, omega arith, refl, (λ j a b. absurd (omega arith)), inr (omega arith))
retry-Ended runs i (sleep ∷ sleeps) = elim (Bool-cases (is_locked (runs i))) [
  | inr e ↦
      rw (e, retry)
        (i, refl, omega arith, omega arith, refl, (λ j a b. absurd (omega arith)), inl e)
  | inl e ↦
      let (k, c, lo, hi, r, locked, end) = retry-Ended runs (suc i) sleeps in
      rw (e, retry)
        (
          k,
          c,
          omega arith,
          omega arith,
          r,
          (λ j a b. from_first runs i k j e locked a b),
          (elim end [ inl x ↦ inl x | inr y ↦ inr (omega arith) ]),
        )
]

starts_with-append : (p s : Text) → starts_with (p ++ s) p ≡ true
unfolding starts_with
starts_with-append [] s = refl
starts_with-append (c ∷ p) s = ground (arith, starts_with-append p s)

-- At most three attempts are made, one more only after one that met the lock, and the result is the
-- last one's: it did not meet the lock, or it is the third.
pub run_git_retry_index_lock-Ended :
    (runs : ℕ → GitRun) → Ended runs 0 2 (run_git_retry_index_lock runs)
unfolding run_git_retry_index_lock
run_git_retry_index_lock-Ended runs = retry-Ended runs 0 index_lock_retry_backoff

-- What an automatic commit for a developer and a task may stage.
abbrev pub InScope : Text → Text → Text → Type 0
InScope developer name p =
    (starts_with p (workspace_prefix developer) ≡ true)
    ⊎ ((p ≡ tasks_path name) ⊎ (p ≡ lit ".trellis/tasks/archive/" ++ name))

module _ (disk : Disk) (is_file : FilePath → Bool) (repo_root : FilePath)
    (developer name : Text) where
  in_workspace : (file : Text) → InScope developer name (workspace_prefix developer ++ file)
  in_workspace file = inl (starts_with-append (workspace_prefix developer) file)

  journal_paths-InScope :
      (ws : FilePath) (names : List Text)
      → All (InScope developer name) (journal_paths disk is_file repo_root developer ws names)
  unfolding journal_paths
  journal_paths-InScope ws [] = tt
  journal_paths-InScope ws (f ∷ fs) =
      elim (Bool-cases
        (starts_with f (lit "journal-") && ends_with f (lit ".md") && is_file (ws ++ (f ∷ [])))) [
          | inl e ↦ rw e (in_workspace f, journal_paths-InScope ws fs)
          | inr e ↦ rw e (journal_paths-InScope ws fs)
        ]

  abbrev pub Scoped : List Text → Type 0
  Scoped paths = All (InScope developer name) paths

  Scoped-append : (xs ys : List Text) → Scoped xs → Scoped ys → Scoped (xs ++ ys)
  Scoped-append [] ys h k = k
  Scoped-append (x ∷ xs) ys (p, h) k = (p, Scoped-append xs ys h k)

  Scoped-if : (b : Bool) (xs : List Text) → Scoped xs → Scoped (if b then xs else [])
  Scoped-if true xs h = h
  Scoped-if false xs h = tt

  narrow_paths-Scoped : Scoped (narrow_paths disk is_file repo_root name)
  unfolding narrow_paths
  narrow_paths-Scoped =
      let active = repo_root ++ (dir_workflow ∷ dir_tasks ∷ []) in
      Scoped-append (if_dir disk is_file repo_root (active ++ (name ∷ [])) (tasks_path name))
        (if_dir disk is_file repo_root (active ++ (lit "archive" ∷ name ∷ []))
          (lit ".trellis/tasks/archive/" ++ name))
        (Scoped-if (disk.is_dir (active ++ (name ∷ []))) (tasks_path name ∷ [])
          (inr (inl refl), tt))
        (Scoped-if (disk.is_dir (active ++ (lit "archive" ∷ name ∷ [])))
          ((lit ".trellis/tasks/archive/" ++ name) ∷ []) (inr (inr refl), tt))

  index_paths-Scoped : Scoped (index_paths disk is_file repo_root developer)
  index_paths-Scoped =
      Scoped-if _ ((workspace_prefix developer ++ lit "index.md") ∷ [])
        (in_workspace (lit "index.md"), tt)

  paths_in-Scoped : Scoped (paths_in disk is_file repo_root developer)
  unfolding paths_in
  paths_in-Scoped =
      let ws = repo_root ++ (dir_workflow ∷ lit "workspace" ∷ developer ∷ []) in
      let journals = journal_paths disk is_file repo_root developer ws (disk.names ws) in
      Scoped-if (disk.is_dir ws) (journals ++ index_paths disk is_file repo_root developer) (
        Scoped-append journals (index_paths disk is_file repo_root developer)
          (journal_paths-InScope ws (disk.names ws)) index_paths-Scoped)

  workspace_paths-Scoped :
      (d : Text) → d ≡ developer → Scoped (workspace_paths disk is_file repo_root (some d))
  unfolding workspace_paths
  workspace_paths-Scoped [] e = tt
  workspace_paths-Scoped (c ∷ d) e = rw e paths_in-Scoped

  -- For a task the paths to stage are those in the developer's workspace, the task's own directory and
  -- its place in the archive: no other task is touched.
  pub safe_trellis_paths_to_add-InScope :
      Scoped (safe_trellis_paths_to_add disk is_file repo_root (some developer) (some name))
  unfolding safe_trellis_paths_to_add
  safe_trellis_paths_to_add-InScope =
      Scoped-append (workspace_paths disk is_file repo_root (some developer)) _
        (workspace_paths-Scoped developer refl)
        (Scoped-if (disk.is_dir (repo_root ++ (dir_workflow ∷ dir_tasks ∷ [])))
          (narrow_paths disk is_file repo_root name) narrow_paths-Scoped)
