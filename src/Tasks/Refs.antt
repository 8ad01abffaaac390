-- ===== src/Tasks/Refs.antt =====
-- .trellis/scripts/common/paths.py and active_task.py: `normalize_task_ref` and `resolve_task_ref`,
-- and the containment of what they give.
use taihu.Base.{
  ◌≡◌, refl, Bool, true, ◌&&◌, ◌||◌, Option, none, some, List, [], ◌∷◌, ◌++◌, map, eqb,
  if◌then◌else◌, Text, lit, ◌==◌, ==_refl, is_empty, is_space, strip, starts_with, split_slash,
  leading_slashes, is_abs, join,
}
use taihu.Files.Tree.{FilePath, within, relative_to}
use taihu.Tasks.Plain.{is_plain}

-- The file system as the scripts see it: `Path.resolve`, whose `none` is an OSError, `is_dir`, and the
-- sorted names in a directory.
pub record Disk : Type 0 where
  pub resolve : FilePath → Option FilePath
  pub is_dir : FilePath → Bool
  pub names : FilePath → List Text

abbrev pub dir_workflow : Text
dir_workflow = lit ".trellis"

abbrev pub dir_tasks : Text
dir_tasks = lit "tasks"

-- The parts of `Path(s)`: empty segments and dots are dropped.
unfoldable pub parts : List Text → FilePath
parts [] = []
parts (s ∷ ss) = let rest = parts ss in if is_empty s || s == lit "." then rest else s ∷ rest

unfoldable pub path_parts : Text → FilePath
unfolding parts
path_parts s = parts (split_slash s)

-- A join with `/`: an absolute path replaces what stands before.
unfoldable pub join_at : FilePath → Text → FilePath
join_at base s = if is_abs s then path_parts s else base ++ path_parts s

-- `s.replace("\\", "/")`
unfoldable pub forward : Text → Text
forward s = map (λ c. if eqb c b'\\' then b'/' else c) s

-- `while s.startswith("./"): s = s[2:]`
unfoldable pub drop_dots : Text → Text
drop_dots [] = []
drop_dots (c ∷ []) = c ∷ []
drop_dots (c ∷ d ∷ s) =
    let rest = drop_dots s in if eqb c b'.' && eqb d b'/' then rest else c ∷ d ∷ s

abbrev below_workflow : Text → Text
below_workflow s = if starts_with s (lit "tasks/") then lit ".trellis/" ++ s else s

abbrev normalize_stripped : Text → Text
normalize_stripped s =
    if is_empty s
    then []
    else if is_abs s
    then leading_slashes s ++ join (lit "/") (path_parts s)
    else below_workflow (drop_dots (forward s))

unfoldable pub normalize_task_ref : Text → Text
normalize_task_ref ref = normalize_stripped (strip is_space ref)

unfoldable pub candidate_of : FilePath → Text → FilePath
candidate_of root normalized =
    if is_abs normalized
    then path_parts normalized
    else if starts_with normalized (lit ".trellis/")
    then root ++ path_parts normalized
    else root ++ (dir_workflow ∷ dir_tasks ∷ path_parts normalized)

-- The in-repo form of a path below the place where `.trellis` really lies.
abbrev pub in_repo : FilePath → Option FilePath → Option FilePath
in_repo base none = none
in_repo base (some rel) = some (base ++ rel)

unfoldable pub contained : FilePath → Option FilePath → Option FilePath → Option FilePath
contained root (some resolved) (some workflow_real) =
    if within root resolved
    then some resolved
    else in_repo (root ++ (dir_workflow ∷ [])) (relative_to workflow_real resolved)
contained root _ _ = none

module _ (disk : Disk) where
  abbrev resolve_in : Text → Option FilePath → Option FilePath
  resolve_in normalized none = none
  resolve_in normalized (some root) =
      contained root (disk.resolve (candidate_of root normalized))
        (disk.resolve (root ++ (dir_workflow ∷ [])))

  unfoldable pub resolve_task_ref : Text → FilePath → Option FilePath
  resolve_task_ref ref repo_root =
      let normalized = normalize_task_ref ref in
      if is_empty normalized then none else resolve_in normalized (disk.resolve repo_root)

pub within-append : (p q : FilePath) → within p (p ++ q) ≡ true
unfolding within
within-append [] q = refl
within-append (a ∷ p) q = rw (==_refl a) (within-append p q)

-- The path is in the directory, with no part that leads out of it again.
abbrev pub In : FilePath → FilePath → Type 0
In root p = (within root p ≡ true) × (is_plain p ≡ true)
