-- ===== src/Workspace/Identity.antt =====
-- .trellis/scripts/common/paths.py: `get_repo_root`, `get_developer` and `get_workspace_dir`.
use taihu.Base.{
  ℕ, Bool, true, false, Option, none, some, List, [], ◌∷◌, ◌++◌, reverse, if◌then◌else◌, Text, lit,
  is_space, strip, starts_with, splitlines, partition, length,
}
use taihu.Files.Tree.{FilePath}
use taihu.Tasks.Refs.{Disk, dir_workflow}

abbrev first_or_cwd : FilePath → Option FilePath → FilePath
first_or_cwd cwd none = cwd
first_or_cwd cwd (some p) = p

module _ (disk : Disk) where
  -- The nearest directory with `.trellis`, from a path whose segments are reversed; the root is not
  -- looked at.
  unfoldable pub nearest : List Text → Option FilePath
  nearest [] = none
  nearest (a ∷ up) =
      let above = nearest up in
      let here = reverse (a ∷ up) in
      if disk.is_dir (here ++ (dir_workflow ∷ [])) then some here else above

  -- `get_repo_root` for a resolved start and a resolved current directory.
  unfoldable pub get_repo_root : FilePath → FilePath → FilePath
  get_repo_root start cwd = first_or_cwd cwd (nearest (reverse start))

abbrev text_or_none : Text → Option Text
text_or_none [] = none
text_or_none (c ∷ s) = some (c ∷ s)

abbrev value_of : Option Text → Option Text
value_of none = none
value_of (some v) = text_or_none (strip is_space v)

-- The value of the first line that starts with `name=`.
unfoldable pub name_in : List Text → Option Text
name_in [] = none
name_in (line ∷ lines) =
    let rest = name_in lines in
    let (key, value) = partition b'=' line in
    if starts_with line (lit "name=") then value_of value else rest

-- `_read_developer_file`, where a file that is not there or cannot be read has no content.
unfoldable pub read_developer_file : Option Text → Option Text
read_developer_file none = none
read_developer_file (some content) = name_in (splitlines content)

abbrev or_name : Option Text → Option Text → Option Text
or_name none o = o
or_name (some v) o = some v

abbrev env_name : Option Text → Option Text
env_name none = none
env_name (some s) = text_or_none (strip is_space s)

-- The variable TRELLIS_DEVELOPER, the file of this checkout, and that of the main one, if this is a
-- linked worktree.
unfoldable pub get_developer : Option Text → Option Text → Option Text → Option Text
get_developer variable local_file main_file =
    or_name (env_name variable)
      (or_name (read_developer_file local_file) (read_developer_file main_file))

unfoldable pub check_developer : Option Text → Bool
check_developer none = false
check_developer (some name) = true

unfoldable pub get_workspace_dir : FilePath → Option Text → Option FilePath
get_workspace_dir repo_root none = none
get_workspace_dir repo_root (some []) = none
get_workspace_dir repo_root (some (c ∷ developer)) =
    some (repo_root ++ (dir_workflow ∷ lit "workspace" ∷ (c ∷ developer) ∷ []))

-- `count_lines`, where no content is no file or one that cannot be read.
unfoldable pub count_lines : Option Text → ℕ
count_lines none = 0
count_lines (some content) = length (splitlines content)
