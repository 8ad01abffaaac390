-- ===== src/Tests/ArchiveTests.antt =====
-- .trellis/scripts/common/task_utils.py: the archive of a concrete task.
use taihu.Base.{◌≡◌, refl, none, [], ◌∷◌, ◌++◌, lit, ◌==◌}
use taihu.Files.Tree
use taihu.Files.Tree.{FilePath, Tree, Node, dir, file, node_at, is_dir, relative_to, same_path}
use taihu.Tasks.Archive.{archive_task_dir}

abbrev task_dir : FilePath
task_dir = lit "tasks" ∷ lit "a" ∷ []

abbrev bare : Tree
bare = (lit "tasks" ∷ [], dir) ∷ (task_dir, dir) ∷ []

abbrev tree : Tree
tree = (lit "tasks" ∷ [], dir) ∷ (task_dir, dir) ∷ (task_dir ++ (lit "f" ∷ []), file (1 ∷ [])) ∷ []

abbrev archived : FilePath
archived = lit "tasks" ∷ lit "archive" ∷ lit "2026-11" ∷ lit "a" ∷ []

refused_run : (archive_task_dir (lit "2026-11") (lit "tasks" ∷ lit "b" ∷ []) tree).0 ≡ none
unfolding archive_task_dir is_dir node_at Tree.find same_path ◌==◌
refused_run = refl
