-- ===== src/Tasks/Archive.antt =====
-- .trellis/scripts/common/task_utils.py: the archive of a task directory.
use taihu.Base.{
  ◌≡◌, refl, ◌∙◌, not, ◌||◌, Option, none, some, [], ◌∷◌, ◌++◌, if◌then◌else◌, Text, lit, arith,
  inl, inr, Bool-cases,
}
use taihu.Files.Tree.{FilePath, TreeOf, NodeOf, find, is_dir, exists, parent, within, make_dirs}
use taihu.Files.Laws.{IsRooted, make_dirs-IsRooted}
use taihu.Files.Move.{move_tree, IsFree, find-move_tree, rooted-below, make_dirs-keeps, nothing_at}
use taihu.Tasks.Dirs.{path_name}

-- `archive_destination_for`, for the year and month that the clock gives.
unfoldable pub archive_destination_for : Text → FilePath → FilePath
archive_destination_for year_month task =
    parent task ++ (lit "archive" ∷ year_month ∷ path_name task ∷ [])

-- The move of a directory into itself is refused.
unfoldable pub move_to : {A : Type 0} → FilePath → FilePath → TreeOf A → Option FilePath × TreeOf A
move_to task dest t =
    if exists t dest || within task dest then (none, t) else (some dest, move_tree task dest t)

abbrev pub moved_after :
    {A : Type 0} → FilePath → FilePath → TreeOf A → Option (TreeOf A) → Option FilePath × TreeOf A
moved_after task dest t none = (none, t)
moved_after task dest t (some u) = move_to task dest u

unfoldable pub archive_task_dir :
    {A : Type 0} → Text → FilePath → TreeOf A → Option FilePath × TreeOf A
archive_task_dir year_month task t =
    let dest = archive_destination_for year_month task in
    if not (is_dir t task) then (none, t) else moved_after task dest t (make_dirs (parent dest) t)

move_to-find :
    {A : Type 0} (task dest d r : FilePath) (n : NodeOf A) (u : TreeOf A)
    → IsRooted u
    → (move_to task dest u).0 ≡ some d
    → find (task ++ r) u ≡ some n
    → (d ≡ dest) × (find (dest ++ r) (move_to task dest u).1 ≡ some n)
unfolding move_to
move_to-find task dest d r n u rooted h f = elim (Bool-cases (exists u dest || within task dest)) [
  | inl e ↦ ground arith
  | inr e ↦
      let same : d ≡ dest = ground arith in
      let free : IsFree dest u =
        λ s. nothing_at u (dest ++ s) (rooted-below u dest s rooted (ground arith)) in
      rw e (same, find-move_tree task dest r u free ∙ f)
]

moved_after-find :
    {A : Type 0} (task dest d r : FilePath) (n : NodeOf A) (t : TreeOf A) (o : Option (TreeOf A))
    → IsRooted t
    → make_dirs (parent dest) t ≡ o
    → (moved_after task dest t o).0 ≡ some d
    → find (task ++ r) t ≡ some n
    → (d ≡ dest) × (find (dest ++ r) (moved_after task dest t o).1 ≡ some n)
moved_after-find task dest d r n t none rooted m h f = ground arith
moved_after-find task dest d r n t (some u) rooted m h f =
    move_to-find task dest d r n u (make_dirs-IsRooted (parent dest) t u rooted m).0 h
      (make_dirs-keeps (parent dest) (task ++ r) n t u m f)

pub archive_task_dir-find :
    {A : Type 0} (year_month : Text) (task d r : FilePath) (n : NodeOf A) (t : TreeOf A)
    → IsRooted t
    → (archive_task_dir year_month task t).0 ≡ some d
    → find (task ++ r) t ≡ some n
    → (d ≡ archive_destination_for year_month task)
      × (find (d ++ r) (archive_task_dir year_month task t).1 ≡ some n)
unfolding archive_task_dir
archive_task_dir-find year_month task d r n t rooted h f = elim (Bool-cases (is_dir t task)) [
  | inr e ↦ ground arith
  | inl e ↦
      let dest = archive_destination_for year_month task in
      let (same, there) =
        moved_after-find task dest d r n t (make_dirs (parent dest) t) rooted refl
          (rw (archive_task_dir, e) at h) f in
      rw (e, same) (refl, there)
]

move_to-refused :
    {A : Type 0} (task dest : FilePath) (t : TreeOf A)
    → (move_to task dest t).0 ≡ none
    → (move_to task dest t).1 ≡ t
unfolding move_to
move_to-refused task dest t h = elim (Bool-cases (exists t dest || within task dest)) [
  | inl e ↦ rw e refl
  | inr e ↦ ground arith
]

moved_after-refused :
    {A : Type 0} (task dest x : FilePath) (n : NodeOf A) (t : TreeOf A) (o : Option (TreeOf A))
    → make_dirs (parent dest) t ≡ o
    → (moved_after task dest t o).0 ≡ none
    → find x t ≡ some n
    → find x (moved_after task dest t o).1 ≡ some n
moved_after-refused task dest x n t none m h f = f
moved_after-refused task dest x n t (some u) m h f =
    rw (move_to-refused task dest u h) (make_dirs-keeps (parent dest) x n t u m f)

-- Where archiving is refused, nothing that was there is lost or changed.
pub archive_task_dir-refused :
    {A : Type 0} (year_month : Text) (task x : FilePath) (n : NodeOf A) (t : TreeOf A)
    → (archive_task_dir year_month task t).0 ≡ none
    → find x t ≡ some n
    → find x (archive_task_dir year_month task t).1 ≡ some n
unfolding archive_task_dir
archive_task_dir-refused year_month task x n t h f = elim (Bool-cases (is_dir t task)) [
  | inr e ↦ rw e f
  | inl e ↦
      let dest = archive_destination_for year_month task in
      rw e (
        moved_after-refused task dest x n t (make_dirs (parent dest) t) refl
          (rw (archive_task_dir, e) at h) f)
]
