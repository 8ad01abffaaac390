-- ===== src/Tasks/Dirs.antt =====
-- .trellis/scripts/common/task_utils.py: the lookup of a task directory and its containment, and
-- the archive.
use taihu.Base.{
  ◌≡◌, ◌∙◌, All, refl, arith, inl, inr, ◌⊎◌, Bool, true, false, not, ◌&&◌, ◌||◌, Bool-cases, Option,
  none, some, List, [], ◌∷◌, ◌++◌, if◌then◌else◌, Text, lit, ◌==◌, is_empty, starts_with, ends_with,
  has, is_abs,
}
use taihu.Files.Tree.{relative_to, FilePath, same_path, parent}
use taihu.Tasks.Plain.{is_plain}
use taihu.Tasks.Refs.{Disk, dir_workflow, dir_tasks, path_parts, join_at, forward, drop_dots}
use taihu.Tasks.Segments.{IsSegment, join_at-segment}

-- `get_tasks_dir`
unfoldable pub get_tasks_dir : FilePath → FilePath
get_tasks_dir repo_root = repo_root ++ (dir_workflow ∷ dir_tasks ∷ [])

-- The last segment.
unfoldable pub path_name : FilePath → Text
path_name [] = []
path_name (a ∷ []) = a
path_name (a ∷ b ∷ p) = path_name (b ∷ p)

unfoldable pub is_invalid_name : Text → Bool
is_invalid_name name = has b'/' name || has b'\\' name || name == lit "." || name == lit ".."

module _ (disk : Disk) where
  unfoldable pub is_within_tasks_dir : FilePath → FilePath → Bool
  is_within_tasks_dir task_dir repo_root = elim (disk.resolve task_dir) [
    | none ↦ false
    | some resolved ↦ elim (disk.resolve (get_tasks_dir repo_root)) [
      | none ↦ false
      | some tasks ↦ same_path (parent resolved) tasks && not (path_name resolved == lit "archive")
    ]
  ]

  -- The directories whose name ends in a dash and the task's name.
  unfoldable pub suffix_matches : Text → FilePath → List Text → List Text
  suffix_matches name tasks [] = []
  suffix_matches name tasks (d ∷ ds) =
      let rest = suffix_matches name tasks ds in
      if disk.is_dir (tasks ++ (d ∷ [])) && ends_with d (b'-' ∷ name) then d ∷ rest else rest

  abbrev pub unique : FilePath → List Text → Option FilePath
  unique tasks [] = none
  unique tasks (d ∷ []) = some (tasks ++ (d ∷ []))
  unique tasks (d ∷ e ∷ ds) = none

  unfoldable pub find_task_by_name : Text → FilePath → Option FilePath
  find_task_by_name name tasks =
      if is_empty name || not (disk.is_dir tasks)
      then none
      else if is_invalid_name name
      then none
      else if disk.is_dir (join_at tasks name)
      then some (join_at tasks name)
      else unique tasks (suffix_matches name tasks (disk.names tasks))

  -- The path that is then resolved.
  unfoldable pub task_candidate : Text → FilePath → Option FilePath
  task_candidate target repo_root =
      let normalized = drop_dots (forward target) in
      if is_abs target
      then some (path_parts target)
      else if has b'/' normalized || starts_with normalized (lit ".trellis")
      then some (join_at repo_root normalized)
      else find_task_by_name target (get_tasks_dir repo_root)

  abbrev strictly_below : FilePath → Option FilePath → Option FilePath
  strictly_below tasks none = none
  strictly_below tasks (some []) = none
  strictly_below tasks (some (a ∷ rel)) = some (tasks ++ (a ∷ rel))

  abbrev located : FilePath → Option FilePath → Option FilePath → Option FilePath
  located tasks (some resolved) (some tasks_resolved) =
      strictly_below tasks (relative_to tasks_resolved resolved)
  located tasks _ _ = none

  abbrev resolve_candidate : Option FilePath → Option FilePath → Option FilePath
  resolve_candidate (some candidate) (some root) =
      located (get_tasks_dir root) (disk.resolve candidate) (disk.resolve (get_tasks_dir root))
  resolve_candidate _ _ = none

  unfoldable pub resolve_task_dir : Text → FilePath → Option FilePath
  resolve_task_dir target repo_root =
      if is_empty target
      then none
      else resolve_candidate (task_candidate target repo_root) (disk.resolve repo_root)

  -- The path is that of something below the directory, with no part that leads out of it again.
  abbrev pub Inside : FilePath → FilePath → Type 0
  Inside tasks p = (a : Text) × (rel : FilePath) × (p ≡ tasks ++ (a ∷ rel)) × (is_plain p ≡ true)

  -- The name of something directly in a directory: one part of a path, not `.` and not `..`.
  pub record IsName (d : Text) : Type 0 where
    pub segment : IsSegment d
    pub not_up : (d == lit "..") ≡ false

  -- What a name finds: the directory of that name, or the only one with the name as its suffix.
  abbrev pub Found : Text → FilePath → Text → Type 0
  Found name tasks d = (d ≡ name) ⊎ (suffix_matches name tasks (disk.names tasks) ≡ d ∷ [])

  suffix_matches-only :
      (name : Text) (tasks : FilePath) (ds : List Text) (d : Text)
      → All IsName ds
      → suffix_matches name tasks ds ≡ d ∷ []
      → (disk.is_dir (tasks ++ (d ∷ [])) ≡ true) × IsName d
  unfolding suffix_matches
  suffix_matches-only name tasks [] d all h = ground arith
  suffix_matches-only name tasks (e ∷ ds) d all h =
      elim (Bool-cases (disk.is_dir (tasks ++ (e ∷ [])) && ends_with e (b'-' ∷ name))) [
        | inr c ↦ suffix_matches-only name tasks ds d all.1 (rw (c, suffix_matches) at h)
        | inl c ↦
            let k : e ∷ suffix_matches name tasks ds ≡ d ∷ [] = rw (c, suffix_matches) at h in
            let same : d ≡ e = cc in rw same (ground arith, all.0)
      ]

  unique-Found :
      (tasks p : FilePath) (ds : List Text)
      → unique tasks ds ≡ some p
      → (d : Text) × (p ≡ tasks ++ (d ∷ [])) × (ds ≡ d ∷ [])
  unique-Found tasks p [] h = ground arith
  unique-Found tasks p (d ∷ []) h = (d, cc, refl)
  unique-Found tasks p (d ∷ e ∷ ds) h = ground arith

  valid-IsName : (name : Text) → is_empty name ≡ false → is_invalid_name name ≡ false → IsName name
  unfolding is_invalid_name
  valid-IsName name e h = record {
    segment = record { no_slash = ground arith; kept = ground arith };
    not_up = ground arith;
  }

  -- A name finds only directories directly in the tasks directory, the one of that name or the only one
  -- with it as its suffix, if the names in that directory are names: then what is found is one part
  -- below the tasks directory, not `.` and not `..`.
  pub find_task_by_name-Found :
      (name : Text) (tasks p : FilePath)
      → All IsName (disk.names tasks)
      → find_task_by_name name tasks ≡ some p
      → (d : Text) × (p ≡ tasks ++ (d ∷ []))
        × (disk.is_dir p ≡ true)
        × Found name tasks d
        × IsName d
  unfolding find_task_by_name
  find_task_by_name-Found name tasks p all h =
      elim (Bool-cases (is_empty name || not (disk.is_dir tasks))) [
        | inl a ↦ ground arith
        | inr a ↦ elim (Bool-cases (is_invalid_name name)) [
          | inl b ↦ ground arith
          | inr b ↦ elim (Bool-cases (disk.is_dir (join_at tasks name))) [
            | inl c ↦
                let valid = valid-IsName name (ground arith) b in
                let e : p ≡ join_at tasks name = ground arith in
                (name, e ∙ join_at-segment tasks name valid.segment, rw e c, inl refl, valid)
            | inr c ↦
                let (d, e, only) =
                  unique-Found tasks p (suffix_matches name tasks (disk.names tasks))
                    (rw (a, b, c, find_task_by_name) at h) in
                let (dir, valid) = suffix_matches-only name tasks (disk.names tasks) d all only in
                (d, e, rw e dir, inr only, valid)
          ]
        ]
      ]
