-- ===== src/Store/State.antt =====
-- .trellis/scripts/common/task_store.py: the files that the commands read and write.
use taihu.Base.{
  ℕ, suc, ◌≡◌, refl, arith, Bool, true, false, Option, none, some, [], ◌∷◌, ◌++◌, if◌then◌else◌,
  Text, lit, ==_refl,
}
use taihu.Json.{obj, Fields}
use taihu.Files.Tree.{
  FilePath, same_path, NodeOf, dir, file, TreeOf, find, is_dir, list_dir, set_node,
}
use taihu.Files.Laws.{find-set_node}
use taihu.Tasks.Refs.{Disk}
use taihu.Tasks.Info.{Read, invalid, parsed, Reason}
use taihu.Active.Sessions.{Sessions}

-- A task.json, by what reading it gives, or another file, by its text, which is `none` where it cannot
-- be read.
pub data Content : Type 0 where
  json : Read → Content
  text : Option Text → Content

pub record Store : Type 0 where
  pub tree : TreeOf Content
  pub sessions : Sessions
  pub writes : ℕ

-- `Path.resolve`, whose `none` is an OSError, and whether the write with a number, counted from the
-- start of the command, comes through.
pub record Host : Type 0 where
  pub resolve : FilePath → Option FilePath
  pub lands : ℕ → Bool

abbrev pub disk_of : Host → TreeOf Content → Disk
disk_of host t = record { resolve = host.resolve; is_dir = is_dir t; names = λ p. list_dir p t }

abbrev pub file_task_json : Text
file_task_json = lit "task.json"

abbrev pub doc_of : Option (NodeOf Content) → Option Read
doc_of none = none
doc_of (some dir) = none
doc_of (some (file (json r))) = some r
doc_of (some (file (text t))) = some invalid

-- The task.json of a directory, if that is a file.
unfoldable pub doc_at : FilePath → TreeOf Content → Option Read
doc_at p t = doc_of (find (p ++ (file_task_json ∷ [])) t)

unfoldable pub put_doc : FilePath → Fields → TreeOf Content → TreeOf Content
put_doc p d t = set_node (p ++ (file_task_json ∷ [])) (file (json (parsed (obj d)))) t

-- `write_json`, which is atomic: a write that fails changes nothing.
unfoldable pub write_json : Host → FilePath → Fields → Store → Bool × Store
write_json host p d s =
    if host.lands s.writes
    then (true, record s { tree = put_doc p d s.tree; writes = suc s.writes })
    else (false, record s { writes = suc s.writes })

-- What is wrong with a command that does not succeed.
pub data Problem : Type 0 where
  unresolved missing_argument no_task_json already_a_child not_written half_written : Problem
  no_title no_description bad_meta bad_package no_developer bad_slug no_parent : Problem
  not_a_task outside already_there already_archived same_name bad_branch not_moved : Problem
  child_not_unlinked not_committed interrupted not_linked : Problem
  unread : Reason → Problem

-- How a command ends: with exit code 0 or 1, or by an exception that nothing catches.
pub data Exit : Type 0 where
  done : Exit
  refused : Problem → Exit
  crashed : Exit

same_path-concat :
    (p q : FilePath) (a : Text) → same_path (p ++ (a ∷ [])) (q ++ (a ∷ [])) ≡ same_path p q
unfolding same_path
same_path-concat [] [] a = rw (==_refl a) refl
same_path-concat [] (c ∷ []) a = ground arith
same_path-concat [] (c ∷ d ∷ q) a = ground arith
same_path-concat (b ∷ []) [] a = ground arith
same_path-concat (b ∷ c ∷ p) [] a = ground arith
same_path-concat (b ∷ p) (c ∷ q) a = rw (same_path-concat p q a) refl

pub doc_at-put_doc :
    (p q : FilePath) (d : Fields) (t : TreeOf Content)
    → doc_at q (put_doc p d t) ≡ (if same_path p q then some (parsed (obj d)) else doc_at q t)
unfolding doc_at put_doc
doc_at-put_doc p q d t = ground (
  arith,
  find-set_node (p ++ (file_task_json ∷ [])) (q ++ (file_task_json ∷ []))
      (file (json (parsed (obj d)))) t,
  same_path-concat p q file_task_json,
)
