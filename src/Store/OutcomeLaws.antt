-- ===== src/Store/OutcomeLaws.antt =====
-- .trellis/scripts/common/task_store.py: the whole create command, from its arguments on.
use taihu.Files.Tree.{FilePath}
use taihu.Store.State.{Store, Host}
use taihu.Store.Drafts.{CreateRun, Draft, Parent, no_link, link_to, broken}
use taihu.Store.CreateLaws.{WasRead}

module _ (host : Host) (repo : FilePath) (run : CreateRun) (s : Store) where
  -- A parent that is no problem has been read.
  abbrev ReadOr : FilePath → Draft → Parent → Type 0
  ReadOr task draft no_link = Unit
  ReadOr task draft (link_to p pd) = WasRead host repo run s task draft (link_to p pd)
  ReadOr task draft (broken problem) = Unit
