-- ===== src/Store/Drafts.antt =====
-- .trellis/scripts/common/task_store.py: what the arguments of `cmd_create` come to.
use taihu.Base.{
  ℕ, Bool, true, false, ◌&&◌, ◌||◌, Option, none, some, List, [], ◌∷◌, ◌++◌, if◌then◌else◌, Text,
  lit, strip, is_space,
}
use taihu.Json.{Json, null, str, arr, obj, nil, Fields, end, field}
use taihu.Files.Tree.{FilePath, TreeOf, is_dir}
use taihu.Yaml.Block.{Yaml, Entries}
use taihu.Config.Packages.{is_monorepo, validate_package, resolve_package, truthy}
use taihu.Config.Values.{DispatchMode, auto, inline, get_codex_dispatch_mode}
use taihu.Tasks.Info.{Read, Checked, read, failed, read_json_checked}
use taihu.Tasks.Dirs.{resolve_task_dir}
use taihu.Active.Sessions.{Io}
use taihu.Store.State.{Content, Host, disk_of, doc_at, Problem, no_parent, no_task_json, unread}
use taihu.Store.Slugs.{strip_blank}

-- The arguments of the command and what it reads besides the files: the configuration, the developer,
-- the branches, the day, and the session with the file system as it is once the task is there.
pub record CreateRun : Type 0 where
  pub title : Text
  pub priority : Text
  pub description : Option Text
  pub package_name : Option Text
  pub assignee : Option Text
  pub slug : Option Text
  pub parent : Option Text
  pub base_branch : Option Text
  pub meta : List Text
  pub force : Bool
  pub no_start : Bool
  pub config : Entries
  pub repr : Yaml → Text
  pub developer : Option Text
  pub default_branch : Option Text
  pub branch_out : Text
  pub today : Text
  pub date_prefix : Text
  pub wide : ℕ → Option ℕ
  pub io : Io
  pub tickets : List Fields

-- What the arguments come to.
pub record Draft : Type 0 where
  pub meta : Fields
  pub package_name : Option Text
  pub assignee : Text
  pub creator : Text
  pub slug : Text

-- The package of the task; `none` is a package that is not declared.
unfoldable pub chosen_package : Option Text → CreateRun → Option (Option Text)
chosen_package none run = some (resolve_package run.repr none run.config)
chosen_package (some name) run = if validate_package name run.config then some (some name) else none

abbrev pub package_of : CreateRun → Option (Option Text)
package_of run =
    if is_monorepo run.config then chosen_package (truthy run.package_name) run else some none

abbrev pub or_else_text : Option Text → Option Text → Option Text
or_else_text none other = other
or_else_text (some s) other = some s

abbrev pub or_main : Text → Text
or_main [] = lit "main"
or_main (c ∷ s) = c ∷ s

abbrev pub text_or : Option Text → Text → Text
text_or none other = other
text_or (some s) other = s

-- The branch given, the repository's default one, or the one that is checked out.
unfoldable pub base_branch_of : CreateRun → Text
base_branch_of run =
    text_or (or_else_text (truthy run.base_branch) (truthy run.default_branch))
      (or_main (strip is_space run.branch_out))

abbrev pub text_or_null : Option Text → Json
text_or_null none = null
text_or_null (some s) = str s

unfoldable pub task_data : CreateRun → Draft → Fields
task_data run draft = field (lit "id") (str draft.slug) (
    field (lit "name") (str draft.slug) (
      field (lit "title") (str run.title) (
        field (lit "description") (str (strip_blank run.description)) (
          field (lit "status") (str (lit "planning")) (
            field (lit "dev_type") null (
              field (lit "scope") null (
                field (lit "package") (text_or_null draft.package_name) (
                  field (lit "priority") (str run.priority) (
                    field (lit "creator") (str draft.creator) (
                      field (lit "assignee") (str draft.assignee) (
                        field (lit "createdAt") (str run.today) (
                          field (lit "completedAt") null (
                            field (lit "branch") null (
                              field (lit "base_branch") (str (base_branch_of run)) (
                                field (lit "worktree_path") null (
                                  field (lit "commit") null (
                                    field (lit "pr_url") null (
                                      field (lit "subtasks") (arr nil) (
                                        field (lit "children") (arr nil) (
                                          field (lit "parent") null (
                                            field (lit "relatedFiles") (arr nil) (
                                              field (lit "notes") (str []) (
                                                field (lit "meta") (obj draft.meta)
                                                  end)))))))))))))))))))))))

abbrev pub subagent_config_dirs : List FilePath
subagent_config_dirs =
    (lit ".claude" ∷ [])
    ∷ (lit ".cursor" ∷ [])
    ∷ (lit ".kiro" ∷ [])
    ∷ (lit ".gemini" ∷ [])
    ∷ (lit ".opencode" ∷ [])
    ∷ (lit ".qoder" ∷ [])
    ∷ (lit ".codebuddy" ∷ [])
    ∷ (lit ".factory" ∷ [])
    ∷ (lit ".github" ∷ lit "copilot" ∷ [])
    ∷ (lit ".pi" ∷ [])
    ∷ (lit ".trae" ∷ [])
    ∷ (lit ".omp" ∷ [])
    ∷ (lit ".zcode" ∷ [])
    ∷ (lit ".grok" ∷ [])
    ∷ (lit ".kimi-code" ∷ [])
    ∷ []

unfoldable pub any_dir : TreeOf Content → FilePath → List FilePath → Bool
any_dir tree repo [] = false
any_dir tree repo (p ∷ ps) = is_dir tree (repo ++ p) || any_dir tree repo ps

abbrev is_auto : DispatchMode × Bool → Bool
is_auto (auto, warned) = true
is_auto (inline, warned) = false

-- `_has_subagent_platform`
unfoldable pub has_subagent_platform : TreeOf Content → FilePath → Entries → Bool
has_subagent_platform tree repo config =
    any_dir tree repo subagent_config_dirs
    || (is_dir tree (repo ++ (lit ".codex" ∷ [])) && is_auto (get_codex_dispatch_mode config))

-- What `--parent` comes to: nothing, a task with its document, or a problem.
pub data Parent : Type 0 where
  no_link : Parent
  link_to : FilePath → Fields → Parent
  broken : Problem → Parent

abbrev pub parent_checked : FilePath → Checked → Parent
parent_checked p (failed reason) = broken (unread reason)
parent_checked p (read d) = link_to p d

abbrev pub parent_doc : FilePath → Option Read → Parent
parent_doc p none = broken no_task_json
parent_doc p (some r) = parent_checked p (read_json_checked r)

abbrev pub parent_at : TreeOf Content → Option FilePath → Parent
parent_at tree none = broken no_parent
parent_at tree (some p) = parent_doc p (doc_at p tree)

unfoldable pub parent_of : Host → FilePath → TreeOf Content → Option Text → Parent
parent_of host repo tree none = no_link
parent_of host repo tree (some name) =
    parent_at tree (resolve_task_dir (disk_of host tree) name repo)
