-- ===== src/Tests/AdapterTests.antt =====
-- .trellis/scripts/common/cli_adapter.py: commands and platforms of a concrete project.
use taihu.Base.{◌≡◌, refl, false, true, Option, none, some, [], ◌∷◌, ◌++◌, Text, lit, ◌==◌, has}
use taihu.Files.Tree.{FilePath, same_path}
use taihu.Tasks.Refs.{Disk, join_at}
use taihu.Adapter.Platforms.{Platform, cursor, codex, kiro, claude}
use taihu.Adapter.Paths.{get_commands_path, get_trellis_command_path}
use taihu.Adapter.PathLaws.{get_commands_path-get_trellis_command_path}
use taihu.Adapter.Commands.{extract_session_id_from_log}
use taihu.Adapter.Detect.{detect_platform}

abbrev root : FilePath
root = lit "work" ∷ []

plain_run : has b'/' (lit "check") ≡ false
unfolding has
plain_run = refl

get_commands_path-get_trellis_command_path_example :
    get_commands_path cursor root (lit "trellis" ∷ (lit "check" ++ lit ".md") ∷ [])
    ≡ join_at root (get_trellis_command_path cursor (lit "check"))
get_commands_path-get_trellis_command_path_example =
    get_commands_path-get_trellis_command_path root (lit "check") plain_run cursor refl

session_run : extract_session_id_from_log (lit "id ses_ ses_aB3.") ≡ some (lit "ses_aB3")
unfolding extract_session_id_from_log taihu.Base.starts_with taihu.Adapter.Commands.take_alnum
session_run = refl

abbrev disk : Disk
disk = record {
  resolve = some;
  is_dir = λ p. same_path p (lit "work" ∷ lit ".codex" ∷ []);
  names = λ p. [];
}

codex_run : detect_platform disk root none ≡ codex
unfolding detect_platform taihu.Adapter.Platforms.platform_in ◌==◌
    taihu.Adapter.Platforms.platform_name taihu.Base.lower taihu.Adapter.Detect.first_rule same_path
    taihu.Adapter.Detect.other_dir taihu.Adapter.Detect.excluded
codex_run = refl

alias_run : detect_platform disk root (some (lit "Kiro")) ≡ kiro
unfolding detect_platform taihu.Adapter.Platforms.platform_in ◌==◌
    taihu.Adapter.Platforms.platform_name taihu.Base.lower
alias_run = refl
