-- ===== src/Tests.antt =====
-- Runs of the definitions, and the theorems at concrete inputs.
mod YamlTests
mod ProxyTests
mod ConfigTests
mod WorkflowTests
mod TaskTests
mod ActiveTests
mod ArchiveTests
mod CommitTests
mod WorkspaceTests
mod StoreTests
mod CommandTests
mod AdapterTests
