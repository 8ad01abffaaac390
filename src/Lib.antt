-- ===== src/Lib.antt =====
-- A verification of the Python programs of the repository: the node agent `scripts/proxy.py`, which
-- runs commands, transfers files and keeps port forwarding rules on a machine, and the scripts of
-- `.trellis/scripts/common`, which keep tasks, their references and the sessions that work on them.
-- The definitions translate the Python functions of the same names, without a leading underscore, and
-- can be run on concrete inputs; the modules under Tests do so.
--
-- Parts, and the files that model them:
--   Base      texts (lists of code points), native numbers, Python's `str` and `int` methods
--   Json      JSON values (`json.loads`), with `dict.get`, assignment and truth
--   Files     a file tree with `os.makedirs`, `open`, `os.remove`, `shutil.rmtree`, `os.listdir`
--   Yaml      .trellis/scripts/common/trellis_config.py, the parser of config.yaml
--   Config    .trellis/scripts/common/config.py, the settings; its warnings are a flag
--   Workflow  .trellis/scripts/common/workflow_phase.py, the lines of workflow.md that a caller sees
--   Tasks     .trellis/scripts/common: io.py (reading), types.py, tasks.py, task_queue.py, the
--             references of paths.py and active_task.py, and the lookup, containment and archive of
--             task_utils.py
--   Active    .trellis/scripts/common/active_task.py, the identity of a session and its active task
--   Commit    .trellis/scripts/common: git.py (the retry) and safe_commit.py (what is staged)
--   Workspace .trellis/scripts/common/paths.py, the repository root, the developer, the journals
--   Store     .trellis/scripts/common/task_store.py: State (the files and their writes), Slugs, Links
--             (links between tasks, single fields), Unlinking and Archiving (`cmd_archive`), Rewriting
--             and Renaming (`cmd_rename`), Drafts and Creating (`cmd_create`); the other files of the
--             folder hold the theorems
--   Adapter   .trellis/scripts/common/cli_adapter.py: Platforms, Paths (the files of agents and
--             commands), Commands (the command lines), Detect (`detect_platform`)
--   Proxy     scripts/proxy.py: Rule (rules and the config file), Manager (the rule table and the
--             listener threads), Request, Paths, Transfer (files), Routes (commands, rules, the HTTP
--             methods); the other files of the folder hold the theorems
--
-- How they interact: Config reads the entries that Yaml parses, and Workflow reads both. Tasks and
-- Active share the references and see the file system through the record `Disk`. A request to the
-- agent is a function of the `World`, which is the manager and the file tree, and gives a reply and the
-- next world, where `crashed` is an exception that no handler catches, and `spoiled` an answer
-- whose headers were sent before the file of a download failed to open. A command of the task store is
-- a function of the `Store`, which is the file tree with the sessions of Active, and gives its exit and
-- the next store.
--
-- State and steps: the agent's state is `World`, the manager's `Manager`, with the listeners of
-- removed rules beside the table until their threads end. `Step` has a constructor for each request
-- to the manager and for half a round of a listener thread, the test of its stop event or its poll,
-- and `Reach` is any sequence of them. The sessions' directory is a list of keys and JSON values. A
-- task.json in the tree of the `Store` is what reading it gives, another file its text. The writes
-- of a command are numbered from its start on, and `Host.lands` says which of them come through, so
-- that the loops have every pattern of failures; a write, a move or a directory that fails changes
-- nothing. The parser's state is the loop's variables.
--
-- Fuel: the YAML parser runs on one more than the number of lines, and every step uses a line up. The
-- read loop of an upload runs on the number of bytes still to read, and every chunk has at least one.
-- The lookup in nested dicts runs on one more than their depth. The digits of a number are printed on
-- one more than the number.
--
-- Parameters: the machine that the agent runs on is the record `Host` (UTF-8 decoding, `str` of
-- containers, messages and permissions of the system, the test for a float, the outcome of a command);
-- the answer to a bind, the clock and the bytes that arrive belong to the request. `Disk` has
-- `Path.resolve` with an OSError as `none`, and so covers links. `Process` has the environment, the
-- arguments, the times of tickets and SHA-256. `\w` outside of ASCII is a parameter of the workflow
-- headings.
--
-- Not modelled: sockets, the HTTP layer and the pump of a forwarded connection; the times of a
-- listing; what a command of /exec does to the files, which stay as they are; an answer that cannot
-- be encoded (a lone surrogate); links in the file tree, and deletions and moves that fail halfway;
-- `lower` outside of ASCII (but the Kelvin sign) and digits outside of ASCII in `int`; printing, and
-- what the task store reads for it alone (the references that a rename only reports, the listing of
-- a refused archive); the lifecycle hooks; text files that a failed write leaves half-written. The
-- other scripts, the Go programs, the web page and the vendored libraries are left out.
--
pub mod Base
pub mod Yaml
pub mod Config
pub mod Workflow
pub mod Json
pub mod Files
pub mod Proxy
pub mod Tasks
pub mod Active
pub mod Commit
pub mod Workspace
mod Tests
pub mod Store
pub mod Adapter
