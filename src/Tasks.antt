-- ===== src/Tasks.antt =====
-- .trellis/scripts/common: types.py, tasks.py, task_queue.py, and the task references and directories
-- of paths.py, active_task.py and task_utils.py.
pub mod Info
pub mod Queue
pub mod QueueLaws
pub mod Plain
pub mod Refs
pub mod Segments
pub mod Dirs
pub mod Archive
