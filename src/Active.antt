-- ===== src/Active.antt =====
-- .trellis/scripts/common/active_task.py: the identity of a session and the task it points at.
pub mod Keys
pub mod Env
pub mod Tickets
pub mod SafeTexts
pub mod Safe
pub mod Isolation
pub mod Sessions
pub mod Pointer
pub mod SessionLaws
pub mod PointerLaws
