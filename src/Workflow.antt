-- ===== src/Workflow.antt =====
-- .trellis/scripts/common/workflow_phase.py: steps and platform blocks of workflow.md.
pub mod Markers
pub mod Steps
pub mod Platform
pub mod Laws
