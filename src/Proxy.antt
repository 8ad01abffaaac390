-- ===== src/Proxy.antt =====
-- scripts/proxy.py: the node agent. One HTTP server executes commands, transfers files and manages
-- port forwarding rules.
pub mod Rule
pub mod Manager
pub mod TableLaws
pub mod Lifecycle
pub mod Spec
pub mod Request
pub mod Paths
pub mod Transfer
pub mod Routes
pub mod Sound
pub mod Safety
pub mod Content
