-- ===== src/Kernel.antt =====
-- The agent kernel (src/kernel): permissions, and the decision whether a tool may run.
pub mod Permission
pub mod Capability
pub mod Syntax
pub mod Tool
pub mod Timeout
pub mod Invoke
pub mod Builder
