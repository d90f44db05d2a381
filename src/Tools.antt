-- ===== src/Tools.antt =====
-- src/tools: the tools that the model calls, and the policies that they share.
pub mod Files
pub mod Http
pub mod Identity
pub mod Input
pub mod Network
pub mod Notify
pub mod Promises
pub mod Schedule
pub mod Shell
pub mod ShellPolicy
