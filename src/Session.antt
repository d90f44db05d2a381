-- ===== src/Session.antt =====
-- src/session: what is kept of a conversation, and what of it goes into a prompt.
pub mod Memory
pub mod Manager
pub mod Memories
