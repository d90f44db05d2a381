-- ===== src/Notifications.antt =====
-- Notifications (src/notifications): the queue with its records, and the worker that sends.
pub mod Queue
pub mod Prune
pub mod Backoff
pub mod Worker
pub mod Delivery
