-- ===== src/Providers.antt =====
-- The providers of language models (src/providers): which model is asked, and how often.
pub mod Retry
pub mod Router
