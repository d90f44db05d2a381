-- ===== src/Examples.antt =====
-- Concrete data, and the theorems applied to it.
mod Agents
mod Api
mod Providers
mod Channels
mod Kernel
mod Permissions
mod Notifications
mod Scheduler
mod Tools
mod Whatsapp
