-- ===== src/Tests.antt =====
-- Concrete inputs, and the theorems at them.
mod Accounts
mod Events
mod Externals
mod Instructions
mod Storage
mod Stored
mod Adapting
mod Adapters
mod Plugins
