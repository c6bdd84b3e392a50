-- ===== src/Resources.antt =====
-- app/infrastructure/resources: resources that are created on first use, and their closing.
pub mod Tasks
pub mod Lazy
pub mod Closing
