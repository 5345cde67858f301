-- ===== src/Store.antt =====
-- internal/server/store: the persistence layer of the server.
pub mod Outcome
pub mod Db
pub mod Retry
pub mod Cache
pub mod Runs
pub mod TargetPath
pub mod Restores
pub mod Deletions
pub mod Agents
pub mod Repositories
pub mod Plans
pub mod History
pub mod Steps
