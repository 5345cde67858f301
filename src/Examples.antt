-- ===== src/Examples.antt =====
-- Small databases and registries, and what the theorems say of them.
mod Stores
mod Restores
mod Caches
mod Deletions
mod Agents
mod Histories
mod Enrollments
mod Services
mod Schedules
mod Cancellations
mod Requests
