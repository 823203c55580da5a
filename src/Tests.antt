-- ===== src/Tests.antt =====
-- Concrete inputs for the other modules.
mod Buffers
mod Caches
mod Locks
mod Prompting
mod Histories
mod Leases
mod Threads
mod Queues
mod Recalls
mod Permissions
