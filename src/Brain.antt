-- ===== src/Brain.antt =====
-- bot/brain.go: the long-term memories behind their leases.
pub mod Datum
pub mod Loop
pub mod View
pub mod Answers
pub mod CheckOut
pub mod Release
pub mod Tick
pub mod Moves
pub mod Leases
pub mod Writes
pub mod Waiters
