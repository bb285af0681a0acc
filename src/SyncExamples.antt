-- ===== src/SyncExamples.antt =====
-- sync-examples: threads that count, elect leaders, and hand over data, with and without locks.
pub mod Threads
pub mod Lock
pub mod Outline
pub mod Holding
pub mod Status
pub mod Quiet
pub mod Counting
pub mod Counter1
pub mod Counter2
pub mod Counter3
pub mod Counter4
pub mod Election
pub mod Election1
pub mod Election2
pub mod Election3
pub mod Election4
pub mod Procon
pub mod Procon1
pub mod Procon2
pub mod Procon4
