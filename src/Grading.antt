-- ===== src/Grading.antt =====
-- grading/: the transactions that a grader runs on a transactional library, and its bank.
pub mod Library
pub mod Transaction
pub mod Ensures
pub mod Steady
pub mod Bank
pub mod Workload
