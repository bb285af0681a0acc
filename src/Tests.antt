-- ===== src/Tests.antt =====
-- The theorems at concrete inputs.
mod World
mod Threads
mod Dictionaries
mod Lists
mod Segments
mod Schedules
mod Counters
mod Elections
mod Procons
mod Races
mod Libraries
mod Bank
