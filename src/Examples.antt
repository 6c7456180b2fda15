-- ===== src/Examples.antt =====
-- Concrete runs and the theorems at concrete inputs.
mod Keys
mod Ranges
mod Collections
mod Scans
mod InMemory
mod Gate
mod Chains
mod Engine
mod Persistent
mod Records
mod Reopened
mod Consistency
mod Sessions
mod Reads
mod Threads
mod Resume
mod Lookups
