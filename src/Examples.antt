-- ===== src/Examples.antt =====
-- The theorems at concrete inputs.
mod Books
mod Engines
mod Codec
mod Logs
mod Snapshots
mod Pools
