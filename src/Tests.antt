-- ===== src/Tests.antt =====
-- The theorems at concrete inputs.
mod Machine
mod Logs
mod Compilers
mod Classes
mod Texts
mod Vectors
mod Files
mod Web
mod Graphs
mod Metrics
mod Pools
mod Sources
mod Walks
mod Cleanup
mod Utils
