-- ===== src/Examples.antt =====
-- The theorems at concrete inputs.
mod Buffers
mod Codecs
mod Connections
mod Loops
mod Pools
mod Servers
mod Logs
mod Programs
mod Lifecycles
mod Systems
mod Statistics
