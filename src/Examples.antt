-- ===== src/Examples.antt =====
-- The theorems at concrete inputs, and runs of the program.
mod Kvs
mod Logs
mod Messages
mod Nodes
mod Updates
mod Streams
mod Puzzles
mod Locks
mod Commands
mod Confs
mod Covers
mod Searches
mod Connections
mod Pools
mod Web
mod Recoveries
