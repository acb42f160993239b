-- ===== src/Tests.antt =====
-- Test data and examples.
mod Tree
mod Ipc
mod Vars
mod Flows
mod Io
mod Limits
mod Worlds
mod Files
mod Paths
mod Dirs
mod Runtime
mod Threads
mod Procs
