-- ===== src/Tests.antt =====
-- The theorems at concrete inputs.
mod Queues
mod Threads
mod Guards
mod Locks
mod Devices
mod Streams
mod Screens
mod Inputs
mod Gates
mod Segments
mod Contexts
mod Syscalls
mod Apics
mod Systems
mod Detection
