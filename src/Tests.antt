-- ===== src/Tests.antt =====
-- Concrete runs of the theorems, by part of the program.
mod Policy
mod Patch
mod Tools
mod Queue
mod Agents
mod Session
mod Config
mod Client
mod Capsule
mod Containers
mod Handler
mod Daemon
mod Planned
mod Answers
mod Runner
mod Wiring
