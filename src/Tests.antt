-- ===== src/Tests.antt =====
-- The development run on concrete inputs.
mod Data
mod PoolRuns
mod StepRuns
mod Services
mod Blocks
mod Requests
mod Approvals
mod Queries
mod Logs
mod Threads
mod Processes
