-- ===== src/Examples.antt =====
-- Concrete data for the tests: a workflow of two tasks, where the second waits for the first, which
-- a worker is executing, and the queue that goes with it.
pub mod Sample
mod Executions
mod Queue
mod Runtime
mod Triggers
mod Launch
mod Definitions
mod Catalog
mod Requests
mod Config
