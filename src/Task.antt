-- ===== src/Task.antt =====
-- The A2A side of app/a2a: messages and their intents, the events of a task, and the executor.
pub mod Message
pub mod Session
pub mod Process
pub mod Filters
pub mod Payload
pub mod Executor
pub mod Rendering
pub mod Routine
pub mod World
