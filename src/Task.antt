-- ===== src/Task.antt =====
-- artifacts/task-event-model.ts: the events of a task (Types), which of them are well formed (Validation),
-- and what they do to its projection (Attempts for the events of an attempt, Projection for all).
-- artifacts/task-journal.ts: the files that the events are kept in (Journal).
pub mod Types
pub mod Attempts
pub mod Validation
pub mod Projection
pub mod Journal
