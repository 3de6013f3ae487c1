-- ===== src/Workflow.antt =====
-- workflow/: the durable workflow as a fold over its journal's events.
pub mod Types
pub mod Transitions
pub mod Definition
pub mod Stages
pub mod Projection
pub mod Journal
