-- ===== src/Policy.antt =====
-- policy/engine.ts: the policies of an organization and of a repository, as documents (Documents), and the
-- policy of a task that they bind together (Resolution).
pub mod Documents
pub mod Resolution
pub mod Tests
