-- ===== src/Session/Checkpointer/Untouched.antt =====
-- No handler of the checkpointer writes a store, changes the session or takes back what was sent.
pub mod Marks
pub mod Appends
pub mod Commits
pub mod Handlers
