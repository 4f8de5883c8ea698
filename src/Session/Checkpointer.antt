-- ===== src/Session/Checkpointer.antt =====
-- The checkpointer of a session (marie-core/src/session/checkpointer): it reacts to the events of the
-- frames, commits what their runs wrote and decides which frame runs next.
pub mod State
pub mod Keeps
pub mod Extends
pub mod Steps
pub mod Marks
pub mod Inheritance
pub mod Commits
pub mod Appends
pub mod Children
pub mod Runs
pub mod Handlers
pub mod Untouched
pub mod Growth
pub mod Outcomes
pub mod Joins
pub mod Exports
pub mod Drains
pub mod Committing
pub mod Deliveries
pub mod Barriers
pub mod Answers
pub mod Siblings
pub mod FanIn
mod Examples
mod Witnesses
mod Families
