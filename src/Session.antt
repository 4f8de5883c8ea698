-- ===== src/Session.antt =====
-- The sessions of marie-core/src/session and the human-in-the-loop requests of marie-core/src/hitl.
pub mod Model
pub mod Hitl
pub mod RunLogs
pub mod Protocol
pub mod Channel
pub mod Spec
pub mod Logs
pub mod Graphs
pub mod Sessions
pub mod Snapshots
pub mod Frames
pub mod Checkpointer
pub mod Controller
pub mod Worker
mod Examples
