-- ===== src/Session/Hitl.antt =====
-- The human-in-the-loop requests of marie-core/src/hitl: the form and its answers, the store in
-- memory, the service of a session.
pub mod Validate
pub mod Store
pub mod Service
pub mod Laws
pub mod Listing
pub mod Replies
pub mod Pending
mod Examples
