-- ===== src/Session/Frames.antt =====
-- The frames of a session (marie-core/src/session/frames): the nodes, their store and cache, and
-- the tree that they form.
pub mod Policy
pub mod Node
pub mod Store
pub mod Container
pub mod Tree
mod Examples
