-- ===== src/Lease/Storage.antt =====
-- lease/storage.rs: the Raft log in memory, and the state machine around `LeaseAuthority`. What
-- openraft supplies (log identifiers with their index, votes, memberships) and the JSON codec are
-- parameters; the `Mutex` makes each method one step.
mod Log
mod Machine
pub mod LogLaws
pub mod Replicas
pub use Log.*
pub use Machine.*
