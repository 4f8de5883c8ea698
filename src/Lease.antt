-- ===== src/Lease.antt =====
-- The session leases of marie-core/src/lease: the protocol, the authority that a Raft group
-- replicates, its storage, and what holds of them over any history of requests.
pub mod Protocol
pub mod Authority
pub mod Storage
mod Examples
