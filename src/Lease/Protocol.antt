-- ===== src/Lease/Protocol.antt =====
-- lease/protocol.rs, and what the lease code uses of `chrono`.
use marie.Base.{ℕ, Bool, Option}
use marie.Id.{UniqueId, SessionId, NodeId}

-- `chrono`: an instant, a signed length of time, their sum, the order of instants and
-- `DateTime::default()`.
pub record Chrono (Time Span : Type 0) : Type 0 where
  pub plus : Time → Span → Time
  pub le : Time → Time → Bool
  pub default_time : Time

pub data LeaseOp (Span : Type 0) : Type 0 where
  acquire : NodeId → Span → LeaseOp Span
  renew : NodeId → ℕ → Span → LeaseOp Span
  release : NodeId → ℕ → LeaseOp Span

pub record LeaseRequest (Span : Type 0) : Type 0 where
  pub request_id : UniqueId
  pub session_id : SessionId
  pub op : LeaseOp Span

pub data LeaseResult (Time : Type 0) : Type 0 where
  granted : ℕ → Time → LeaseResult Time
  renewed : Time → LeaseResult Time
  denied : NodeId → ℕ → LeaseResult Time
  not_leader : Option NodeId → LeaseResult Time

pub record LeaseResponse (Time : Type 0) : Type 0 where
  pub request_id : UniqueId
  pub result : LeaseResult Time
