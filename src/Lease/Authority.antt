-- ===== src/Lease/Authority.antt =====
-- lease/authority.rs: `LeaseAuthority`, which decides who holds the lease of a session. A method
-- returns its result and the new authority; the clock that it reads is an argument.
pub mod Invariant
pub mod Fencing
use marie.Base.{
  ℕ, ◌+◌, ◌%◌, ◌^◌, Bool, not, ◌&&◌, Option, none, some, ◌==◌, if◌then◌else◌, List, [], ◌∷◌,
}
use marie.Base.HashMap
use marie.Base.HashMap.{HashMap}
use marie.Id.{UniqueId, SessionId, NodeId, id_eq, node_eq}
use marie.Base.{nat_eq}
use marie.Lease.Protocol.{
  Chrono, LeaseOp, LeaseRequest, LeaseResult, LeaseResponse, granted, renewed, denied,
}

pub record LeaseEntry (Time : Type 0) : Type 0 where
  pub holder : NodeId
  pub epoch : ℕ
  pub expires_at : Time

pub record LeaseAuthority (Time : Type 0) : Type 0 where
  pub leases : HashMap SessionId (LeaseEntry Time)
  pub epochs : HashMap SessionId ℕ

-- `LeaseAuthority::default()`
abbrev pub new : {Time : Type 0} → LeaseAuthority Time
new = record { leases = HashMap.empty; epochs = HashMap.empty }

module _ {Time Span : Type 0} (chrono : Chrono Time Span) where
  unfoldable pub has_expired : LeaseEntry Time → Time → Bool
  has_expired lease t = chrono.le lease.expires_at t

  unfoldable pub release :
      LeaseAuthority Time → SessionId → NodeId → ℕ → LeaseResult Time × LeaseAuthority Time
  release a session_id holder epoch = elim (HashMap.get a.leases session_id) [
    | some lease ↦
        if lease.holder == holder && lease.epoch == epoch
        then (renewed chrono.default_time, record a { leases = HashMap.remove a.leases session_id })
        else (denied lease.holder lease.epoch, a)
    | none ↦ (denied holder 0, a)
  ]

  unfoldable pub renew :
      LeaseAuthority Time
      → Time
      → SessionId
      → NodeId
      → ℕ
      → Span
      → LeaseResult Time × LeaseAuthority Time
  renew a now session_id holder epoch ttl = elim (HashMap.get a.leases session_id) [
    | some lease ↦
        if lease.holder == holder && lease.epoch == epoch
        then (
          renewed (chrono.plus now ttl),
          record a {
            leases =
                HashMap.insert a.leases session_id
                  (record lease { expires_at = chrono.plus now ttl });
          },
        )
        else (denied lease.holder lease.epoch, a)
    | none ↦ (denied holder 0, a)
  ]

  -- `entry(..).and_modify(|e| *e += 1).or_insert(1)` on a `u64`
  unfoldable pub next_epoch : LeaseAuthority Time → SessionId → ℕ
  next_epoch a session_id = elim (HashMap.get a.epochs session_id) [
    | some e ↦ (e + 1) % 2 ^ 64
    | none ↦ 1
  ]

  -- The second half of `acquire`, where no unexpired lease stands in the way.
  unfoldable pub grant :
      LeaseAuthority Time
      → Time
      → SessionId
      → NodeId
      → Span
      → LeaseResult Time × LeaseAuthority Time
  grant a now session_id holder ttl =
      let epoch = next_epoch a session_id in
      let expires_at = chrono.plus now ttl in
      (
        granted epoch expires_at,
        record {
          leases =
              HashMap.insert a.leases session_id
                (record { holder = holder; epoch = epoch; expires_at = expires_at });
          epochs = HashMap.insert a.epochs session_id epoch;
        },
      )

  unfoldable pub acquire :
      LeaseAuthority Time
      → Time
      → SessionId
      → NodeId
      → Span
      → LeaseResult Time × LeaseAuthority Time
  acquire a now session_id holder ttl = elim (HashMap.get a.leases session_id) [
    | some lease ↦
        if not (has_expired lease now)
        then (denied lease.holder lease.epoch, a)
        else grant a now session_id holder ttl
    | none ↦ grant a now session_id holder ttl
  ]

  unfoldable pub dispatch :
      LeaseAuthority Time → Time → SessionId → LeaseOp Span → LeaseResult Time × LeaseAuthority Time
  dispatch a now s (LeaseOp.acquire holder ttl) = acquire a now s holder ttl
  dispatch a now s (LeaseOp.renew holder epoch ttl) = renew a now s holder epoch ttl
  dispatch a now s (LeaseOp.release holder epoch) = release a s holder epoch

  unfoldable pub handle_request :
      LeaseAuthority Time → Time → LeaseRequest Span → LeaseResponse Time × LeaseAuthority Time
  handle_request a now request =
      let (result, a') = dispatch a now request.session_id request.op in
      (record { request_id = request.request_id; result = result }, a')

  -- A history: the requests in the order in which they were applied, each with the clock that the
  -- authority read. The results come back in the same order.
  unfoldable pub run :
      LeaseAuthority Time
      → List (Time × LeaseRequest Span)
      → List (LeaseResult Time) × LeaseAuthority Time
  run a [] = ([], a)
  run a ((now, request) ∷ rest) =
      let (response, a') = handle_request a now request in
      let (results, b) = run a' rest in (response.result ∷ results, b)

-- `LeaseSnapshot` has the fields of the authority.
pub record LeaseSnapshot (Time : Type 0) : Type 0 where
  pub leases : HashMap SessionId (LeaseEntry Time)
  pub epochs : HashMap SessionId ℕ

module _ {Time : Type 0} where
  unfoldable pub snapshot : LeaseAuthority Time → LeaseSnapshot Time
  snapshot a = record { leases = a.leases; epochs = a.epochs }

  unfoldable pub restore : LeaseAuthority Time → LeaseSnapshot Time → LeaseAuthority Time
  restore a s = record { leases = s.leases; epochs = s.epochs }
