-- ===== src/Lease/Authority/Invariant.antt =====
-- What holds of a `LeaseAuthority` between two requests (lease/authority.rs).
use marie.Base.{ℕ, ◌≡◌, some, arith, List, [], ◌∷◌}
use marie.Base.HashMap
use marie.Id.{SessionId, NodeId, id_eq, id_beq_iff}
use marie.Lease.Protocol.{Chrono, LeaseOp, LeaseRequest}
use marie.Lease.Authority.{
  LeaseEntry, LeaseAuthority, new, release, renew, grant, acquire, dispatch, handle_request, run,
}

-- A lease that is held carries the latest epoch of its session.
pub record IsFenced {Time : Type 0} (a : LeaseAuthority Time) : Type 0 where
  pub at_session :
      (s : SessionId) (l : LeaseEntry Time)
      → HashMap.get a.leases s ≡ some l
      → HashMap.get a.epochs s ≡ some l.epoch

module _ {Time Span : Type 0} (chrono : Chrono Time Span) where
  release-IsFenced :
      (a : LeaseAuthority Time) (s : SessionId) (h : NodeId) (e : ℕ)
      → IsFenced a
      → IsFenced (release chrono a s h e).1
  unfolding release
  release-IsFenced a s h e v = record {
    at_session = λ t l p. ground (arith, HashMap.get-remove a.leases s t, v.at_session t l);
  }

  renew-IsFenced :
      (a : LeaseAuthority Time) (now : Time) (s : SessionId) (h : NodeId) (e : ℕ) (ttl : Span)
      → IsFenced a
      → IsFenced (renew chrono a now s h e ttl).1
  unfolding renew
  renew-IsFenced a now s h e ttl v = record {
    at_session = λ t l p. grind (arith, HashMap.get-insert, v.at_session, id_beq_iff s t);
  }

  grant-IsFenced :
      (a : LeaseAuthority Time) (now : Time) (s : SessionId) (h : NodeId) (ttl : Span)
      → IsFenced a
      → IsFenced (grant chrono a now s h ttl).1
  unfolding grant
  grant-IsFenced a now s h ttl v = record {
    at_session = λ t l p. grind (arith, HashMap.get-insert, v.at_session t l, id_beq_iff s t);
  }

  acquire-IsFenced :
      (a : LeaseAuthority Time) (now : Time) (s : SessionId) (h : NodeId) (ttl : Span)
      → IsFenced a
      → IsFenced (acquire chrono a now s h ttl).1
  unfolding acquire
  acquire-IsFenced a now s h ttl v = ground (arith, grant-IsFenced a now s h ttl v)

  dispatch-IsFenced :
      (a : LeaseAuthority Time) (now : Time) (s : SessionId) (op : LeaseOp Span)
      → IsFenced a
      → IsFenced (dispatch chrono a now s op).1
  unfolding dispatch
  dispatch-IsFenced a now s (LeaseOp.acquire h ttl) v = acquire-IsFenced a now s h ttl v
  dispatch-IsFenced a now s (LeaseOp.renew h e ttl) v = renew-IsFenced a now s h e ttl v
  dispatch-IsFenced a now s (LeaseOp.release h e) v = release-IsFenced a s h e v

  -- Over any history a held lease carries the latest epoch of its session, if it did at the start.
  pub run-IsFenced :
      (a : LeaseAuthority Time) (history : List (Time × LeaseRequest Span))
      → IsFenced a
      → IsFenced (run chrono a history).1
  unfolding run handle_request
  run-IsFenced a [] v = v
  run-IsFenced a ((now, r) ∷ rest) v =
      run-IsFenced (dispatch chrono a now r.session_id r.op).1 rest
        (dispatch-IsFenced a now r.session_id r.op v)

pub new-IsFenced : {Time : Type 0} → IsFenced {Time = Time} new
unfolding HashMap.get
new-IsFenced = record { at_session = λ s l p. cc }
