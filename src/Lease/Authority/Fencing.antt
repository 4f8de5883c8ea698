-- ===== src/Lease/Authority/Fencing.antt =====
-- The fencing of lease/authority.rs: what the epochs of a session do over a history of requests,
-- and what an old holder can still do.
use marie.Base.{
  ℕ, ◌+◌, ◌%◌, ◌^◌, ◌≤◌, ◌<◌, ◌≡◌, ◌≢◌, refl, ◌⊎◌, inl, inr, Option, none, some, arith, List, [],
  ◌∷◌, ◌==◌, if◌then◌else◌, length, true, false, Bool-cases, Option-cases,
}
use marie.Base.HashMap
use marie.Id.{SessionId, NodeId, id_eq, node_eq, id_beq_iff}
use marie.Lease.Protocol.{Chrono, LeaseOp, LeaseRequest, LeaseResult, granted, denied}
use marie.Lease.Authority.{
  LeaseEntry, LeaseAuthority, has_expired, release, renew, next_epoch, grant, acquire, dispatch,
  handle_request, run,
}
use marie.Lease.Authority.Invariant.{IsFenced, run-IsFenced}

-- The epoch counter of a session; 0 before its first lease.
abbrev pub epoch_of : {Time : Type 0} → LeaseAuthority Time → SessionId → ℕ
epoch_of a s = elim (HashMap.get a.epochs s) [ some e ↦ e | none ↦ 0 ]

abbrev pub grant_of : {Time : Type 0} → LeaseResult Time → Option ℕ
grant_of (granted e t) = some e
grant_of r = none

-- The epochs granted for session `s`, in the order of the history.
abbrev pub grants :
    {Time Span : Type 0}
    → SessionId
    → List (Time × LeaseRequest Span)
    → List (LeaseResult Time)
    → List ℕ
grants s [] rs = []
grants s ((now, q) ∷ qs) [] = []
grants s ((now, q) ∷ qs) (r ∷ rs) =
    let rest = grants s qs rs in
    elim (if q.session_id == s then grant_of r else none) [ some e ↦ e ∷ rest | none ↦ rest ]

-- Each number is greater than the one before it, and the first than `n`.
abbrev pub Ascends : ℕ → List ℕ → Type 0
Ascends n [] = Unit
Ascends n (x ∷ xs) = (n < x) × Ascends x xs

abbrev StepEpoch : ℕ → ℕ → Option ℕ → Type 0
StepEpoch n m o = ((o ≡ none) × (m ≡ n)) ⊎ ((o ≡ some m) × (m ≡ (n + 1) % 2 ^ 64))

module _ {Time Span : Type 0} (chrono : Chrono Time Span) where
  grant-epoch :
      (a : LeaseAuthority Time) (now : Time) (t s : SessionId) (h : NodeId) (ttl : Span)
      → let r = grant chrono a now t h ttl in
        StepEpoch (epoch_of a s) (epoch_of r.1 s) (if t == s then grant_of r.0 else none)
  unfolding grant next_epoch
  grant-epoch a now t s h ttl =
      ground (arith, HashMap.get-insert a.epochs t s (next_epoch chrono a t), id_beq_iff t s)

  dispatch-epoch :
      (a : LeaseAuthority Time) (now : Time) (t s : SessionId) (op : LeaseOp Span)
      → let r = dispatch chrono a now t op in
        StepEpoch (epoch_of a s) (epoch_of r.1 s) (if t == s then grant_of r.0 else none)
  unfolding dispatch acquire renew release
  dispatch-epoch a now t s (LeaseOp.acquire h ttl) = ground (arith, grant-epoch a now t s h ttl)
  dispatch-epoch a now t s (LeaseOp.renew h e ttl) = ground arith
  dispatch-epoch a now t s (LeaseOp.release h e) = ground arith

  -- The counter of a session only grows, by at most one for each request.
  run-epoch_bounds :
      (a : LeaseAuthority Time) (history : List (Time × LeaseRequest Span)) (s : SessionId)
      → epoch_of a s + length history < 2 ^ 64
      → (epoch_of a s ≤ epoch_of (run chrono a history).1 s)
        × (epoch_of (run chrono a history).1 s ≤ epoch_of a s + length history)
  unfolding run handle_request
  run-epoch_bounds a [] s h = omega arith
  run-epoch_bounds a ((now, q) ∷ rest) s h = ground (
    arith,
    dispatch-epoch a now q.session_id s q.op,
    run-epoch_bounds (dispatch chrono a now q.session_id q.op).1 rest s,
  )

  -- Over any history with fewer than 2^64 requests left to the counter of a session, the epochs
  -- granted for that session ascend strictly, from above the counter that the history starts with.
  pub grants-Ascends :
      (a : LeaseAuthority Time) (history : List (Time × LeaseRequest Span)) (s : SessionId)
      → epoch_of a s + length history < 2 ^ 64
      → Ascends (epoch_of a s) (grants s history (run chrono a history).0)
  unfolding run handle_request
  grants-Ascends a [] s h = tt
  grants-Ascends a ((now, q) ∷ rest) s h = ground (
    arith,
    dispatch-epoch a now q.session_id s q.op,
    grants-Ascends (dispatch chrono a now q.session_id q.op).1 rest s,
  )

  abbrev Stored : LeaseAuthority Time → SessionId → LeaseEntry Time → Type 0
  Stored a s l = (HashMap.get a.leases s ≡ some l) × (epoch_of a s ≡ l.epoch)

  -- The lease that a successful `acquire` writes.
  abbrev pub next_lease : LeaseAuthority Time → Time → SessionId → NodeId → Span → LeaseEntry Time
  next_lease a now s h ttl = record {
    holder = h;
    epoch = (epoch_of a s + 1) % 2 ^ 64;
    expires_at = chrono.plus now ttl;
  }

  -- What `acquire` does where an unexpired lease `l` is held, and where none is.
  abbrev pub Refuses : LeaseAuthority Time → Time → SessionId → NodeId → Span → Type 0
  Refuses a now s h ttl =
      (l : LeaseEntry Time) × (HashMap.get a.leases s ≡ some l)
      × (chrono.le l.expires_at now ≡ false)
      × (acquire chrono a now s h ttl ≡ (denied l.holder l.epoch, a))

  abbrev pub Grants : LeaseAuthority Time → Time → SessionId → NodeId → Span → Type 0
  Grants a now s h ttl =
      let l = next_lease a now s h ttl in
      ((acquire chrono a now s h ttl).0 ≡ granted l.epoch l.expires_at)
      × (HashMap.get (acquire chrono a now s h ttl).1.leases s ≡ some l)
      × (epoch_of (acquire chrono a now s h ttl).1 s ≡ l.epoch)

  grant-Grants :
      (a : LeaseAuthority Time) (now : Time) (s : SessionId) (h : NodeId) (ttl : Span)
      → acquire chrono a now s h ttl ≡ grant chrono a now s h ttl
      → Grants a now s h ttl
  unfolding grant next_epoch
  grant-Grants a now s h ttl e = rw e (
      ground (
        arith,
        HashMap.get-insert_self a.epochs s (next_epoch chrono a s),
        HashMap.get-insert_self a.leases s (next_lease a now s h ttl),
      ))

  -- `acquire` is refused exactly while an unexpired lease is held, by whoever holds it: it then
  -- names the holder and its epoch and changes nothing. Where no lease is held, or the lease has
  -- expired, it grants the next epoch until `now + ttl` and stores the new lease and counter.
  pub acquire_exclusive :
      (a : LeaseAuthority Time) (now : Time) (s : SessionId) (h : NodeId) (ttl : Span)
      → Refuses a now s h ttl
        ⊎ (((l : LeaseEntry Time)
              → HashMap.get a.leases s ≡ some l
              → chrono.le l.expires_at now ≡ true)
            × Grants a now s h ttl)
  unfolding acquire has_expired
  acquire_exclusive a now s h ttl = elim (Option-cases (HashMap.get a.leases s)) [
    | inl e ↦ inr ((λ l p. ground arith), grant-Grants a now s h ttl (ground arith))
    | inr (l, e) ↦ elim (Bool-cases (chrono.le l.expires_at now)) [
      | inl x ↦ inr ((λ k p. ground arith), grant-Grants a now s h ttl (ground arith))
      | inr y ↦ inl (l, e, y, ground arith)
    ]
  ]

  -- The call was denied and changed nothing.
  abbrev pub Denies : LeaseResult Time × LeaseAuthority Time → LeaseAuthority Time → Type 0
  Denies r a = (holder : NodeId) × (epoch : ℕ) × (r ≡ (denied holder epoch, a))

  stale-Denies :
      (a : LeaseAuthority Time) (now : Time) (s : SessionId) (h : NodeId) (e : ℕ) (ttl : Span)
      → IsFenced a
      → e < epoch_of a s
      → Denies (renew chrono a now s h e ttl) a × Denies (release chrono a s h e) a
  unfolding renew release
  stale-Denies a now s h e ttl v old = elim (Option-cases (HashMap.get a.leases s)) [
    | inl p ↦ ((h, 0, ground arith), (h, 0, ground arith))
    | inr (l, p) ↦ (
      (l.holder, l.epoch, ground (arith, v.at_session s l p)),
      (l.holder, l.epoch, ground (arith, v.at_session s l p)),
    )
  ]

  run-epoch_grows :
      (a : LeaseAuthority Time) (history : List (Time × LeaseRequest Span)) (s : SessionId)
      → epoch_of a s + length history < 2 ^ 64
      → grants s history (run chrono a history).0 ≢ []
      → epoch_of a s < epoch_of (run chrono a history).1 s
  unfolding run handle_request
  run-epoch_grows a [] s h g = absurd (g refl)
  run-epoch_grows a ((now, q) ∷ rest) s h g =
      let a' = (dispatch chrono a now q.session_id q.op).1 in
      ground (
        arith,
        dispatch-epoch a now q.session_id s q.op,
        run-epoch_bounds a' rest s,
        run-epoch_grows a' rest s,
      )

  -- Once a later lease of the session was granted, whatever else happened in a history too short for
  -- the counter of its epochs to wrap around, a renewal or a release under an epoch that had been
  -- granted before is denied and changes nothing, whoever sends it. The authority is a fenced one, as
  -- every history leaves it.
  pub superseded-Denies :
      (a : LeaseAuthority Time) (history : List (Time × LeaseRequest Span)) (s : SessionId)
      (old : ℕ)
      → IsFenced a
      → old ≤ epoch_of a s
      → epoch_of a s + length history < 2 ^ 64
      → grants s history (run chrono a history).0 ≢ []
      → (now : Time) (h : NodeId) (ttl : Span)
      → let b = (run chrono a history).1 in
        Denies (renew chrono b now s h old ttl) b × Denies (release chrono b s h old) b
  superseded-Denies a history s old v le bound g now h ttl =
      stale-Denies (run chrono a history).1 now s h old ttl (run-IsFenced chrono a history v)
        (omega (arith, run-epoch_grows a history s bound g))

  -- A request about one session leaves the lease and the counter of every other session as they
  -- were.
  pub dispatch_isolated :
      (a : LeaseAuthority Time) (now : Time) (t s : SessionId) (op : LeaseOp Span)
      → t ≢ s
      → (HashMap.get (dispatch chrono a now t op).1.leases s ≡ HashMap.get a.leases s)
        × (HashMap.get (dispatch chrono a now t op).1.epochs s ≡ HashMap.get a.epochs s)
  unfolding dispatch acquire grant renew release
  dispatch_isolated a now t s (LeaseOp.acquire h ttl) ne = ground (
    arith,
    HashMap.get-insert_ne a.leases t s (next_lease a now t h ttl) ne,
    HashMap.get-insert_ne a.epochs t s (next_epoch chrono a t) ne,
    HashMap.get-insert_ne a.leases t s
        (record { holder = h; epoch = next_epoch chrono a t; expires_at = chrono.plus now ttl }) ne,
  )
  dispatch_isolated a now t s (LeaseOp.renew h e ttl) ne =
      grind (arith, HashMap.get-insert, id_beq_iff t s)
  dispatch_isolated a now t s (LeaseOp.release h e) ne =
      ground (arith, HashMap.get-remove_ne a.leases t s ne)
