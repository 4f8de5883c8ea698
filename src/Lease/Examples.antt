-- ===== src/Lease/Examples.antt =====
-- Concrete leases: clocks that count, one session, two nodes; the theorems at them.
use marie.Base.{ℕ, ◌+◌, ◌≡◌, ◌≢◌, refl, true, none, some, List, [], ◌∷◌, arith, leb, ◌⊎◌}
use marie.Base.HashMap
use marie.Id.{SessionId, NodeId, id_beq, node_beq, id_eq}
use marie.Lease.Protocol.{Chrono, LeaseOp, LeaseRequest, granted, denied}
use marie.Lease.Authority.{
  LeaseEntry, LeaseAuthority, new, has_expired, next_epoch, grant, acquire, renew, release,
  dispatch, handle_request, run, snapshot,
}
use marie.Lease.Authority.Invariant.{IsFenced, run-IsFenced, new-IsFenced}
use marie.Lease.Authority.Fencing.{
  Ascends, grants, grants-Ascends, Refuses, Grants, acquire_exclusive, Denies, superseded-Denies,
}
use marie.Lease.Storage.{
  Entry, normal, LogStore, StateMachine, Codec, apply, append, build_snapshot, install_snapshot,
}
use marie.Lease.Storage.LogLaws.{IsLog, edits-IsLog}
use marie.Lease.Storage.Replicas.{
  SameState, snapshot_catches_up, clocks_diverge, undecodable_forgets,
}

-- Instants and spans are seconds.
abbrev ticks : Chrono ℕ ℕ
ticks = record { plus = λ t d. t + d; le = leb; default_time = 0 }

abbrev home : SessionId
home = record { prefix = 1; local = 1 }

abbrev away : SessionId
away = record { prefix = 1; local = 2 }

abbrev alice : NodeId
alice = 1 ∷ []

abbrev bob : NodeId
bob = 2 ∷ []

abbrev ask : SessionId → LeaseOp ℕ → LeaseRequest ℕ
ask s op = record { request_id = home; session_id = s; op = op }

-- Alice holds the lease of a session until 40; Bob takes it over at 50.
abbrev takeover : List (ℕ × LeaseRequest ℕ)
takeover =
    (10, ask home (LeaseOp.acquire alice 30))
    ∷ (20, ask home (LeaseOp.acquire bob 30))
    ∷ (50, ask home (LeaseOp.acquire bob 30))
    ∷ []

takeover_results : (run ticks new takeover).0 ≡ granted 1 40 ∷ denied alice 1 ∷ granted 2 80 ∷ []
unfolding run handle_request dispatch acquire grant next_epoch has_expired HashMap.get
    HashMap.insert id_beq node_beq
takeover_results = refl

grants-Ascends_example : Ascends 0 (grants home takeover (run ticks new takeover).0)
unfolding HashMap.get
grants-Ascends_example = grants-Ascends ticks new takeover home (omega arith)

-- The state after Alice's request.
abbrev held : LeaseAuthority ℕ
held = (run ticks new ((10, ask home (LeaseOp.acquire alice 30)) ∷ [])).1

held-IsFenced : IsFenced held
held-IsFenced = run-IsFenced ticks new ((10, ask home (LeaseOp.acquire alice 30)) ∷ []) new-IsFenced

run-IsFenced_example : IsFenced (run ticks new takeover).1
run-IsFenced_example = run-IsFenced ticks new takeover new-IsFenced

acquire_exclusive_example :
    Refuses ticks held 20 home bob 30
    ⊎ (((l : LeaseEntry ℕ) → HashMap.get held.leases home ≡ some l → leb l.expires_at 20 ≡ true)
        × Grants ticks held 20 home bob 30)
acquire_exclusive_example = acquire_exclusive ticks held 20 home bob 30

abbrev later : List (ℕ × LeaseRequest ℕ)
later = (50, ask home (LeaseOp.acquire bob 30)) ∷ []

superseded-Denies_example :
    let b = (run ticks held later).1 in
    Denies ticks (renew ticks b 60 home alice 1 30) b
    × Denies ticks (release ticks b home alice 1) b
unfolding run handle_request dispatch acquire grant next_epoch has_expired HashMap.get
    HashMap.insert id_beq node_beq
superseded-Denies_example =
    superseded-Denies ticks held later home 1 held-IsFenced (omega arith) (omega arith) (λ e. cc) 60
      alice 30

-- Log identifiers are their index, memberships and votes are numbers.
abbrev entry : ℕ → LeaseRequest ℕ → Entry ℕ ℕ ℕ
entry i q = record { log_id = i; payload = normal q }

abbrev empty_store : LogStore ℕ ℕ ℕ ℕ
empty_store = record { log = []; vote = none; last_purged_log_id = none }

abbrev two_entries : LogStore ℕ ℕ ℕ ℕ
two_entries =
    append (λ i. i) empty_store
      (entry 4 (ask home (LeaseOp.release bob 1))
        ∷ entry 3 (ask home (LeaseOp.release alice 1))
        ∷ [])

empty_store-IsLog : IsLog (λ i. i) empty_store
empty_store-IsLog = record { sorted = tt; keyed = tt }

two_entries-IsLog : IsLog (λ i. i) two_entries
two_entries-IsLog = (edits-IsLog (λ i. i) empty_store empty_store-IsLog).0 _

abbrev machine : StateMachine ℕ ℕ ℕ
machine = record {
  authority = held;
  last_applied = some 1;
  last_membership = record { log_id = none; membership = 0 };
  current_snapshot = none;
}

abbrev blank_machine : StateMachine ℕ ℕ ℕ
blank_machine = record machine { authority = new; last_applied = none }

abbrev takeover_entry : List (ℕ × Entry ℕ ℕ ℕ)
takeover_entry = (50, entry 2 (ask home (LeaseOp.acquire bob 30))) ∷ []

-- A codec that has only ever written this snapshot.
abbrev codec : Codec ℕ
codec = record { to_vec = λ s. some (1 ∷ []); from_slice = λ b. some (snapshot held) }

snapshot_catches_up_example :
    let (stored, leader') = build_snapshot codec machine "1-0" in
    let follower' = install_snapshot codec blank_machine stored.meta stored.bytes in
    ((apply ticks leader' takeover_entry).0 ≡ (apply ticks follower' takeover_entry).0)
    × SameState ticks
        (apply ticks leader' takeover_entry).1
        (apply ticks follower' takeover_entry).1
snapshot_catches_up_example =
    snapshot_catches_up ticks codec machine blank_machine "1-0" takeover_entry refl

clocks_diverge_example :
    let e = takeover_entry in
    ((apply ticks machine ((30, entry 2 (ask home (LeaseOp.acquire bob 30))) ∷ [])).0
      ≢ (apply ticks machine ((50, entry 2 (ask home (LeaseOp.acquire bob 30))) ∷ [])).0)
    × ((apply ticks machine
          ((30, entry 2 (ask home (LeaseOp.acquire bob 30))) ∷ [])).1.authority.epochs
        ≡ held.epochs)
    × ((apply ticks machine
          ((50, entry 2 (ask home (LeaseOp.acquire bob 30))) ∷ [])).1.authority.epochs
        ≡ HashMap.insert held.epochs home (next_epoch ticks held home))
unfolding run handle_request dispatch acquire grant next_epoch has_expired HashMap.get
    HashMap.insert id_beq node_beq
clocks_diverge_example =
    clocks_diverge ticks machine 2 (ask home (LeaseOp.acquire bob 30)) bob 30
      (record { holder = alice; epoch = 1; expires_at = 40 }) 30 50 refl refl refl refl

undecodable_forgets_example :
    (install_snapshot
      (record { to_vec = λ s. none; from_slice = λ b. none })
      machine
      (record {
        last_log_id = some 1;
        last_membership = record { log_id = none; membership = 0 };
        snapshot_id = "1-0";
      })
      []).authority
    ≡ new
undecodable_forgets_example =
    undecodable_forgets (record { to_vec = λ s. none; from_slice = λ b. none }) machine
      (record {
        last_log_id = some 1;
        last_membership = record { log_id = none; membership = 0 };
        snapshot_id = "1-0";
      })
      [] refl
