-- ===== src/Session/Snapshots/Latest.antt =====
-- Which snapshot is the latest (session/snapshot).
use marie.Base.{
  ℕ, ◌≡◌, ◌≤◌, sym, subst, arith, inl, inr, ◌&&◌, ◌==◌, pair_eq, nat_eq, leb, Bool-cases, List, [],
  ◌∷◌, filter, none, some, Option-cases, All, All-In, All-imp, filter-All, In, In-filter, Result,
  ok, err,
}
use marie.Base.HashMap
use marie.Id.{SessionId, FrameId, id_eq, id_beq_iff}
use marie.Session.Snapshots.Store.{
  Snapshot, Key, SnapshotStore, StoreError, greatest, max_by_superstep, latest_snapshot,
  upsert_snapshot,
}
use marie.Session.Snapshots.{SessionSnapshots, insert, push, latest}

module _ {Value Time : Type 0} where
  abbrev pub own_key : Snapshot Value Time → Key
  own_key s = (s.session_id, (s.frame_id, s.superstep))

  -- Each snapshot is stored once, under its own key.
  pub record IsKeyed (store : SnapshotStore Value Time) : Type 0 where
    pub distinct : HashMap.Distinct store
    pub keyed : (k : Key) (s : Snapshot Value Time) → HashMap.get store k ≡ some s → own_key s ≡ k

  pub upsert_snapshot-IsKeyed :
      (store : SnapshotStore Value Time) (s : Snapshot Value Time)
      → IsKeyed store
      → IsKeyed (upsert_snapshot store s)
  unfolding upsert_snapshot
  upsert_snapshot-IsKeyed store s v = record {
    distinct = HashMap.insert-Distinct store (own_key s) s v.distinct;
    keyed = λ k t e. ground (
      arith,
      HashMap.get-insert store (own_key s) k s,
      v.keyed k t,
      e,
      id_beq_iff s.session_id k.0,
      id_beq_iff s.frame_id k.1.0,
    );
  }

  -- `greatest` keeps what holds of every candidate, and is above all of them.
  greatest-All :
      (P : Snapshot Value Time → Type 0) (s : Snapshot Value Time) (ss : List (Snapshot Value Time))
      → P s
      → All P ss
      → P (greatest s ss)
  unfolding greatest
  greatest-All P s [] p a = p
  greatest-All P s (t ∷ ts) p a = elim (Bool-cases (leb s.superstep t.superstep)) [
    | inl y ↦ rw (y, greatest) (greatest-All P t ts a.0 a.1)
    | inr n ↦ rw (n, greatest) (greatest-All P s ts p a.1)
  ]

  abbrev Covers : Snapshot Value Time → List (Snapshot Value Time) → Snapshot Value Time → Type 0
  Covers s ss g = (s.superstep ≤ g.superstep) × All (λ t. t.superstep ≤ g.superstep) ss

  greatest_above :
      (s : Snapshot Value Time) (ss : List (Snapshot Value Time)) → Covers s ss (greatest s ss)
  unfolding greatest
  greatest_above s [] = (omega arith, tt)
  greatest_above s (t ∷ ts) = elim (Bool-cases (leb s.superstep t.superstep)) [
    | inl y ↦
        let (above, all) = greatest_above t ts in
        let e : greatest t ts ≡ greatest s (t ∷ ts) = ground (arith, y) in
        subst (Covers s (t ∷ ts)) e (ground (arith, y, above), (above, all))
    | inr n ↦
        let (above, all) = greatest_above s ts in
        let e : greatest s ts ≡ greatest s (t ∷ ts) = ground (arith, n) in
        subst (Covers s (t ∷ ts)) e (above, (ground (arith, n, above), all))
  ]

  -- An answer for the frame: its stored snapshot of the greatest superstep, or that it has none.
  abbrev pub IsLatest :
      SnapshotStore Value Time
      → SessionId
      → FrameId
      → Result (Snapshot Value Time) StoreError
      → Type 0
  IsLatest store s f (ok snap) =
      (HashMap.get store (s, (f, snap.superstep)) ≡ some snap)
      × ((n : ℕ) (t : Snapshot Value Time)
          → HashMap.get store (s, (f, n)) ≡ some t
          → n ≤ snap.superstep)
  IsLatest store s f (err e) = (n : ℕ) → HashMap.get store (s, (f, n)) ≡ none

  -- A stored snapshot of the frame.
  abbrev Belongs : SnapshotStore Value Time → SessionId → FrameId → Snapshot Value Time → Type 0
  Belongs store s f t = HashMap.get store (s, (f, t.superstep)) ≡ some t

  abbrev candidates : SnapshotStore Value Time → SessionId → FrameId → List (Snapshot Value Time)
  candidates store s f = filter (λ t. t.session_id == s && t.frame_id == f) (HashMap.values store)

  candidates-Belongs :
      (store : SnapshotStore Value Time) (s : SessionId) (f : FrameId)
      → IsKeyed store
      → All (Belongs store s f) (candidates store s f)
  candidates-Belongs store s f v =
      All-imp _ (Belongs store s f) _
        (λ t h. ground (arith, h, id_beq_iff t.session_id s, id_beq_iff t.frame_id f))
        (filter-All _ (λ t. HashMap.get store (own_key t) ≡ some t) (HashMap.values store)
          (HashMap.All-values _ store v.distinct
            (λ k t g. subst (λ j. HashMap.get store j ≡ some t) (sym (v.keyed k t g)) g)))

  In-candidates :
      (store : SnapshotStore Value Time) (s : SessionId) (f : FrameId) (n : ℕ)
      (t : Snapshot Value Time)
      → IsKeyed store
      → HashMap.get store (s, (f, n)) ≡ some t
      → (t.superstep ≡ n) × In t (candidates store s f)
  In-candidates store s f n t v g =
      let own = v.keyed (s, (f, n)) t g in
      (
        ground (arith, own),
        In-filter _ t (HashMap.values store)
            (ground (arith, own, id_beq_iff t.session_id s, id_beq_iff t.frame_id f))
            (HashMap.In-values store (s, (f, n)) t g),
      )

  -- In a store where each snapshot stands under its own key, `latest_snapshot` answers the stored
  -- snapshot of the frame with the greatest superstep, and an error exactly if there is none.
  pub latest_snapshot-IsLatest :
      (store : SnapshotStore Value Time) (s : SessionId) (f : FrameId)
      → IsKeyed store
      → IsLatest store s f (latest_snapshot store s f)
  unfolding latest_snapshot max_by_superstep
  latest_snapshot-IsLatest store s f v =
      chosen (candidates store s f) (candidates-Belongs store s f v)
        (λ n t g. In-candidates store s f n t v g)
    where
      chosen :
          (ss : List (Snapshot Value Time))
          → All (Belongs store s f) ss
          → ((n : ℕ) (t : Snapshot Value Time)
              → HashMap.get store (s, (f, n)) ≡ some t
              → (t.superstep ≡ n) × In t ss)
          → IsLatest store s f (elim (max_by_superstep ss) [
            | some snapshot ↦ ok snapshot
            | none ↦ err (StoreError.snapshot_not_found s f 0)
          ])
      chosen [] a i = λ n. elim (Option-cases (HashMap.get store (s, (f, n)))) [
        | inl e ↦ e
        | inr (t, e) ↦ absurd (ground (arith, (i n t e).1.1))
      ]
      chosen (x ∷ xs) a i = (
        greatest-All (Belongs store s f) x xs a.0 a.1,
        λ n t g.
            let (same, at) = i n t g in
            let above = greatest_above x xs in
            subst (λ k. k ≤ Snapshot.superstep (greatest x xs)) same
              (All-In (λ u. u.superstep ≤ Snapshot.superstep (greatest x xs)) t (x ∷ xs) above at),
      )

  -- A pushed snapshot is not seen by `latest`, which asks the store, whatever its superstep.
  pub push_unseen :
      (snaps : SessionSnapshots Value Time) (snap : Snapshot Value Time) (f : FrameId)
      → (latest (push snaps snap).1 f).0 ≡ (latest snaps f).0
  unfolding push latest insert
  push_unseen snaps snap f = ground arith
