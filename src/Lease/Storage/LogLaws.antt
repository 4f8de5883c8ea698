-- ===== src/Lease/Storage/LogLaws.antt =====
-- What the Raft log of lease/storage.rs promises to openraft.
use marie.Base.{
  ℕ, ◌≤◌, ◌≡◌, refl, Bool, Option, none, some, List, [], ◌∷◌, arith, ltb, last?, nat_beq,
  if◌then◌else◌, inl, inr, ◌⊎◌,
}
use marie.Base.BTreeMap
use marie.Base.BTreeMap.{BTreeMap}
use marie.Lease.Storage.Log.{Entry, LogStore, get_log_state, append_log, append, truncate, purge}

module _ {LogId Membership Span : Type 0} (index : LogId → ℕ) where
  -- Each entry stands under its own index, above `n`, and the indexes ascend.
  abbrev pub IsKeyed : BTreeMap (Entry LogId Membership Span) → Type 0
  IsKeyed [] = Unit
  IsKeyed ((i, e) ∷ log) = (i ≡ index e.log_id) × IsKeyed log

  insert-IsKeyed :
      (log : BTreeMap (Entry LogId Membership Span)) (e : Entry LogId Membership Span)
      → IsKeyed log
      → IsKeyed (BTreeMap.insert log (index e.log_id) e)
  unfolding BTreeMap.insert
  insert-IsKeyed [] e k = (refl, tt)
  insert-IsKeyed ((j, w) ∷ log) e k = ground (arith, insert-IsKeyed log e k.1)

  retain-IsKeyed :
      (p : ℕ → Bool) (log : BTreeMap (Entry LogId Membership Span))
      → IsKeyed log
      → IsKeyed (BTreeMap.retain p log)
  unfolding BTreeMap.retain
  retain-IsKeyed p [] k = tt
  retain-IsKeyed p ((j, w) ∷ log) k = ground (arith, retain-IsKeyed p log k.1)

  append_log-IsKeyed :
      (log : BTreeMap (Entry LogId Membership Span)) (es : List (Entry LogId Membership Span))
      → IsKeyed log
      → IsKeyed (append_log index log es)
  unfolding append_log
  append_log-IsKeyed log [] k = k
  append_log-IsKeyed log (e ∷ es) k =
      append_log-IsKeyed (BTreeMap.insert log (index e.log_id) e) es (insert-IsKeyed log e k)

  append_log-IsSorted :
      (log : BTreeMap (Entry LogId Membership Span)) (es : List (Entry LogId Membership Span))
      → BTreeMap.IsSorted log
      → BTreeMap.IsSorted (append_log index log es)
  unfolding append_log
  append_log-IsSorted log [] k = k
  append_log-IsSorted log (e ∷ es) k =
      append_log-IsSorted (BTreeMap.insert log (index e.log_id) e) es
        (BTreeMap.insert-IsSorted log (index e.log_id) e k)

  -- The entry that a batch puts at an index: its last one there.
  abbrev pub appended :
      List (Entry LogId Membership Span) → ℕ → Option (Entry LogId Membership Span)
  appended [] i = none
  appended (e ∷ es) i = elim (appended es i) [
    | some later ↦ some later
    | none ↦ if nat_beq (index e.log_id) i then some e else none
  ]

  get-append_log :
      (log : BTreeMap (Entry LogId Membership Span)) (es : List (Entry LogId Membership Span))
      (i : ℕ)
      → BTreeMap.get (append_log index log es) i
        ≡ (elim (appended es i) [ some e ↦ some e | none ↦ BTreeMap.get log i ])
  unfolding append_log
  get-append_log log [] i = refl
  get-append_log log (e ∷ es) i = ground (
    arith,
    get-append_log (BTreeMap.insert log (index e.log_id) e) es i,
    BTreeMap.get-insert log (index e.log_id) i e,
  )

  last-greatest :
      (log : BTreeMap (Entry LogId Membership Span))
      → BTreeMap.IsSorted log
      → IsKeyed log
      → (log ≡ [])
        ⊎ ((e : Entry LogId Membership Span) × (last? (BTreeMap.values log) ≡ some e)
            × ((i : ℕ) (d : Entry LogId Membership Span)
                → BTreeMap.get log i ≡ some d
                → i ≤ index e.log_id))
  unfolding BTreeMap.get
  last-greatest [] s k = inl refl
  last-greatest ((j, w) ∷ []) s k = inr (w, refl, λ i d q. ground arith)
  last-greatest ((j, w) ∷ (j', w') ∷ log) s k = elim (last-greatest ((j', w') ∷ log) s.1 k.1) [
    | inl e ↦ cc
    | inr (e, p, bound) ↦ inr (e, p, λ i d q. ground (arith, bound i d, bound j' w'))
  ]

module _ {LogId Vote Membership Span : Type 0} (index : LogId → ℕ) where
  pub record IsLog (s : LogStore LogId Vote Membership Span) : Type 0 where
    pub sorted : BTreeMap.IsSorted s.log
    pub keyed : IsKeyed index s.log

  -- Appending, truncating and purging keep the log in ascending order, each entry under its index.
  pub edits-IsLog :
      (s : LogStore LogId Vote Membership Span)
      → IsLog s
      → ((es : List (Entry LogId Membership Span)) → IsLog (append index s es))
        × ((l : LogId) → IsLog (truncate index s l))
        × ((l : LogId) → IsLog (purge index s l))
  unfolding append truncate purge
  edits-IsLog s v = (
    (λ es. record {
      sorted = append_log-IsSorted index s.log es v.sorted;
      keyed = append_log-IsKeyed index s.log es v.keyed;
    }),
    (λ l. record {
      sorted = BTreeMap.retain-IsSorted (λ i. ltb i (index l)) s.log v.sorted;
      keyed = retain-IsKeyed index (λ i. ltb i (index l)) s.log v.keyed;
    }),
    (λ l. record {
      sorted = BTreeMap.retain-IsSorted (λ i. ltb (index l) i) s.log v.sorted;
      keyed = retain-IsKeyed index (λ i. ltb (index l) i) s.log v.keyed;
    }),
  )

  -- The log as a partial function of the index: a batch overwrites the indexes of its entries, the
  -- last entry winning; `truncate` forgets the given index and all above it; `purge` forgets the
  -- given index and all below it.
  pub log_lookups :
      (s : LogStore LogId Vote Membership Span) (i : ℕ)
      → ((es : List (Entry LogId Membership Span))
          → BTreeMap.get (append index s es).log i
            ≡ (elim (appended index es i) [ some e ↦ some e | none ↦ BTreeMap.get s.log i ]))
        × ((l : LogId)
            → BTreeMap.get (truncate index s l).log i
              ≡ (if ltb i (index l) then BTreeMap.get s.log i else none))
        × ((l : LogId)
            → BTreeMap.get (purge index s l).log i
              ≡ (if ltb (index l) i then BTreeMap.get s.log i else none))
  unfolding append truncate purge
  log_lookups s i = (
    (λ es. get-append_log index s.log es i),
    (λ l. BTreeMap.get-retain (λ j. ltb j (index l)) s.log i),
    (λ l. BTreeMap.get-retain (λ j. ltb (index l) j) s.log i),
  )

  -- In a log that is in order, `get_log_state` reports an entry of the greatest index in the log;
  -- where the log is empty, the last purged identifier.
  pub get_log_state-greatest :
      (s : LogStore LogId Vote Membership Span)
      → IsLog s
      → ((s.log ≡ []) × ((get_log_state s).last_log_id ≡ s.last_purged_log_id))
        ⊎ ((e : Entry LogId Membership Span) × ((get_log_state s).last_log_id ≡ some e.log_id)
            × ((i : ℕ) (d : Entry LogId Membership Span)
                → BTreeMap.get s.log i ≡ some d
                → i ≤ index e.log_id))
  unfolding get_log_state
  get_log_state-greatest s v = elim (last-greatest index s.log v.sorted v.keyed) [
    | inl e ↦ inl (e, ground arith)
    | inr (e, p, bound) ↦ inr (e, ground arith, bound)
  ]
