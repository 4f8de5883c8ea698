-- ===== src/Session/Logs/Listing.antt =====
-- What the listing of a journal holds, and in which order (session/logs/store/in_memory.rs).
use marie.Base.{
  ◌↔◌, none, Option, ◌≡◌, refl, true, false, Bool, arith, [], ◌∷◌, All, In, In-filter, filter-All,
  All-imp, ◌==◌, some, pair_eq,
}
use marie.Base.HashMap
use marie.Base.HashMap.{HashMap}
use marie.Id.{SessionId, id_eq, id_beq_iff}
use marie.Session.Logs.Sorting.{
  IsOrder, IsAscending, IsUnrepeated, sort-All, In-sort, sort-IsAscending, sort-IsUnrepeated,
  filter-IsUnrepeated,
}
use marie.Session.Logs.Store.{
  SessionLogId, SessionLog, LogStore, SearchLogQuery, is_after, is_before, list_log_after,
}

module _ {Value Time : Type 0} where
  -- Each entry is stored once, under its own identifiers.
  pub record IsKeyed (logs : LogStore Value Time) : Type 0 where
    pub distinct : HashMap.Distinct logs
    pub keyed :
        (s : SessionId) (i : SessionLogId) (log : SessionLog Value Time)
        → HashMap.get logs (s, i) ≡ some log
        → (log.session_id ≡ s) × (log.id ≡ i)

module _ {Time : Type 0} (le : Time → Time → Bool) where
  is_after_iff :
      (after : Option Time) (t : Time)
      → (is_after le after t ≡ true) ↔ ((a : Time) → after ≡ some a → le t a ≡ false)
  unfolding is_after
  is_after_iff none t = (λ h a e. absurd (ground (arith, e)), λ h. refl)
  is_after_iff (some x) t = (λ h a e. ground (arith, h, e), λ h. ground (arith, h x refl))

  is_before_iff :
      (before : Option Time) (t : Time)
      → (is_before le before t ≡ true) ↔ ((b : Time) → before ≡ some b → le b t ≡ false)
  unfolding is_before
  is_before_iff none t = (λ h a e. absurd (ground (arith, e)), λ h. refl)
  is_before_iff (some x) t = (λ h a e. ground (arith, h, e), λ h. ground (arith, h x refl))

module _ {Value Time : Type 0} (le : Time → Time → Bool) where
  -- An entry of the session that was created after the one bound and before the other, neither at it.
  abbrev pub Asked :
      LogStore Value Time → SessionId → SearchLogQuery Time → SessionLog Value Time → Type 0
  Asked logs s query l =
      (HashMap.get logs (s, l.id) ≡ some l)
      × ((a : Time) → query.after ≡ some a → le l.created_at a ≡ false)
      × ((b : Time) → query.before ≡ some b → le b l.created_at ≡ false)

  own_entry :
      (logs : LogStore Value Time)
      → IsKeyed logs
      → (k : SessionId × SessionLogId) (l : SessionLog Value Time) → HashMap.get logs k ≡ some l
      → HashMap.get logs (l.session_id, l.id) ≡ some l
  own_entry logs v k l g = let (s, i) = v.keyed k.0 k.1 l g in ground (arith, s, i, g)

  filtered-Asked :
      (logs : LogStore Value Time) (s : SessionId) (query : SearchLogQuery Time)
      (l : SessionLog Value Time)
      → (((HashMap.get logs (l.session_id, l.id) ≡ some l) × ((l.session_id == s) ≡ true))
          × (is_after le query.after l.created_at ≡ true))
        × (is_before le query.before l.created_at ≡ true)
      → Asked logs s query l
  filtered-Asked logs s query l (((g, e), a), b) = (
    ground (arith, g, e, id_beq_iff l.session_id s),
    (is_after_iff le query.after l.created_at).0 a,
    (is_before_iff le query.before l.created_at).0 b,
  )

  values-IsUnrepeated :
      (logs : LogStore Value Time) → IsKeyed logs → IsUnrepeated (HashMap.values logs)
  values-IsUnrepeated [] v = tt
  values-IsUnrepeated ((j, x) ∷ logs) v =
      let apart = v.distinct.0 in
      let own = v.keyed j.0 j.1 x (HashMap.get-head logs j x) in
      (
        HashMap.All-values _ logs v.distinct.1 (λ k l g h.
            let t = HashMap.get-tail logs j k x l apart g in
            let m = v.keyed k.0 k.1 l t.1 in t.0 (ground (arith, own, m, h))),
        values-IsUnrepeated logs (record {
          distinct = v.distinct.1;
          keyed = λ s i l g. v.keyed s i l (HashMap.get-tail logs j (s, i) x l apart g).1;
        }),
      )

  -- In a store where each entry stands under its own identifiers, the journal that is listed for a
  -- session between two bounds holds the entries of that session which were created strictly between
  -- them, all of them and no other, none twice, and they come in the order of their creation, if the
  -- comparison of instants is a total order. A bound that is left out excludes nothing.
  pub list_log_after_iff :
      (logs : LogStore Value Time) (s : SessionId) (query : SearchLogQuery Time)
      → IsKeyed logs
      → IsOrder le
      → All (Asked logs s query) (list_log_after le logs s query)
        × ((l : SessionLog Value Time)
            → Asked logs s query l
            → In l (list_log_after le logs s query))
        × IsUnrepeated (list_log_after le logs s query)
        × IsAscending le (list_log_after le logs s query)
  unfolding list_log_after
  list_log_after_iff logs s query v o = (
    sort-All le (Asked logs s query) _ (
        All-imp _ (Asked logs s query) _ (filtered-Asked logs s query) (
          filter-All _ _ _ (
            filter-All _ _ _ (
              filter-All _ _ (HashMap.values logs)
                (HashMap.All-values _ logs v.distinct (own_entry logs v)))))),
    λ l a. In-sort le l _ (
        In-filter _ l _ ((is_before_iff le query.before l.created_at).1 a.2) (
          In-filter _ l _ ((is_after_iff le query.after l.created_at).1 a.1) (
            In-filter _ l (HashMap.values logs)
              (ground (arith, (v.keyed s l.id l a.0).0, id_beq_iff l.session_id s))
              (HashMap.In-values logs (s, l.id) l a.0)))),
    sort-IsUnrepeated le _ (
        filter-IsUnrepeated _ _
          (filter-IsUnrepeated _ _ (filter-IsUnrepeated _ _ (values-IsUnrepeated logs v)))),
    sort-IsAscending le _ o,
  )
