-- ===== src/Session/Logs/Sorting.antt =====
-- What the sorting of a journal keeps, and its order (session/logs/store/in_memory.rs).
use marie.Base.{
  sym, ◌≢◌, filter, zero, suc, ◌≡◌, true, false, inl, inr, Bool, Bool-cases, arith, subst, List, [],
  ◌∷◌, All, In, filter-All, All-imp,
}
use marie.Id.{SessionId}
use marie.Session.Logs.Store.{SessionLogId, SessionLog, place, sort}

-- A comparison of instants that is a total order.
pub record IsOrder {Time : Type 0} (le : Time → Time → Bool) : Type 0 where
  pub total : (a b : Time) → le a b ≡ false → le b a ≡ true
  pub trans : (a b c : Time) → le a b ≡ true → le b c ≡ true → le a c ≡ true

module _ {Value Time : Type 0} where
  abbrev pub own_key : SessionLog Value Time → SessionId × SessionLogId
  own_key l = (l.session_id, l.id)

  -- No entry is repeated.
  abbrev pub IsUnrepeated : List (SessionLog Value Time) → Type 0
  IsUnrepeated [] = Unit
  IsUnrepeated (l ∷ logs) = All (λ m. own_key l ≢ own_key m) logs × IsUnrepeated logs

  pub filter-IsUnrepeated :
      (p : SessionLog Value Time → Bool) (logs : List (SessionLog Value Time))
      → IsUnrepeated logs
      → IsUnrepeated (filter p logs)
  filter-IsUnrepeated p [] u = tt
  filter-IsUnrepeated p (l ∷ logs) u = elim (Bool-cases (p l)) [
    | inl e ↦ subst IsUnrepeated {x = l ∷ filter p logs} (ground (arith, e)) (
      All-imp _ (λ m. own_key l ≢ own_key m) _ (λ m h. h.0)
          (filter-All p (λ m. own_key l ≢ own_key m) logs u.0),
      filter-IsUnrepeated p logs u.1,
    )
    | inr e ↦
        subst IsUnrepeated {x = filter p logs} (ground (arith, e)) (filter-IsUnrepeated p logs u.1)
  ]

module _ {Value Time : Type 0} (le : Time → Time → Bool) where
  -- From the oldest entry to the newest.
  abbrev pub IsAscending : List (SessionLog Value Time) → Type 0
  IsAscending [] = Unit
  IsAscending (l ∷ logs) = All (λ m. le l.created_at m.created_at ≡ true) logs × IsAscending logs

  place-All {ℓ} :
      (P : SessionLog Value Time → Type ℓ) (l : SessionLog Value Time)
      (logs : List (SessionLog Value Time))
      → P l
      → All P logs
      → All P (place le l logs)
  unfolding place
  place-All P l [] p a = (p, tt)
  place-All P l (m ∷ logs) p a = elim (Bool-cases (le l.created_at m.created_at)) [
    | inl e ↦ subst (All P) {x = l ∷ m ∷ logs} (ground (arith, e)) (p, a)
    | inr e ↦
        subst (All P) {x = m ∷ place le l logs} (ground (arith, e)) (a.0, place-All P l logs p a.1)
  ]

  pub sort-All {ℓ} :
      (P : SessionLog Value Time → Type ℓ) (logs : List (SessionLog Value Time))
      → All P logs
      → All P (sort le logs)
  unfolding sort
  sort-All P [] a = tt
  sort-All P (l ∷ logs) a = place-All P l (sort le logs) a.0 (sort-All P logs a.1)

  In-place :
      (l m : SessionLog Value Time) (logs : List (SessionLog Value Time))
      → In m (l ∷ logs)
      → In m (place le l logs)
  unfolding place
  In-place l m [] i = i
  In-place l m (x ∷ logs) (zero, g) = elim (Bool-cases (le l.created_at x.created_at)) [
    | inl e ↦ rw e (0, g)
    | inr e ↦ let (k, s) = In-place l m logs (0, g) in rw e (suc k, s)
  ]
  In-place l m (x ∷ logs) (suc zero, g) = elim (Bool-cases (le l.created_at x.created_at)) [
    | inl e ↦ rw e (1, g)
    | inr e ↦ rw e (0, g)
  ]
  In-place l m (x ∷ logs) (suc (suc n), g) = elim (Bool-cases (le l.created_at x.created_at)) [
    | inl e ↦ rw e (suc (suc n), g)
    | inr e ↦ let (k, s) = In-place l m logs (suc n, g) in rw e (suc k, s)
  ]

  pub In-sort :
      (m : SessionLog Value Time) (logs : List (SessionLog Value Time))
      → In m logs
      → In m (sort le logs)
  unfolding sort
  In-sort m [] i = i
  In-sort m (l ∷ logs) (zero, g) = In-place l m (sort le logs) (0, g)
  In-sort m (l ∷ logs) (suc n, g) =
      let (k, s) = In-sort m logs (n, g) in In-place l m (sort le logs) (suc k, s)

  place-IsAscending :
      (l : SessionLog Value Time) (logs : List (SessionLog Value Time))
      → IsOrder le
      → IsAscending logs
      → IsAscending (place le l logs)
  unfolding place
  place-IsAscending l [] o a = (tt, tt)
  place-IsAscending l (m ∷ logs) o a = elim (Bool-cases (le l.created_at m.created_at)) [
    | inl e ↦ subst IsAscending {x = l ∷ m ∷ logs} (ground (arith, e)) (
      (
        e,
        All-imp _ (λ k. le l.created_at k.created_at ≡ true) logs
            (λ k h. o.trans l.created_at m.created_at k.created_at e h) a.0,
      ),
      a,
    )
    | inr e ↦ subst IsAscending {x = m ∷ place le l logs} (ground (arith, e)) (
      place-All (λ k. le m.created_at k.created_at ≡ true) l logs
          (o.total l.created_at m.created_at e) a.0,
      place-IsAscending l logs o a.1,
    )
  ]

  pub sort-IsAscending :
      (logs : List (SessionLog Value Time)) → IsOrder le → IsAscending (sort le logs)
  unfolding sort
  sort-IsAscending [] o = tt
  sort-IsAscending (l ∷ logs) o = place-IsAscending l (sort le logs) o (sort-IsAscending logs o)

  place-IsUnrepeated :
      (l : SessionLog Value Time) (logs : List (SessionLog Value Time))
      → All (λ m. own_key l ≢ own_key m) logs
      → IsUnrepeated logs
      → IsUnrepeated (place le l logs)
  unfolding place
  place-IsUnrepeated l [] a u = (tt, tt)
  place-IsUnrepeated l (m ∷ logs) a u = elim (Bool-cases (le l.created_at m.created_at)) [
    | inl e ↦ subst IsUnrepeated {x = l ∷ m ∷ logs} (ground (arith, e)) (a, u)
    | inr e ↦ subst IsUnrepeated {x = m ∷ place le l logs} (ground (arith, e)) (
      place-All (λ k. own_key m ≢ own_key k) l logs (λ h. a.0 (sym h)) u.0,
      place-IsUnrepeated l logs a.1 u.1,
    )
  ]

  pub sort-IsUnrepeated :
      (logs : List (SessionLog Value Time)) → IsUnrepeated logs → IsUnrepeated (sort le logs)
  unfolding sort
  sort-IsUnrepeated [] u = tt
  sort-IsUnrepeated (l ∷ logs) u =
      place-IsUnrepeated l (sort le logs) (sort-All (λ m. own_key l ≢ own_key m) logs u.0)
        (sort-IsUnrepeated logs u.1)
