-- ===== src/Session/Channel/Laws.antt =====
-- Reading what was written, and reducing contributions that arrive in batches (session/channel.rs).
use marie.Base.{
  ◌≡◌, refl, arith, inl, inr, Option, none, some, Option-cases, List, [], ◌∷◌, ◌++◌, last?, ◌==◌,
  string_eq, if◌then◌else◌, ok, append_assoc, append_nil,
}
use marie.Session.Model.{ChannelName, ChannelUpdate}
use marie.Session.Channel.{
  Json, Reducer, last_write_wins, append, max, best, reduce, ChannelsTracker, write, last_update,
  read,
}

-- What the reducers rely on: arrays and numbers read back as they were written, `null` is no
-- number.
pub record Reads {Value Float : Type 0} (json : Json Value Float) : Type 0 where
  pub array_reads : (vs : List Value) → json.as_array (json.array vs) ≡ some vs
  pub number_reads : (n : Float) → json.as_f64 (json.number n) ≡ some n
  pub null_reads : json.as_f64 json.null ≡ none

module _ {Value Float : Type 0} (json : Json Value Float) where
  best-append :
      (b : Option Float) (xs ys : List Value)
      → best json b (xs ++ ys) ≡ best json (best json b xs) ys
  unfolding best
  best-append b [] ys = refl
  best-append none (x ∷ xs) ys = elim (Option-cases (json.as_f64 x)) [
    | inl n ↦ ground (arith, n, best-append none xs ys)
    | inr (v, s) ↦ ground (arith, s, best-append (some v) xs ys)
  ]
  best-append (some m) (x ∷ xs) ys = elim (Option-cases (json.as_f64 x)) [
    | inl n ↦ ground (arith, n, best-append (some m) xs ys)
    | inr (v, s) ↦ ground (arith, s, best-append (some (json.max m v)) xs ys)
  ]

  -- The last element of an appended list that is not empty.
  last?-over :
      (xs : List Value) (y : Value) (ys : List Value)
      → (v : Value) × (last? (y ∷ ys) ≡ some v) × (last? (xs ++ y ∷ ys) ≡ some v)
  last?-over [] y [] = (y, refl, refl)
  last?-over [] y (z ∷ zs) = let (v, a, b) = last?-over [] z zs in (v, a, b)
  last?-over (x ∷ []) y ys = let (v, a, b) = last?-over [] y ys in (v, a, b)
  last?-over (x ∷ w ∷ ws) y ys = let (v, a, b) = last?-over (w ∷ ws) y ys in (v, a, b)

  abbrev number_or_null : Option Float → Value
  number_or_null none = json.null
  number_or_null (some n) = json.number n

  maximum :
      (b : Option Float) (xs ys : List Value)
      → Reads json
      → number_or_null (best json (json.as_f64 (number_or_null (best json b xs))) ys)
        ≡ number_or_null (best json b (xs ++ ys))
  maximum b xs ys laws = elim (Option-cases (best json b xs)) [
    | inl n ↦ rw (best-append b xs ys, n, laws.null_reads) refl
    | inr (m, s) ↦ rw (best-append b xs ys, s, laws.number_reads m) refl
  ]

  -- A batch of contributions that is reduced onto the value of an earlier batch gives what one
  -- batch of both gives, under each reducer.
  pub reduce_batches :
      (r : Reducer) (current : Option Value) (xs ys : List Value)
      → Reads json
      → reduce json r (some (reduce json r current xs)) ys ≡ reduce json r current (xs ++ ys)
  unfolding reduce
  reduce_batches last_write_wins current xs [] laws = rw (append_nil xs) refl
  reduce_batches last_write_wins current xs (y ∷ ys) laws =
      let (v, a, b) = last?-over xs y ys in ground (arith, a, b)
  reduce_batches append none xs ys laws = ground (arith, laws.array_reads xs)
  reduce_batches append (some v) xs ys laws = elim (Option-cases (json.as_array v)) [
    | inl n ↦ ground (arith, n, laws.array_reads xs)
    | inr (vec, s) ↦ ground (arith, s, laws.array_reads (vec ++ xs), append_assoc vec xs ys)
  ]
  reduce_batches max none xs ys laws = maximum none xs ys laws
  reduce_batches max (some v) xs ys laws = maximum (json.as_f64 v) xs ys laws

module _ {Value : Type 0} where
  last_update-append :
      (us : List (ChannelUpdate Value)) (u : ChannelUpdate Value) (name : ChannelName)
      → last_update (us ++ u ∷ []) name
        ≡ (if u.name == name then some u.value else last_update us name)
  unfolding last_update
  last_update-append [] u name = refl
  last_update-append (w ∷ us) u name = ground (arith, last_update-append us u name)

  -- A read gives the value of the last write to the channel, and what it gave before where the
  -- channel was not written.
  pub read-write :
      (tracker : ChannelsTracker Value) (n m : ChannelName) (v : Value)
      → read (write tracker n v) m ≡ (if n == m then ok v else read tracker m)
  unfolding read write
  read-write tracker n m v = ground (
    arith,
    last_update-append tracker.updates
        (record { name = n; value = v; contributor = tracker.frame_id }) m,
  )
