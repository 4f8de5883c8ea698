-- ===== src/Session/Checkpointer/Exports.antt =====
-- The values that one child exports to its parent, and the updates made of collected values
-- (session/checkpointer/mod.rs).
use marie.Base.{
  Bool-cases, ◌≡◌, refl, arith, subst, inl, inr, none, some, Option-cases, List, [], ◌∷◌, ◌++◌,
  append_nil, map, contains, ◌==◌, string_eq, if◌then◌else◌,
}
use marie.Base.HashMap
use marie.Base.HashMap.{HashMap}
use marie.Id.{FrameId}
use marie.Session.Model.{ChannelName, ChannelUpdate}
use marie.Session.Channel.{Channels}
use marie.Session.Spec.{CommonSpec}
use marie.Base.{Bool-cases}
use marie.Session.Checkpointer.Commits.{push_value, collect, updates_of}
use marie.Session.Checkpointer.Joins.{
  contributions, or_nil, joined, joined-joined, get-push_value, push_value-Distinct,
}

module _ {Value : Type 0} where
  -- The values that a child exports under a name that its parent imports.
  abbrev pub exported :
      CommonSpec Value → Channels Value → List ChannelName → ChannelName → List Value
  exported parent_spec channels [] name = []
  exported parent_spec channels (e ∷ es) name =
      let rest = exported parent_spec channels es name in
      if contains parent_spec.imported_channels e
      then elim (HashMap.get channels e) [
        | some value ↦ if e == name then value ∷ rest else rest
        | none ↦ rest
      ]
      else rest

  pub get-collect :
      (p : CommonSpec Value) (channels : Channels Value) (es : List ChannelName)
      (m : HashMap ChannelName (List Value)) (k : ChannelName)
      → HashMap.get (collect p channels es m) k
        ≡ joined (HashMap.get m k) (exported p channels es k)
  unfolding collect
  get-collect p channels [] m k = refl
  get-collect p channels (e ∷ es) m k = elim (Bool-cases (contains p.imported_channels e)) [
    | inr n ↦ ground (arith, n, get-collect p channels es m k)
    | inl y ↦ elim (Option-cases (HashMap.get channels e)) [
      | inl n ↦ ground (arith, y, n, get-collect p channels es m k)
      | inr (v, s) ↦ ground (
        arith,
        y,
        s,
        get-collect p channels es (push_value m e v) k,
        get-push_value m e k v,
        joined-joined (HashMap.get m k) (if e == k then v ∷ [] else []) (exported p channels es k),
      )
    ]
  ]

  pub collect-Distinct :
      (p : CommonSpec Value) (channels : Channels Value) (es : List ChannelName)
      (m : HashMap ChannelName (List Value))
      → HashMap.Distinct m
      → HashMap.Distinct (collect p channels es m)
  unfolding collect
  collect-Distinct p channels [] m d = d
  collect-Distinct p channels (e ∷ es) m d = elim (Bool-cases (contains p.imported_channels e)) [
    | inr n ↦ subst HashMap.Distinct (ground (arith, n)) (collect-Distinct p channels es m d)
    | inl y ↦ elim (Option-cases (HashMap.get channels e)) [
      | inl n ↦ subst HashMap.Distinct (ground (arith, y, n)) (collect-Distinct p channels es m d)
      | inr (v, s) ↦
          subst HashMap.Distinct (ground (arith, y, s))
            (collect-Distinct p channels es (push_value m e v) (push_value-Distinct m e v d))
    ]
  ]

  contributions-map :
      (f : FrameId) (n k : ChannelName) (vs : List Value) (us : List (ChannelUpdate Value))
      → contributions (map (λ v. record { name = n; value = v; contributor = f }) vs ++ us) k
        ≡ (if n == k then vs else []) ++ contributions us k
  contributions-map f n k [] us = ground arith
  contributions-map f n k (v ∷ vs) us = ground (arith, contributions-map f n k vs us)

  pub contributions-updates_of :
      (f : FrameId) (m : HashMap ChannelName (List Value)) (k : ChannelName)
      → HashMap.Distinct m
      → contributions (updates_of f m) k ≡ or_nil (HashMap.get m k)
  unfolding updates_of HashMap.get
  contributions-updates_of f [] k d = refl
  contributions-updates_of f ((n, vs) ∷ m) k d = ground (
    arith,
    contributions-map f n k vs (updates_of f m),
    contributions-updates_of f m k d.1,
    string_eq.eq_iff n k,
    d.0,
    append_nil vs,
  )
