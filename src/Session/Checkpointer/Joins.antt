-- ===== src/Session/Checkpointer/Joins.antt =====
-- What a commit makes of the updates (session/checkpointer/mod.rs): each channel is reduced once, from
-- all its contributions in their order.
use marie.Base.{
  sym, ◌≡◌, refl, ◌∙◌, ap, arith, subst, inl, inr, Option, none, some, Option-cases, List, [], ◌∷◌,
  ◌++◌, append_assoc, append_nil, ◌==◌, string_eq, if◌then◌else◌,
}
use marie.Base.HashMap
use marie.Base.HashMap.{HashMap}
use marie.Session.Model.{ChannelName, ChannelUpdate}
use marie.Session.Channel.{Json, Channels, ChannelSpec, reduce}
use marie.Session.Checkpointer.Commits.{push_value, group, reducer_of, reduce_all}

module _ {Value : Type 0} where
  -- The values that the updates give to a channel, in their order.
  abbrev pub contributions : List (ChannelUpdate Value) → ChannelName → List Value
  contributions [] name = []
  contributions (u ∷ us) name =
      let rest = contributions us name in if u.name == name then u.value ∷ rest else rest

  abbrev pub or_nil : Option (List Value) → List Value
  or_nil none = []
  or_nil (some vs) = vs

  -- A group with more values at its end.
  abbrev pub joined : Option (List Value) → List Value → Option (List Value)
  joined o [] = o
  joined o (v ∷ vs) = some (or_nil o ++ v ∷ vs)

  pub get-push_value :
      (m : HashMap ChannelName (List Value)) (n k : ChannelName) (v : Value)
      → HashMap.get (push_value m n v) k ≡ joined (HashMap.get m k) (if n == k then v ∷ [] else [])
  unfolding push_value
  get-push_value m n k v = elim (Option-cases (HashMap.get m n)) [
    | inl e ↦ ground (arith, e, HashMap.get-insert m n k (v ∷ []), string_eq.eq_iff n k)
    | inr (vs, e) ↦ ground (arith, e, HashMap.get-insert m n k (vs ++ v ∷ []), string_eq.eq_iff n k)
  ]

  pub joined-joined :
      (o : Option (List Value)) (xs ys : List Value) → joined (joined o xs) ys ≡ joined o (xs ++ ys)
  joined-joined o [] ys = refl
  joined-joined o (x ∷ xs) [] = ap (λ zs. some (or_nil o ++ x ∷ zs)) (sym (append_nil xs))
  joined-joined o (x ∷ xs) (y ∷ ys) = ap some (append_assoc (or_nil o) (x ∷ xs) (y ∷ ys))

  pub get-group :
      (us : List (ChannelUpdate Value)) (m : HashMap ChannelName (List Value)) (k : ChannelName)
      → HashMap.get (group us m) k ≡ joined (HashMap.get m k) (contributions us k)
  unfolding group
  get-group [] m k = refl
  get-group (u ∷ us) m k =
      get-group us (push_value m u.name u.value) k
      ∙ ap (λ o. joined o (contributions us k)) (get-push_value m u.name k u.value)
      ∙ joined-joined (HashMap.get m k) (if u.name == k then u.value ∷ [] else [])
          (contributions us k)
      ∙ ground arith

  pub push_value-Distinct :
      (m : HashMap ChannelName (List Value)) (n : ChannelName) (v : Value)
      → HashMap.Distinct m
      → HashMap.Distinct (push_value m n v)
  unfolding push_value
  push_value-Distinct m n v d = elim (Option-cases (HashMap.get m n)) [
    | inl e ↦ subst HashMap.Distinct (ground (arith, e)) (HashMap.insert-Distinct m n (v ∷ []) d)
    | inr (vs, e) ↦
        subst HashMap.Distinct (ground (arith, e)) (HashMap.insert-Distinct m n (vs ++ v ∷ []) d)
  ]

  pub group-Distinct :
      (us : List (ChannelUpdate Value)) (m : HashMap ChannelName (List Value))
      → HashMap.Distinct m
      → HashMap.Distinct (group us m)
  unfolding group
  group-Distinct [] m d = d
  group-Distinct (u ∷ us) m d =
      group-Distinct us (push_value m u.name u.value) (push_value-Distinct m u.name u.value d)

module _ {Value Float : Type 0} (json : Json Value Float) where
  -- The value of a channel after its contributions were reduced onto it.
  abbrev pub reduced :
      List ChannelSpec → Channels Value → ChannelName → Option (List Value) → Option Value
  reduced specs channels name none = HashMap.get channels name
  reduced specs channels name (some vs) =
      some (reduce json (reducer_of specs name) (HashMap.get channels name) vs)

  pub get-reduce_all :
      (specs : List ChannelSpec) (channels : Channels Value) (m : HashMap ChannelName (List Value))
      (k : ChannelName)
      → HashMap.Distinct m
      → HashMap.get (reduce_all json specs channels m) k
        ≡ reduced specs channels k (HashMap.get m k)
  unfolding reduce_all HashMap.get
  get-reduce_all specs channels [] k d = refl
  get-reduce_all specs channels ((n, vs) ∷ m) k d =
      let x = reduce json (reducer_of specs n) (HashMap.get channels n) vs in
      ground (
        arith,
        get-reduce_all specs (HashMap.insert channels n x) m k d.1,
        HashMap.get-insert channels n k x,
        string_eq.eq_iff n k,
        d.0,
      )

  pub get-reduce_group :
      (specs : List ChannelSpec) (channels : Channels Value) (us : List (ChannelUpdate Value))
      (k : ChannelName)
      → HashMap.get (reduce_all json specs channels (group us HashMap.empty)) k
        ≡ reduced specs channels k (joined none (contributions us k))
  unfolding HashMap.get
  get-reduce_group specs channels us k =
      get-reduce_all specs channels (group us HashMap.empty) k (group-Distinct us [] tt)
      ∙ ap (reduced specs channels k) (get-group us [] k)
