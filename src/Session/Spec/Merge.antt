-- ===== src/Session/Spec/Merge.antt =====
-- What a merge of two specs contains (session/spec.rs).
use marie.Base.{
  ◌≡◌, refl, arith, inl, inr, false, ◌||◌, Bool-cases, Option, none, some, List, [], ◌∷◌, ◌++◌,
  ◌==◌, string_eq, if◌then◌else◌, contains, find?,
}
use marie.Base.HashMap
use marie.Base.HashMap.{HashMap}
use marie.Session.Model.{ChannelName}
use marie.Session.Channel.{ChannelSpec}
use marie.Session.Spec.{CommonSpec, union, put_channel, merge_channels, or_else, merge}

-- The channel that a spec declares under a name; the first, if it stands twice.
abbrev pub channel_of : List ChannelSpec → ChannelName → Option ChannelSpec
channel_of cs name = find? (λ c. c.name == name) cs

-- The last entry of a list for a name: the one that a loop of overwriting writes leaves.
abbrev pub last_channel : List ChannelSpec → ChannelName → Option ChannelSpec
last_channel [] name = none
last_channel (c ∷ cs) name =
    or_else (last_channel cs name) (if c.name == name then some c else none)

abbrev pub last_value {ℓ} : {V : Type ℓ} → HashMap ChannelName V → ChannelName → Option V
last_value [] name = none
last_value ((n, v) ∷ m) name = or_else (last_value m name) (if n == name then some v else none)

contains-push :
    (xs : List ChannelName) (x n : ChannelName)
    → contains (xs ++ x ∷ []) n ≡ (contains xs n || x == n)
contains-push [] x n = ground arith
contains-push (y ∷ ys) x n = ground (arith, contains-push ys x n)

contains-union :
    (a b : List ChannelName) (n : ChannelName)
    → contains (union a b) n ≡ (contains a n || contains b n)
unfolding union
contains-union a [] n = ground arith
contains-union a (x ∷ b) n = ground (
  arith,
  contains-union a b n,
  contains-union (a ++ x ∷ []) b n,
  contains-push a x n,
  string_eq.eq_iff x n,
)

channel_of-put_channel :
    (cs : List ChannelSpec) (c : ChannelSpec) (n : ChannelName)
    → channel_of (put_channel cs c) n ≡ (if c.name == n then some c else channel_of cs n)
unfolding put_channel
channel_of-put_channel [] c n = refl
channel_of-put_channel (d ∷ cs) c n = ground (
  arith,
  channel_of-put_channel cs c n,
  string_eq.eq_iff d.name c.name,
  string_eq.eq_iff c.name n,
  string_eq.eq_iff d.name n,
)

channel_of-merge_channels :
    (a b : List ChannelSpec) (n : ChannelName)
    → channel_of (merge_channels a b) n ≡ or_else (last_channel b n) (channel_of a n)
unfolding merge_channels
channel_of-merge_channels a [] n = refl
channel_of-merge_channels a (c ∷ b) n =
    ground (arith, channel_of-merge_channels (put_channel a c) b n, channel_of-put_channel a c n)

get-extend :
    {V : Type 0} (m kvs : HashMap ChannelName V) (n : ChannelName)
    → HashMap.get (HashMap.extend m kvs) n ≡ or_else (last_value kvs n) (HashMap.get m n)
unfolding HashMap.extend
get-extend m [] n = refl
get-extend m ((k, v) ∷ kvs) n =
    ground (arith, get-extend (HashMap.insert m k v) kvs n, HashMap.get-insert m k n v)

-- A merge declares the channel, the default and the override that the second spec has under a
-- name, and those of the first where the second has none; it inherits, exports and imports a
-- channel if one of the two does.
pub merge_prefers :
    {Value : Type 0} (a b : CommonSpec Value) (n : ChannelName)
    → let m = merge a b in
      (channel_of m.channels n ≡ or_else (last_channel b.channels n) (channel_of a.channels n))
      × (HashMap.get m.default_values n
          ≡ or_else (last_value b.default_values n) (HashMap.get a.default_values n))
      × (HashMap.get m.overrides_channels n
          ≡ or_else (last_value b.overrides_channels n) (HashMap.get a.overrides_channels n))
      × (contains m.inherited_channels n
          ≡ (contains a.inherited_channels n || contains b.inherited_channels n))
      × (contains m.exported_channels n
          ≡ (contains a.exported_channels n || contains b.exported_channels n))
      × (contains m.imported_channels n
          ≡ (contains a.imported_channels n || contains b.imported_channels n))
unfolding merge
merge_prefers a b n = (
  channel_of-merge_channels a.channels b.channels n,
  get-extend a.default_values b.default_values n,
  get-extend a.overrides_channels b.overrides_channels n,
  contains-union a.inherited_channels b.inherited_channels n,
  contains-union a.exported_channels b.exported_channels n,
  contains-union a.imported_channels b.imported_channels n,
)

-- No name stands twice.
abbrev pub NoRepeat : List ChannelName → Type 0
NoRepeat [] = Unit
NoRepeat (x ∷ xs) = (contains xs x ≡ false) × NoRepeat xs

NoRepeat-push :
    (a : List ChannelName) (x : ChannelName)
    → contains a x ≡ false
    → NoRepeat a
    → NoRepeat (a ++ x ∷ [])
NoRepeat-push [] x h d = (refl, tt)
NoRepeat-push (y ∷ a) x h d = ground (
  arith,
  NoRepeat-push a x,
  d,
  h,
  contains-push a x y,
  string_eq.eq_iff x y,
  string_eq.eq_iff y x,
)

-- A union repeats no name if the first list does not, whatever the second repeats.
pub union-NoRepeat : (a b : List ChannelName) → NoRepeat a → NoRepeat (union a b)
unfolding union
union-NoRepeat a [] d = d
union-NoRepeat a (x ∷ b) d = elim (Bool-cases (contains a x)) [
  | inl y ↦ rw y (union-NoRepeat a b d)
  | inr n ↦ rw n (union-NoRepeat (a ++ x ∷ []) b (NoRepeat-push a x n d))
]
