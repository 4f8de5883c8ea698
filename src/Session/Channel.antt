-- ===== src/Session/Channel.antt =====
-- session/channel.rs: channels, their reducers, and the writes of a run. A value that is written
-- stands for its `serde_json::to_value`.
pub mod Laws
use marie.Base.{
  Bool, true, false, Option, none, some, ◌==◌, string_eq, if◌then◌else◌, List, [], ◌∷◌, ◌++◌, last?,
  Result, ok, err,
}
use marie.Base.HashMap
use marie.Base.HashMap.{HashMap}
use marie.Id.{FrameId}
use marie.Session.Model.{ChannelName, ChannelUpdate}

-- serde_json: the value `null`, arrays, and numbers as `f64` with their `max`. `Float` are the
-- numbers that a JSON value can hold, so not NaN nor the infinities.
pub record Json (Value Float : Type 0) : Type 0 where
  pub null : Value
  pub array : List Value → Value
  pub as_array : Value → Option (List Value)
  pub as_f64 : Value → Option Float
  pub number : Float → Value
  pub max : Float → Float → Float

pub data Reducer : Type 0 where
  last_write_wins : Reducer
  append : Reducer
  max : Reducer

pub record ChannelSpec : Type 0 where
  pub name : ChannelName
  pub reducer : Reducer

module _ {Value Float : Type 0} (json : Json Value Float) where
  -- The loop of `Reducer::Max`.
  unfoldable pub best : Option Float → List Value → Option Float
  best b [] = b
  best b (c ∷ cs) = elim (json.as_f64 c) [
    | none ↦ best b cs
    | some n ↦ elim b [ none ↦ best (some n) cs | some m ↦ best (some (json.max m n)) cs ]
  ]

  unfoldable pub reduce : Reducer → Option Value → List Value → Value
  reduce last_write_wins current contributions = elim (last? contributions) [
    | some v ↦ v
    | none ↦ elim current [ some v ↦ v | none ↦ json.null ]
  ]
  reduce append current contributions = elim current [
    | none ↦ json.array contributions
    | some v ↦ elim (json.as_array v) [
      | some vec ↦ json.array (vec ++ contributions)
      | none ↦ json.array contributions
    ]
  ]
  reduce max current contributions =
      let start : Option Float = elim current [ some v ↦ json.as_f64 v | none ↦ none ] in
      elim (best start contributions) [ some n ↦ json.number n | none ↦ json.null ]

abbrev pub Channels : Type 0 → Type 0
Channels Value = HashMap ChannelName Value

pub record ChannelsTracker (Value : Type 0) : Type 0 where
  pub frame_id : FrameId
  pub channels : Channels Value
  pub updates : List (ChannelUpdate Value)

pub data ReadError : Type 0 where
  no_channel_exists : ChannelName → ReadError

module _ {Value : Type 0} where
  unfoldable pub new : FrameId → Channels Value → ChannelsTracker Value
  new frame_id channels = record { frame_id = frame_id; channels = channels; updates = [] }

  unfoldable pub write : ChannelsTracker Value → ChannelName → Value → ChannelsTracker Value
  write tracker name value =
      let update : ChannelUpdate Value = record {
        name = name;
        value = value;
        contributor = tracker.frame_id;
      } in
      record tracker { updates = tracker.updates ++ update ∷ [] }

  -- `updates.iter().rev().find(..)`: the last update of the channel
  unfoldable pub last_update : List (ChannelUpdate Value) → ChannelName → Option Value
  last_update [] name = none
  last_update (u ∷ us) name = elim (last_update us name) [
    | some v ↦ some v
    | none ↦ if u.name == name then some u.value else none
  ]

  -- `read` up to its `serde_json::from_value`
  unfoldable pub read : ChannelsTracker Value → ChannelName → Result Value ReadError
  read tracker name = elim (last_update tracker.updates name) [
    | some v ↦ ok v
    | none ↦ elim (HashMap.get tracker.channels name) [
      | some v ↦ ok v
      | none ↦ err (ReadError.no_channel_exists name)
    ]
  ]

  unfoldable pub into_updates : ChannelsTracker Value → List (ChannelUpdate Value)
  into_updates tracker = tracker.updates

  -- A run of writes.
  unfoldable pub write_all :
      ChannelsTracker Value → List (ChannelName × Value) → ChannelsTracker Value
  write_all tracker [] = tracker
  write_all tracker ((n, v) ∷ writes) = write_all (write tracker n v) writes
