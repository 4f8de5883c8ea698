-- ===== src/Session/Spec.antt =====
-- session/spec.rs: `CommonSpec`, the budget and the channels of a frame, and the merge of two specs.
pub mod Merge
pub mod Core
use marie.Base.{
  ℕ, Bool, not, Option, none, some, ◌==◌, string_eq, if◌then◌else◌, List, [], ◌∷◌, ◌++◌, contains,
}
use marie.Base.HashMap
use marie.Base.HashMap.{HashMap}
use marie.Session.Model.{ChannelName}
use marie.Session.Channel.{ChannelSpec}

pub record Budget : Type 0 where
  pub max_step : Option ℕ
  pub max_tokens : Option ℕ

pub record CommonSpec (Value : Type 0) : Type 0 where
  pub budget : Budget
  pub channels : List ChannelSpec
  pub inherited_channels : List ChannelName
  pub exported_channels : List ChannelName
  pub default_values : HashMap ChannelName Value
  pub overrides_channels : HashMap ChannelName Value
  pub imported_channels : List ChannelName

unfoldable pub union : List ChannelName → List ChannelName → List ChannelName
union a [] = a
union a (name ∷ b) = if contains a name then union a b else union (a ++ name ∷ []) b

-- The body of the loop over `b.channels`.
unfoldable pub put_channel : List ChannelSpec → ChannelSpec → List ChannelSpec
put_channel [] channel = channel ∷ []
put_channel (c ∷ cs) channel =
    let rest = put_channel cs channel in if c.name == channel.name then channel ∷ cs else c ∷ rest

unfoldable pub merge_channels : List ChannelSpec → List ChannelSpec → List ChannelSpec
merge_channels a [] = a
merge_channels a (channel ∷ b) = merge_channels (put_channel a channel) b

-- `Option::or`
abbrev pub or_else {ℓ} : {A : Type ℓ} → Option A → Option A → Option A
or_else (some a) y = some a
or_else none y = y

module _ {Value : Type 0} where
  unfoldable pub overrides : CommonSpec Value → ChannelName → Value → CommonSpec Value
  overrides spec channel_name value = record spec {
    overrides_channels = HashMap.insert spec.overrides_channels channel_name value;
  }

  unfoldable pub merge : CommonSpec Value → CommonSpec Value → CommonSpec Value
  merge a b = record {
    budget = record {
      max_step = or_else b.budget.max_step a.budget.max_step;
      max_tokens = or_else b.budget.max_tokens a.budget.max_tokens;
    };
    channels = merge_channels a.channels b.channels;
    inherited_channels = union a.inherited_channels b.inherited_channels;
    exported_channels = union a.exported_channels b.exported_channels;
    default_values = HashMap.extend a.default_values b.default_values;
    overrides_channels = HashMap.extend a.overrides_channels b.overrides_channels;
    imported_channels = union a.imported_channels b.imported_channels;
  }
