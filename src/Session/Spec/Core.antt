-- ===== src/Session/Spec/Core.antt =====
-- session/spec.rs: the specs of the built-in frames, and the expansion of the macro `core_spec`
-- (marie-macros/src/lib.rs) that writes them.
use marie.Base.{string_eq, Bool, true, false, Option, none, some, List, [], ◌∷◌, filter, map}
use marie.Base.HashMap
use marie.Base.HashMap.{HashMap}
use marie.Session.Model.{ChannelName}
use marie.Session.Channel.{Json, Reducer}
use marie.Session.Spec.{Budget, CommonSpec}

abbrev pub no_budget : Budget
no_budget = record { max_step = none; max_tokens = none }

module _ (Value : Type 0) where
  -- An entry of the block `channels`; a default and an override are the JSON values of their
  -- expressions.
  pub record SpecChannel : Type 0 where
    pub name : ChannelName
    pub reducer : Reducer
    pub inherited : Bool
    pub exported : Bool
    pub imported : Bool
    pub default_value : Option Value
    pub overrides : Option Value

module _ {Value : Type 0} where
  -- `SpecChannel::parse` of an entry that gives only the reducer
  abbrev pub channel : ChannelName → Reducer → SpecChannel Value
  channel name reducer = record {
    name = name;
    reducer = reducer;
    inherited = false;
    exported = false;
    imported = false;
    default_value = none;
    overrides = none;
  }

  abbrev pub names : List (SpecChannel Value) → List ChannelName
  names channels = map (λ c. c.name) channels

  unfoldable pub given :
      (SpecChannel Value → Option Value) → List (SpecChannel Value) → List (ChannelName × Value)
  given field [] = []
  given field (c ∷ cs) = elim (field c) [
    | some v ↦ (c.name, v) ∷ given field cs
    | none ↦ given field cs
  ]

  unfoldable pub build_common_spec : Budget → List (SpecChannel Value) → CommonSpec Value
  build_common_spec budget channels = record {
    budget = budget;
    channels = map (λ c. record { name = c.name; reducer = c.reducer }) channels;
    inherited_channels = names (filter (λ c. c.inherited) channels);
    exported_channels = names (filter (λ c. c.exported) channels);
    imported_channels = names (filter (λ c. c.imported) channels);
    default_values = HashMap.extend HashMap.empty (given (λ c. c.default_value) channels);
    overrides_channels = HashMap.extend HashMap.empty (given (λ c. c.overrides) channels);
  }

  unfoldable pub shell : CommonSpec Value
  shell = build_common_spec no_budget (
      record (channel "tool_result" Reducer.last_write_wins) { imported = true }
      ∷ record (channel "expert_answer" Reducer.last_write_wins) { imported = true }
      ∷ record (channel "hitl_answer" Reducer.last_write_wins) { imported = true }
      ∷ [])

  unfoldable pub graph : CommonSpec Value
  graph =
      build_common_spec no_budget
        (record (channel "graph_result" Reducer.last_write_wins) { exported = true } ∷ [])

  unfoldable pub tool : CommonSpec Value
  tool =
      build_common_spec no_budget
        (record (channel "tool_result" Reducer.last_write_wins) { exported = true } ∷ [])

  unfoldable pub tool_aggregator : CommonSpec Value
  tool_aggregator =
      build_common_spec no_budget
        (record (channel "tool_result" Reducer.append) { imported = true; exported = true } ∷ [])

  unfoldable pub expert_aggregator : CommonSpec Value
  expert_aggregator = build_common_spec no_budget (
      record (channel "expert_task" Reducer.last_write_wins) { inherited = true }
      ∷ record (channel "expert_answer" Reducer.append) {
        inherited = true;
        imported = true;
        exported = true;
      }
      ∷ [])

  unfoldable pub hitl : CommonSpec Value
  hitl = record {
    budget = no_budget;
    channels = record { name = "hitl_answer"; reducer = Reducer.last_write_wins } ∷ [];
    inherited_channels = [];
    exported_channels = "hitl_answer" ∷ [];
    default_values = HashMap.empty;
    overrides_channels = HashMap.empty;
    imported_channels = [];
  }

-- `Context::default()` and the empty vector are both the empty array.
module _ {Value Float : Type 0} (json : Json Value Float) where
  unfoldable pub expert : CommonSpec Value
  expert = build_common_spec no_budget (
      record (channel "expert_task" Reducer.last_write_wins) { inherited = true }
      ∷ record (channel "expert_answer" Reducer.last_write_wins) {
        exported = true;
        imported = true;
      }
      ∷ record (channel "expert_context" Reducer.last_write_wins) {
        default_value = some (json.array []);
      }
      ∷ record (channel "tool_result" Reducer.last_write_wins) {
        default_value = some (json.array []);
        inherited = true;
        imported = true;
      }
      ∷ [])
