-- ===== src/Session/Examples.antt =====
-- A log of two entries, a few channels and two specs; the theorems at them.
use marie.Base.{
  ℕ, ◌≡◌, refl, ap, arith, Option, none, some, List, [], ◌∷◌, ◌++◌, length, get_elem?, drop,
  string_eq, if◌then◌else◌, ltb,
}
use marie.Id.{FrameId}
use marie.Session.Model.{ChannelName}
use marie.Session.RunLogs.{
  RunLogContent, RunLog, graph_log, new, reserve_log, reserve_all, check, into_new_logs,
}
use marie.Session.RunLogs.Replay.{unresolved, positions, run_reserves, replay_finds}
use marie.Session.Channel.{Json, append, max, reduce, ChannelsTracker}
use marie.Session.Channel.Laws.{Reads, reduce_batches}
use marie.Session.Spec.{CommonSpec}

-- JSON values without texts and objects.
mutual
  data Sample : Type 0 where
    null : Sample
    number : ℕ → Sample
    array : Samples → Sample

  data Samples : Type 0 where
    no_more : Samples
    first : Sample → Samples → Samples

abbrev listed : Samples → List Sample
listed no_more = []
listed (first v vs) = v ∷ listed vs

abbrev packed : List Sample → Samples
packed [] = no_more
packed (v ∷ vs) = first v (packed vs)

listed-packed : (vs : List Sample) → listed (packed vs) ≡ vs
listed-packed [] = refl
listed-packed (v ∷ vs) = ap (λ us. v ∷ us) (listed-packed vs)

abbrev elements : Sample → Option (List Sample)
elements null = none
elements (number n) = none
elements (array vs) = some (listed vs)

abbrev numeral : Sample → Option ℕ
numeral null = none
numeral (number n) = some n
numeral (array vs) = none

abbrev sample_json : Json Sample ℕ
sample_json = record {
  null = Sample.null;
  array = λ vs. Sample.array (packed vs);
  as_array = elements;
  as_f64 = numeral;
  number = Sample.number;
  max = λ m n. if ltb m n then n else m;
}

sample_json-Reads : Reads sample_json
sample_json-Reads = record {
  array_reads = λ vs. ap some (listed-packed vs);
  number_reads = λ n. refl;
  null_reads = refl;
}

reduce_batches_example :
    reduce sample_json max
      (some (reduce sample_json max (some (number 3)) (number 5 ∷ [])))
      (number 4 ∷ [])
    ≡ reduce sample_json max (some (number 3)) (number 5 ∷ number 4 ∷ [])
reduce_batches_example =
    reduce_batches sample_json max (some (number 3)) (number 5 ∷ []) (number 4 ∷ [])
      sample_json-Reads

abbrev frame : FrameId
frame = record { prefix = 1; local = 4 }

abbrev tracker : ChannelsTracker Sample
tracker = record { frame_id = frame; channels = ("task", number 1) ∷ []; updates = [] }

abbrev log_entry : ℕ → Option Sample → RunLog Sample
log_entry i v = record { index = i; content = graph_log "g"; value = v }

abbrev persisted : List (RunLog Sample)
persisted = log_entry 0 (some (number 7)) ∷ log_entry 1 (some null) ∷ []

abbrev calls : List (RunLogContent Sample)
calls = graph_log "g" ∷ graph_log "g" ∷ graph_log "h" ∷ []

third_call_is_new :
    into_new_logs (reserve_all (new persisted) calls).1 ≡ unresolved 2 (graph_log "h" ∷ [])
unfolding new into_new_logs reserve_all reserve_log
third_call_is_new = refl

run_reserves_example :
    let (refs, logs) = reserve_all (new persisted) calls in
    (refs ≡ positions 0 calls)
    × (into_new_logs logs ≡ unresolved (length persisted) (drop (length persisted) calls))
    × (logs.entries ≡ persisted ++ into_new_logs logs)
run_reserves_example = run_reserves persisted calls

replay_finds_example :
    let (refs, logs) = reserve_all (new persisted) (graph_log "g" ∷ []) in
    (into_new_logs logs ≡ [])
    × ((k : ℕ) (log : RunLog Sample)
        → get_elem? persisted k ≡ some log
        → check logs k ≡ some log.value)
replay_finds_example = replay_finds persisted (graph_log "g" ∷ []) (omega arith)

abbrev spec : List ChannelName → CommonSpec Sample
spec imported = record {
  budget = record { max_step = none; max_tokens = some 1024 };
  channels = record { name = "answer"; reducer = append } ∷ [];
  inherited_channels = [];
  exported_channels = "answer" ∷ [];
  default_values = ("answer", number 0) ∷ [];
  overrides_channels = [];
  imported_channels = imported;
}
