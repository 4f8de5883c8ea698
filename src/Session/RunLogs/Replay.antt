-- ===== src/Session/RunLogs/Replay.antt =====
-- A run over the persisted log, and a replay of it (session/run_log.rs).
use marie.Base.{
  ℕ, zero, suc, ◌+◌, ◌%◌, ◌^◌, ◌≤◌, ◌≡◌, refl, sym, ◌∙◌, ap, inl, inr, arith, List, [], ◌∷◌, ◌++◌,
  none, some, leb, ltb, length, get_elem?, drop, if◌then◌else◌, length-append, append_nil,
  append_assoc, drop_all, Bool-cases, drop-length-append, append_nil, append_assoc, drop_all,
  Bool-cases,
}
use marie.Session.RunLogs.{
  RunLogContent, RunLog, RunLogs, RunLogRef, new, reserve_log, check, into_new_logs, reserve_all,
}

module _ {Value : Type 0} where
  -- The unresolved entries for some contents, numbered from `n` on.
  abbrev pub unresolved : ℕ → List (RunLogContent Value) → List (RunLog Value)
  unresolved n [] = []
  unresolved n (c ∷ cs) =
      record { index = n % 2 ^ 32; content = c; value = none } ∷ unresolved (suc n) cs

  abbrev pub positions : ℕ → List (RunLogContent Value) → List RunLogRef
  positions n [] = []
  positions n (c ∷ cs) = n ∷ positions (suc n) cs

  -- The entries that a log of `m` entries lacks for contents from position `n` on.
  abbrev missing : ℕ → ℕ → List (RunLogContent Value) → List (RunLog Value)
  missing m n [] = []
  missing m n (c ∷ cs) =
      let rest = missing m (suc n) cs in
      if ltb n m then rest else record { index = n % 2 ^ 32; content = c; value = none } ∷ rest

  missing_beyond :
      (m n : ℕ) (cs : List (RunLogContent Value)) → m ≤ n → missing m n cs ≡ unresolved n cs
  missing_beyond m n [] h = refl
  missing_beyond m n (c ∷ cs) h = ground (arith, missing_beyond m (suc n) cs, h)

  missing-drop :
      (m n k : ℕ) (cs : List (RunLogContent Value))
      → m ≡ n + k
      → missing m n cs ≡ unresolved m (drop k cs)
  missing-drop m n zero cs h =
      missing_beyond m n cs (omega arith) ∙ ap (λ i. unresolved i cs) (omega arith)
  missing-drop m n (suc k) [] h = refl
  missing-drop m n (suc k) (c ∷ cs) h = ground (arith, missing-drop m (suc n) k cs (omega arith), h)

  reserve_all-from :
      (logs : RunLogs Value) (cs : List (RunLogContent Value))
      → logs.cursor ≤ length logs.entries
      → let (refs, logs') = reserve_all logs cs in
        (refs ≡ positions logs.cursor cs)
        × (logs'.entries ≡ logs.entries ++ missing (length logs.entries) logs.cursor cs)
        × (logs'.persisted_len ≡ logs.persisted_len)
  unfolding reserve_all reserve_log
  reserve_all-from logs [] h = (refl, sym (append_nil logs.entries), refl)
  reserve_all-from logs (c ∷ cs) h = elim (Bool-cases (leb (length logs.entries) logs.cursor)) [
    | inl new ↦
        let e : RunLog Value = record { index = logs.cursor % 2 ^ 32; content = c; value = none } in
        ground (
          arith,
          new,
          h,
          length-append logs.entries (e ∷ []),
          append_assoc logs.entries (e ∷ []) (missing (length logs.entries) (suc logs.cursor) cs),
          missing_beyond (length logs.entries) (suc logs.cursor) cs,
          missing_beyond (length (logs.entries ++ e ∷ [])) (suc logs.cursor) cs,
          reserve_all-from
              (record {
                entries = logs.entries ++ e ∷ [];
                persisted_len = logs.persisted_len;
                cursor = logs.cursor + 1;
              })
              cs,
        )
    | inr old ↦
        ground (arith, old, h, reserve_all-from (record logs { cursor = logs.cursor + 1 }) cs)
  ]

  -- The references of a run are the positions of its calls, whatever is persisted. The entries that
  -- it creates are the unresolved ones for the calls beyond the persisted entries, numbered on from
  -- them; those that were persisted stay as they are, in front.
  pub run_reserves :
      (persisted : List (RunLog Value)) (cs : List (RunLogContent Value))
      → let (refs, logs) = reserve_all (new persisted) cs in
        (refs ≡ positions 0 cs)
        × (into_new_logs logs ≡ unresolved (length persisted) (drop (length persisted) cs))
        × (logs.entries ≡ persisted ++ into_new_logs logs)
  unfolding into_new_logs new
  run_reserves persisted cs = ground (
    arith,
    reserve_all-from (new persisted) cs (omega arith),
    missing-drop (length persisted) 0 (length persisted) cs (omega arith),
    drop-length-append persisted (unresolved (length persisted) (drop (length persisted) cs)),
  )

  -- A replay that makes no more calls than entries are persisted creates nothing, whatever it asks
  -- for, and finds under the position of each call the value that is persisted there.
  pub replay_finds :
      (persisted : List (RunLog Value)) (cs : List (RunLogContent Value))
      → length cs ≤ length persisted
      → let (refs, logs) = reserve_all (new persisted) cs in
        (into_new_logs logs ≡ [])
        × ((k : ℕ) (log : RunLog Value)
            → get_elem? persisted k ≡ some log
            → check logs k ≡ some log.value)
  unfolding check
  replay_finds persisted cs h =
      let (refs, news, es) = run_reserves persisted cs in
      let none_new : into_new_logs (reserve_all (new persisted) cs).1 ≡ [] =
        news ∙ ap (unresolved (length persisted)) (drop_all (length persisted) cs h) in
      (none_new, λ k log e. ground (arith, e, es, none_new, append_nil persisted))
