-- ===== src/Session/Checkpointer/Outcomes.antt =====
-- What an event can change (session/checkpointer/mod.rs).
use marie.Base.{
  ◌≡◌, ◌⊎◌, sym, ◌∙◌, ap, arith, subst, inl, inr, some, Option-cases, Result, Result-cases, ok, err,
  [], ◌∷◌, ◌++◌,
}
use marie.Id.{id_eq}
use marie.Session.Sessions.{
  SessionStatus, SessionCell, change_session, flush, execute, upsert_session,
}
use marie.Session.Checkpointer.State.{SessionError, SessionCheckpointEvent, Outside, Checkpointer}
use marie.Session.Checkpointer.Marks.{announce, fail}
use marie.Session.Checkpointer.Handlers.{handle_event, process_event}
use marie.Session.Checkpointer.Extends.{Extends-refl}
use marie.Session.Checkpointer.Untouched.Handlers.{handle_event-Extends}
use marie.Session.Checkpointer.Growth.{Grows, of_Extends, Grows-trans, announce-Grows}

module _ {Value Float Time : Type 0} (outside : Outside Value Float Time) where
  -- What is left of a session after an event.
  abbrev pub Reported :
      Checkpointer Value Time → Result {0, 0} Unit SessionError → Checkpointer Value Time → Type 0
  Reported c (ok u) d =
      (d.session ≡ c.session) × (d.sessions ≡ c.sessions) × (d.announced ≡ c.announced)
  Reported c (err e) d =
      let status = SessionStatus.failed (outside.error_text e) in
      let failed = record c.session.entity { status = status } in
      (d.session.entity ≡ failed)
      × (d.sessions ≡ upsert_session c.sessions failed)
      × (d.announced ≡ c.announced ++ status ∷ [])

  fail-Reported :
      (c d : Checkpointer Value Time) (e : SessionError) (r : Result {0, 0} Unit SessionError)
      → fail outside e c ≡ some (r, d)
      → Reported c (err e) d
  unfolding fail announce change_session flush execute
  fail-Reported c d e r h = ground (arith, h)

  fail-Grows :
      (c d : Checkpointer Value Time) (e : SessionError) (r : Result {0, 0} Unit SessionError)
      → fail outside e c ≡ some (r, d)
      → Grows c d
  unfolding fail
  fail-Grows c d e r h = announce-Grows _ _ c d r h

  process_event-cases :
      (event : SessionCheckpointEvent Value) (c d : Checkpointer Value Time)
      (r : Result {0, 0} Unit SessionError)
      → process_event outside event c ≡ some (r, d)
      → (handle_event outside event c ≡ some (ok tt, d)) × (r ≡ ok tt)
        ⊎ ((m : Checkpointer Value Time) × (e : SessionError) × (u : Result {0, 0} Unit
              SessionError)
            × (handle_event outside event c ≡ some (err e, m))
            × (fail outside e m ≡ some (u, d))
            × (r ≡ err e))
  unfolding process_event
  process_event-cases event c d r h = elim (Option-cases (handle_event outside event c)) [
    | inl n ↦ absurd (ground (arith, n, h))
    | inr ((q, m), s) ↦ elim (Result-cases q) [
      | inl (u, t) ↦ inl (ground (arith, s, t, h), ground (arith, s, t, h))
      | inr (e, t) ↦ elim (Option-cases (fail outside e m)) [
        | inl n ↦ absurd (ground (arith, s, t, n, h))
        | inr ((u, d'), f) ↦
            inr (
              m,
              e,
              u,
              ground (arith, s, t),
              ground (arith, s, t, f, h),
              ground (arith, s, t, f, h),
            )
      ]
    ]
  ]

  -- An event that is processed without a panic makes no write to the stores of the frames and of the
  -- snapshots and changes no graph; what was sent, what was spawned and the writes of snapshots that
  -- wait in detached tasks are as they were, but for what is added behind them. If the handler succeeds
  -- the session is untouched; if it fails, the session has failed with the text of the error, in memory
  -- and in its store, and that status is announced once.
  pub process_event_outcome :
      (event : SessionCheckpointEvent Value) (c d : Checkpointer Value Time)
      (r : Result {0, 0} Unit SessionError)
      → process_event outside event c ≡ some (r, d)
      → Grows c d × Reported c r d
  process_event_outcome event c d r h = elim (process_event-cases event c d r h) [
    | inl (s, e) ↦
        let x = (handle_event-Extends outside {s = c} event).at c d (ok tt) s (Extends-refl c) in
        (of_Extends x, subst (λ q. Reported c q d) (sym e) (x.session, x.sessions, x.announced))
    | inr (m, e, u, s, f, q) ↦
        let x = (handle_event-Extends outside {s = c} event).at c m (err e) s (Extends-refl c) in
        let g = of_Extends x in
        let after : Reported m (err e) d = fail-Reported m d e u f in
        let moved : Reported c (err e) d = (
          after.0
              ∙ ap
                  (λ (k : SessionCell Time). record k.entity {
                    status = SessionStatus.failed (outside.error_text e);
                  })
                  x.session,
          ground (arith, after.1, x.session, x.sessions),
          ground (arith, after.2, x.announced),
        ) in
        (Grows-trans g (fail-Grows m d e u f), subst (λ p. Reported c p d) (sym q) moved)
  ]
