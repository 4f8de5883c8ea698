-- ===== src/Session/Checkpointer/Keeps.antt =====
-- What an action keeps: a predicate on the checkpointer that survives it, whether it returns or fails.
use marie.Base.{
  ◌≡◌, arith, subst, inl, inr, Bool, true, false, Option, none, some, Option-cases, Result,
  Result-cases, ok, err, List, [], ◌∷◌,
}
use marie.Session.Checkpointer.State.{
  SessionError, Checkpointer, Action, pure, raise, panic, gets, lift, unwrap, choose, let_else,
  for_each, ◌>>=◌,
}

module _ {Value Time : Type 0} where
  pub record Keeps {A : Type 0} (P : Checkpointer Value Time → Type 0) (m : Action Value Time A)
      : Type 0 where
    pub at :
        (c c' : Checkpointer Value Time) (r : Result A SessionError)
        → m c ≡ some (r, c')
        → P c
        → P c'

module _ {Value Time A : Type 0} {P : Checkpointer Value Time → Type 0} where
  pub Keeps-pure : (a : A) → Keeps P (pure a)
  unfolding pure
  Keeps-pure a = record { at = λ c c' r e p. subst P (ground (arith, e)) p }

  pub Keeps-raise : (e : SessionError) → Keeps P (raise {A = A} e)
  unfolding raise
  Keeps-raise x = record { at = λ c c' r e p. subst P (ground (arith, e)) p }

  pub Keeps-panic : Keeps P (panic {A = A})
  unfolding panic
  Keeps-panic = record { at = λ c c' r e p. absurd (ground (arith, e)) }

  pub Keeps-gets : (f : Checkpointer Value Time → A) → Keeps P (gets f)
  unfolding gets
  Keeps-gets f = record { at = λ c c' r e p. subst P (ground (arith, e)) p }

  pub Keeps-unwrap : (o : Option A) → Keeps P (unwrap o)
  unfolding unwrap
  Keeps-unwrap (some a) = Keeps-pure a
  Keeps-unwrap none = Keeps-panic

  pub Keeps-lift {κ} :
      {E : Type κ} (wrap : E → SessionError) (r : Result A E) → Keeps P (lift wrap r)
  unfolding lift
  Keeps-lift wrap (ok a) = Keeps-pure a
  Keeps-lift wrap (err e) = Keeps-raise (wrap e)

module _ {Value Time A : Type 0} {P : Checkpointer Value Time → Type 0} where
  pub Keeps-choose :
      (b : Bool) (m n : Action Value Time A) → Keeps P m → Keeps P n → Keeps P (choose b m n)
  unfolding choose
  Keeps-choose true m n k l = k
  Keeps-choose false m n k l = l

  pub Keeps-let_else :
      {X : Type 0} (o : Option X) (m : Action Value Time A) (f : X → Action Value Time A)
      → Keeps P m
      → ((x : X) → Keeps P (f x))
      → Keeps P (let_else o m f)
  unfolding let_else
  Keeps-let_else none m f k l = k
  Keeps-let_else (some x) m f k l = l x

module _ {Value Time A B : Type 0} {P : Checkpointer Value Time → Type 0} where
  pub Keeps-bind :
      (m : Action Value Time A) (f : A → Action Value Time B)
      → Keeps P m
      → ((a : A) → Keeps P (f a))
      → Keeps P (m >>= f)
  unfolding ◌>>=◌
  Keeps-bind m f k l = record {
    at = λ c c' r e p. elim (Option-cases (m c)) [
      | inl n ↦ absurd (ground (arith, n, e))
      | inr ((q, d), s) ↦ elim (Result-cases q) [
        | inl (a, t) ↦ (l a).at d c' r (ground (arith, s, t, e)) (k.at c d q s p)
        | inr (x, t) ↦ subst P (ground (arith, s, t, e)) (k.at c d q s p)
      ]
    ];
  }

module _ {Value Time X : Type 0} {P : Checkpointer Value Time → Type 0} where
  pub Keeps-for_each :
      (xs : List X) (body : X → Action Value Time (Unit {0}))
      → ((x : X) → Keeps P (body x))
      → Keeps P (for_each xs body)
  unfolding for_each
  Keeps-for_each [] body k = Keeps-pure tt
  Keeps-for_each (x ∷ xs) body k = Keeps-bind (body x) _ (k x) (λ u. Keeps-for_each xs body k)
