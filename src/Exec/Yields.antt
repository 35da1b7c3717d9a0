-- ===== src/Exec/Yields.antt =====
-- What holds of every value that an action returns, with a rule for each way to build one.
use omnibase.Prelude.{◌≡◌, ap, inl, inr, Bool, true, false, if◌then◌else◌}
use omnibase.Types.{Error}
use omnibase.Exec.{ok, Exec, pure, catch, ◌>>=◌}
use omnibase.Exec.Laws.{>>=-eq-ok, catch-eq-ok, ok-injective}

-- If the action returns, its value has `P`.
pub record Yields {S A : Type 0} (P : A → Type 0) (m : Exec S A) : Type 0 where
  pub at : (s s' : S) (a : A) → m s ≡ (ok a, s') → P a

module _ {S A : Type 0} {P : A → Type 0} where
  pub Yields-pure : (a : A) → P a → Yields P (pure {S = S} a)
  Yields-pure a h = record { at = λ s s' b e. rw (← ok-injective (ap (λ p. p.0) e)) h }

  pub Yields-bind :
      {B : Type 0} (Q : B → Type 0) (m : Exec S B) (f : B → Exec S A)
      → Yields Q m
      → ((b : B) → Q b → Yields P (f b))
      → Yields P (m >>= f)
  Yields-bind Q m f first next = record {
    at = λ s s' a e.
        let (b, t, ran, rest) = >>=-eq-ok m f s s' a e in
        (next b (first.at s t b ran)).at t s' a rest;
  }

  -- Whatever the first action returns.
  pub Yields-after :
      {B : Type 0} (m : Exec S B) (f : B → Exec S A)
      → ((b : B) → Yields P (f b))
      → Yields P (m >>= f)
  Yields-after m f next = record {
    at = λ s s' a e. let (b, t, ran, rest) = >>=-eq-ok m f s s' a e in (next b).at t s' a rest;
  }

  pub Yields-catch :
      (m : Exec S A) (handler : Error → Exec S A)
      → Yields P m
      → ((e : Error) → Yields P (handler e))
      → Yields P (catch m handler)
  Yields-catch m handler body handled = record {
    at = λ s s' a e. elim (catch-eq-ok m handler s s' a e) [
      | inl ran ↦ body.at s s' a ran
      | inr (e', threw, ran) ↦ (handled e').at (m s).1 s' a ran
    ];
  }

  pub Yields-if :
      (b : Bool) (m n : Exec S A) → Yields P m → Yields P n → Yields P (if b then m else n)
  Yields-if true m n this that = this
  Yields-if false m n this that = that

  pub Yields-weaken :
      {Q : A → Type 0} (m : Exec S A) → Yields P m → ((a : A) → P a → Q a) → Yields Q m
  Yields-weaken m yields weaken = record { at = λ s s' a e. weaken a (yields.at s s' a e) }
