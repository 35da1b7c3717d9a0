-- ===== src/Exec/Keeps.antt =====
-- Invariants of actions, with a rule for each way to build one.
use omnibase.Prelude.{Bool, true, false}
use omnibase.Types.{Error}
use omnibase.Exec.{
  Result, ok, err, Exec, pure, throw, lift, modify, gets, when, catch, continue, recover, ◌>>=◌,
}

-- The action keeps `P`, whether it returns or throws.
pub record Keeps {S A : Type 0} (P : S → Type 0) (m : Exec S A) : Type 0 where
  pub at : (s : S) → P s → P (m s).1

module _ {S : Type 0} {P : S → Type 0} where
  pub Keeps-pure : {A : Type 0} (a : A) → Keeps P (pure a)
  Keeps-pure a = record { at = λ s h. h }

  pub Keeps-throw : {A : Type 0} (e : Error) → Keeps P (throw {A = A} e)
  Keeps-throw e = record { at = λ s h. h }

  pub Keeps-lift : {A : Type 0} (r : Result A) → Keeps P (lift r)
  Keeps-lift r = record { at = λ s h. h }

  pub Keeps-lifted :
      {A B : Type 0} (r : Result A) (next : A → Exec S B)
      → ((a : A) → Keeps P (next a))
      → Keeps P (lift r >>= next)
  Keeps-lifted (ok a) next k = record { at = λ s h. (k a).at s h }
  Keeps-lifted (err e) next k = record { at = λ s h. h }

  pub Keeps-gets : {A : Type 0} (f : S → A) → Keeps P (gets f)
  Keeps-gets f = record { at = λ s h. h }

  pub Keeps-modify : (f : S → S) → ((s : S) → P s → P (f s)) → Keeps P (modify f)
  Keeps-modify f h = record { at = h }

  pub Keeps-when : (b : Bool) (m : Exec S (Unit {0})) → Keeps P m → Keeps P (when b m)
  Keeps-when true m k = k
  Keeps-when false m k = Keeps-pure tt

module _ {S A B : Type 0} {P : S → Type 0} where
  Keeps-continue :
      (f : A → Exec S B) (r : Result A) → ((a : A) → Keeps P (f a)) → Keeps P (continue f r)
  Keeps-continue f (ok a) kf = kf a
  Keeps-continue f (err e) kf = Keeps-throw e

  pub Keeps-bind :
      (first : Exec S A) (next : A → Exec S B)
      → Keeps P first
      → ((a : A) → Keeps P (next a))
      → Keeps P (first >>= next)
  Keeps-bind first next kf kn = record {
    at = λ s h. let (r, later) = first s in (Keeps-continue next r kn).at later (kf.at s h);
  }

module _ {S A : Type 0} {P : S → Type 0} where
  Keeps-recover :
      (handler : Error → Exec S A) (r : Result A)
      → ((e : Error) → Keeps P (handler e))
      → Keeps P (recover handler r)
  Keeps-recover handler (ok a) kh = Keeps-pure a
  Keeps-recover handler (err e) kh = kh e

  pub Keeps-catch :
      (m : Exec S A) (handler : Error → Exec S A)
      → Keeps P m
      → ((e : Error) → Keeps P (handler e))
      → Keeps P (catch m handler)
  Keeps-catch m handler km kh = record {
    at = λ s h. let (r, s') = m s in (Keeps-recover handler r kh).at s' (km.at s h);
  }

pub ruleset keeps_rules =
    (Keeps-pure, Keeps-throw, Keeps-lift, Keeps-gets, Keeps-when, Keeps-bind, Keeps-catch)
