-- ===== src/Exec/Fueled.antt =====
-- Actions that take fuel: one out of fuel has no outcome.
use omnibase.Prelude.{Option, none, some}
use omnibase.Types.{Error}
use omnibase.Exec.{Result, ok, err, Exec}

-- A run that may be out of fuel.
abbrev pub Fueled : Type 0 → Type 0 → Type 0
Fueled S A = S → Option (Result A × S)

module _ {S : Type 0} where
  abbrev pub resume :
      {A B : Type 0} → (A → Fueled S B) → Option (Result A × S) → Option (Result B × S)
  resume f none = none
  resume f (some (ok a, s)) = f a s
  resume f (some (err e, s)) = some (err e, s)

  infixl 10 ◌>>=◌
  abbrev pub ◌>>=◌ : {A B : Type 0} → Fueled S A → (A → Fueled S B) → Fueled S B
  ◌>>=◌ m f s = resume f (m s)

  -- An action that needs no fuel.
  abbrev pub run : {A : Type 0} → Exec S A → Fueled S A
  run m s = some (m s)

  abbrev pub handle :
      {A : Type 0} → (Error → Exec S A) → Option (Result A × S) → Option (Result A × S)
  handle handler none = none
  handle handler (some (ok a, s)) = some (ok a, s)
  handle handler (some (err e, s)) = some (handler e s)

  -- `try { m } catch (err) { handler(err) }`
  abbrev pub catch : {A : Type 0} → Fueled S A → (Error → Exec S A) → Fueled S A
  catch m handler s = handle handler (m s)
