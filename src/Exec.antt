-- ===== src/Exec.antt =====
-- Asynchronous methods that mutate state and may throw: a run to its end returns a result and the
-- state. What was written before an exception stays written.
pub mod Keeps
pub mod Laws
pub mod Pure
pub mod Fueled
pub mod Finishes
pub mod Yields
use omnibase.Prelude.{◌≡◌, refl, Bool, true, false, Option, none, some}
use omnibase.Types.{Error}

pub data Result {ℓ} (A : Type ℓ) : Type ℓ where
  ok : A → Result A
  err : Error → Result A

abbrev pub Exec : Type 0 → Type 0 → Type 0
Exec S A = S → Result A × S

module _ {S : Type 0} where
  abbrev pub pure : {A : Type 0} → A → Exec S A
  pure a s = (ok a, s)

  abbrev pub throw : {A : Type 0} → Error → Exec S A
  throw e s = (err e, s)

  abbrev pub lift : {A : Type 0} → Result A → Exec S A
  lift r s = (r, s)

  abbrev pub modify : (S → S) → Exec S (Unit {0})
  modify f s = (ok tt, f s)

  abbrev pub gets : {A : Type 0} → (S → A) → Exec S A
  gets f s = (ok (f s), s)

  abbrev pub when : Bool → Exec S (Unit {0}) → Exec S (Unit {0})
  when true m = m
  when false m = pure tt

  abbrev pub continue : {A B : Type 0} → (A → Exec S B) → Result A → Exec S B
  continue f (ok a) s = f a s
  continue f (err e) s = (err e, s)

  infixl 10 ◌>>=◌ ◌>>◌
  abbrev pub ◌>>=◌ : {A B : Type 0} → Exec S A → (A → Exec S B) → Exec S B
  ◌>>=◌ m f s = let (r, s') = m s in continue f r s'

  abbrev pub ◌>>◌ : {B : Type 0} → Exec S (Unit {0}) → Exec S B → Exec S B
  m >> k = m >>= λ _. k

  abbrev pub recover : {A : Type 0} → (Error → Exec S A) → Result A → Exec S A
  recover handler (ok a) s = (ok a, s)
  recover handler (err e) s = handler e s

  -- `try { m } catch (err) { handler(err) }`
  abbrev pub catch : {A : Type 0} → Exec S A → (Error → Exec S A) → Exec S A
  catch m handler s = let (r, s') = m s in recover handler r s'
