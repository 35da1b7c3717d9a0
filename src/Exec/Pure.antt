-- ===== src/Exec/Pure.antt =====
-- Synchronous code that throws and changes nothing.
pub mod Laws
use omnibase.Prelude.{Bool, true, false}
use omnibase.Types.{Error}
use omnibase.Exec.{Result, ok, err}

-- `if (b) throw e`
abbrev pub reject_if : Bool → Error → Result (Unit {0})
reject_if false e = ok tt
reject_if true e = err e

infixl 10 ◌>>=◌ ◌>>◌
abbrev pub ◌>>=◌ {κ ℓ} : {B : Type κ} {A : Type ℓ} → Result A → (A → Result B) → Result B
err e >>= next = err e
ok a >>= next = next a

abbrev pub ◌>>◌ {κ} : {B : Type κ} → Result (Unit {0}) → Result B → Result B
first >> second = first >>= λ _. second
