-- ===== src/Exec/Pure/Laws.antt =====
-- Taking a synchronous block that succeeded apart.
use omnibase.Prelude.{◌≡◌, refl}
use omnibase.Exec.{Result, ok, err}
use omnibase.Exec.Pure.{◌>>=◌, ◌>>◌}

pub >>=-eq-ok {ℓ κ} :
    {A : Type ℓ} {B : Type κ} (m : Result A) (f : A → Result B) (b : B)
    → (m >>= f) ≡ ok b
    → (a : A) × (m ≡ ok a) × (f a ≡ ok b)
>>=-eq-ok (ok a) f b h = (a, refl, h)
>>=-eq-ok (err e) f b h = cc

pub >>-eq-ok : (m k : Result (Unit {0})) → (m >> k) ≡ ok tt → (m ≡ ok tt) × (k ≡ ok tt)
>>-eq-ok (ok tt) k h = (refl, h)
>>-eq-ok (err e) k h = cc
