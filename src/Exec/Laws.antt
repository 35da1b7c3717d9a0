-- ===== src/Exec/Laws.antt =====
-- Taking a run that succeeded, or that threw, apart.
use omnibase.Prelude.{◌≡◌, refl, ◌⊎◌, inl, inr}
use omnibase.Types.{Error}
use omnibase.Exec.{Result, ok, err, Exec, catch, recover, continue, ◌>>=◌}

module _ {S A B : Type 0} where
  -- A block that returned behind a step without effects.
  pub continue-eq-ok :
      (f : A → Exec S B) (r : Result A) (s s' : S) (b : B)
      → continue f r s ≡ (ok b, s')
      → (a : A) × (r ≡ ok a) × (f a s ≡ (ok b, s'))
  continue-eq-ok f (ok a) s s' b h = (a, refl, h)
  continue-eq-ok f (err e) s s' b h = cc

  -- A block that returned: its first step did, and so did the rest.
  pub >>=-eq-ok :
      (m : Exec S A) (f : A → Exec S B) (s s' : S) (b : B)
      → (m >>= f) s ≡ (ok b, s')
      → (a : A) × (t : S) × (m s ≡ (ok a, t)) × (f a t ≡ (ok b, s'))
  >>=-eq-ok m f s s' b h =
      let (r, t) = m s in
      let (a, returned, rest) = continue-eq-ok f r t s' b h in (a, t, (λ i. (returned i, t)), rest)

  continue-eq-err :
      (f : A → Exec S B) (r : Result A) (s s' : S) (e : Error)
      → continue f r s ≡ (err e, s')
      → ((r ≡ err e) × (s ≡ s')) ⊎ ((a : A) × (r ≡ ok a) × (f a s ≡ (err e, s')))
  continue-eq-err f (ok a) s s' e h = inr (a, refl, h)
  continue-eq-err f (err e') s s' e h = inl (cc, cc)

  -- A block that threw: at its first step, or behind it.
  pub >>=-eq-err :
      (m : Exec S A) (f : A → Exec S B) (s s' : S) (e : Error)
      → (m >>= f) s ≡ (err e, s')
      → (m s ≡ (err e, s')) ⊎ ((a : A) × (t : S) × (m s ≡ (ok a, t)) × (f a t ≡ (err e, s')))
  >>=-eq-err m f s s' e h = let (r, t) = m s in split r t (continue-eq-err f r t s' e h)
    where
      split :
          (r : Result A) (t : S)
          → (((r ≡ err e) × (t ≡ s')) ⊎ ((a : A) × (r ≡ ok a) × (f a t ≡ (err e, s'))))
          → (◌≡◌ {A = Result A × S} (r, t) (err e, s'))
            ⊎ ((a : A) × (u : S) × (◌≡◌ {A = Result A × S} (r, t) (ok a, u))
                × (f a u ≡ (err e, s')))
      split r t (inl (p, q)) = inl (λ i. (p i, q i))
      split r t (inr (a, p, rest)) = inr (a, t, (λ i. (p i, t)), rest)

pub Result-cases {ℓ} :
    {A : Type ℓ} (r : Result A) → ((a : A) × (r ≡ ok a)) ⊎ ((e : Error) × (r ≡ err e))
Result-cases (ok a) = inl (a, refl)
Result-cases (err e) = inr (e, refl)

module _ {S A : Type 0} where
  recover-eq-ok :
      (handler : Error → Exec S A) (r : Result A) (t s' : S) (a : A)
      → recover handler r t ≡ (ok a, s')
      → (◌≡◌ {A = Result A × S} (r, t) (ok a, s'))
        ⊎ ((e : Error) × (r ≡ err e) × (handler e t ≡ (ok a, s')))
  recover-eq-ok handler (ok b) t s' a h = inl h
  recover-eq-ok handler (err e) t s' a h = inr (e, refl, h)

  -- A `try` that returned: its body did, or the handler did behind an error.
  pub catch-eq-ok :
      (m : Exec S A) (handler : Error → Exec S A) (s s' : S) (a : A)
      → catch m handler s ≡ (ok a, s')
      → (m s ≡ (ok a, s')) ⊎ ((e : Error) × ((m s).0 ≡ err e) × (handler e (m s).1 ≡ (ok a, s')))
  catch-eq-ok m handler s s' a h = let (r, t) = m s in recover-eq-ok handler r t s' a h

pub ok-injective : {A : Type 0} {a b : A} → ok a ≡ ok b → a ≡ b
ok-injective h = cc
