-- ===== src/Exec/Finishes.antt =====
-- Actions on fuel that have an outcome in the states of a predicate, and keep the predicate where they
-- return.
use omnibase.Prelude.{◌≡◌, refl, ap, ◌∙◌, some}
use omnibase.Types.{Error}
use omnibase.Exec.{Result, ok, err, Exec}
use omnibase.Exec.Keeps.{Keeps}
use omnibase.Exec.Fueled.{Fueled, resume, handle, run, catch, ◌>>=◌}

-- What is known of the state behind a result: an exception leaves nothing known.
abbrev pub After : {S A : Type 0} → (S → Type 0) → Result A → S → Type 0
After P (ok a) s = P s
After P (err e) s = Unit

-- From a state of the predicate the action has an outcome, and it keeps the predicate if it returns.
abbrev pub Finishes : {S A : Type 0} → (S → Type 0) → Fueled S A → Type 0
Finishes {S} {A} P m = (s : S) → P s → (r : Result A × S) × (m s ≡ some r) × After P r.0 r.1

-- From a state of the predicate the action has an outcome.
abbrev pub Ends : {S A : Type 0} → (S → Type 0) → Fueled S A → Type 0
Ends {S} {A} P m = (s : S) → P s → (r : Result A × S) × (m s ≡ some r)

module _ {S A B : Type 0} (P : S → Type 0) where
  resume-Finishes :
      (f : A → Fueled S B) (r : Result A) (s : S)
      → After P r s
      → ((a : A) → Finishes P (f a))
      → (q : Result B × S) × (resume f (some (r, s)) ≡ some q) × After P q.0 q.1
  resume-Finishes f (ok a) s p h = h a s p
  resume-Finishes f (err e) s p h = ((err e, s), refl, tt)

  pub Finishes-bind :
      (m : Fueled S A) (f : A → Fueled S B)
      → Finishes P m
      → ((a : A) → Finishes P (f a))
      → Finishes P (m >>= f)
  Finishes-bind m f hm hf s p =
      let (r, e, kept) = hm s p in
      let (q, e', kept') = resume-Finishes f r.0 r.1 kept hf in (q, ap (resume f) e ∙ e', kept')

  resume-Ends :
      (f : A → Fueled S B) (r : Result A) (s : S)
      → After P r s
      → ((a : A) → Ends P (f a))
      → (q : Result B × S) × (resume f (some (r, s)) ≡ some q)
  resume-Ends f (ok a) s p h = h a s p
  resume-Ends f (err e) s p h = ((err e, s), refl)

  pub Ends-bind :
      (m : Fueled S A) (f : A → Fueled S B)
      → Finishes P m
      → ((a : A) → Ends P (f a))
      → Ends P (m >>= f)
  Ends-bind m f hm hf s p =
      let (r, e, kept) = hm s p in
      let (q, e') = resume-Ends f r.0 r.1 kept hf in (q, ap (resume f) e ∙ e')

module _ {S A : Type 0} (P : S → Type 0) where
  pub After-kept : (r : Result A) (s : S) → P s → After P r s
  After-kept (ok a) s p = p
  After-kept (err e) s p = tt

  pub Finishes-run : (m : Exec S A) → Keeps P m → Finishes P (run m)
  Finishes-run m k s p = (m s, refl, After-kept (m s).0 (m s).1 (k.at s p))

  handle_ends :
      (handler : Error → Exec S A) (r : Result A) (s : S)
      → (q : Result A × S) × (handle handler (some (r, s)) ≡ some q)
  handle_ends handler (ok a) s = ((ok a, s), refl)
  handle_ends handler (err e) s = (handler e s, refl)

  pub Ends-catch :
      (m : Fueled S A) (handler : Error → Exec S A) → Ends P m → Ends P (catch m handler)
  Ends-catch m handler hm s p =
      let (r, e) = hm s p in
      let (q, e') = handle_ends handler r.0 r.1 in (q, ap (handle handler) e ∙ e')
