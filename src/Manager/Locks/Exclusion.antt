-- ===== src/Manager/Locks/Exclusion.antt =====
-- At most one task holds the lock of a connection, and no wake-up is lost.
use Prim.Native.Nat.{◌<◌, ◌≤◌}
use omnibase.Prelude.{
  ℕ, ◌≡◌, refl, ◌⊎◌, inl, inr, true, false, Option, none, some, arith, Bool-cases,
}
use omnibase.Text.{Text, text_eq}
use omnibase.Text.Laws.{text_eq_iff, text_eq_refl}
use omnibase.Collections.{lookup}
use omnibase.Collections.Laws.{lookup-insert, lookup-delete}
use omnibase.Manager.Locks.{
  waiting, holding, Locks, look, attempt, release, Step, asks, wakes, releases, Reach, unlocked,
  later,
}

pub record IsExclusive (s : Locks) : Type 0 where
  pub listed :
      (i : ℕ) (name : Text) (p : ℕ)
      → s.task i ≡ holding name p
      → lookup name s.transaction_locks ≡ some p
  pub owned :
      (name : Text) (p : ℕ)
      → lookup name s.transaction_locks ≡ some p
      → (i : ℕ) × (s.task i ≡ holding name p)
  pub sole :
      (i j : ℕ) (name other : Text) (p : ℕ)
      → s.task i ≡ holding name p
      → s.task j ≡ holding other p
      → i ≡ j
  pub old : (name : Text) (p : ℕ) → lookup name s.transaction_locks ≡ some p → p < s.created
  pub pending :
      (name : Text) (p : ℕ) → lookup name s.transaction_locks ≡ some p → s.fulfilled p ≡ false
  pub awaited :
      (i : ℕ) (name : Text) (p : ℕ)
      → s.task i ≡ waiting name p
      → (s.fulfilled p ≡ true) ⊎ (lookup name s.transaction_locks ≡ some p)
  pub unborn : (p : ℕ) → s.created ≤ p → s.fulfilled p ≡ false

module _ (s : Locks) (inv : IsExclusive s) (i : ℕ)
    (free : (name : Text) (p : ℕ) → s.task i ≡ holding name p → ⊥) where
  open inv use {listed, owned, sole, old, pending, awaited, unborn}

  wait-IsExclusive :
      (name : Text) (p : ℕ)
      → lookup name s.transaction_locks ≡ some p
      → IsExclusive (look i name (some p) s)
  wait-IsExclusive name p found = record {
    listed = λ j n q h. ground (arith, listed j n q);
    owned = λ n q h. let (j, e) = owned n q h in (j, ground (arith, free n q));
    sole = λ j k n m q hj hk. ground (arith, sole j k n m q);
    old = old;
    pending = pending;
    awaited = λ j n q h. ground (arith, awaited j n q);
    unborn = unborn;
  }

  take-IsExclusive :
      (name : Text) → lookup name s.transaction_locks ≡ none → IsExclusive (look i name none s)
  take-IsExclusive name empty = record {
    listed = λ j n q h. ground (
      arith,
      listed j n q,
      lookup-insert name n s.created s.transaction_locks,
      text_eq_iff name n,
    );
    owned = λ n q h.
        let taken = lookup-insert name n s.created s.transaction_locks in
        elim (Bool-cases (text_eq name n)) [
          | inl same ↦ (i, ground (arith, text_eq_iff name n))
          | inr other ↦ let (j, e) = owned n q (ground arith) in (j, ground (arith, free n q))
        ];
    sole = λ j k n m q hj hk.
        ground (arith, sole j k n m q, listed j n q, listed k m q, old n q, old m q);
    old = λ n q h. ground (arith, old n q, lookup-insert name n s.created s.transaction_locks);
    pending = λ n q h.
        ground (
          arith,
          pending n q,
          unborn s.created,
          lookup-insert name n s.created s.transaction_locks,
        );
    awaited = λ j n q h. ground (
      arith,
      awaited j n q,
      lookup-insert name n s.created s.transaction_locks,
      text_eq_iff name n,
    );
    unborn = λ q h. unborn q (omega arith);
  }

module _ (s : Locks) (inv : IsExclusive s) (i : ℕ) (name : Text) (p : ℕ)
    (mine : s.task i ≡ holding name p) where
  open inv use {listed, owned, sole, old, pending, awaited, unborn}

  release-IsExclusive : IsExclusive (release i name p s)
  unfolding release
  release-IsExclusive = record {
    listed = λ j n q h. ground (
      arith,
      listed j n q,
      listed i name p,
      sole i j name n q,
      lookup-delete name n s.transaction_locks,
      text_eq_iff name n,
    );
    owned = λ n q h.
        let kept = lookup-delete name n s.transaction_locks in
        let (j, e) = owned n q (ground arith) in (j, ground (arith, text_eq_refl name));
    sole = λ j k n m q hj hk. ground (arith, sole j k n m q);
    old = λ n q h. ground (arith, old n q, lookup-delete name n s.transaction_locks);
    pending = λ n q h.
        let kept = lookup-delete name n s.transaction_locks in
        let (j, e) = owned n q (ground arith) in
        ground (arith, pending n q, sole j i n name p, text_eq_refl name);
    awaited = λ j n q h. ground (
      arith,
      awaited j n q,
      listed i name p,
      lookup-delete name n s.transaction_locks,
      text_eq_iff name n,
    );
    unborn = λ q h. ground (arith, unborn q, listed i name p, old name p);
  }

look-IsExclusive :
    (s : Locks) (i : ℕ) (name : Text) (found : Option ℕ)
    → lookup name s.transaction_locks ≡ found
    → ((n : Text) (p : ℕ) → s.task i ≡ holding n p → ⊥)
    → IsExclusive s
    → IsExclusive (look i name found s)
look-IsExclusive s i name (some p) e free inv = wait-IsExclusive s inv i free name p e
look-IsExclusive s i name none e free inv = take-IsExclusive s inv i free name e

Step-IsExclusive : (s t : Locks) → Step s t → IsExclusive s → IsExclusive t
unfolding attempt
Step-IsExclusive s t (asks i name at_rest) inv =
    look-IsExclusive s i name (lookup name s.transaction_locks) refl (λ n p held. ground arith) inv
Step-IsExclusive s t (wakes i name p waits gone) inv =
    look-IsExclusive s i name (lookup name s.transaction_locks) refl (λ n q held. ground arith) inv
Step-IsExclusive s t (releases i name p mine) inv = release-IsExclusive s inv i name p mine

Reach-IsExclusive : (s : Locks) → Reach s → IsExclusive s
Reach-IsExclusive s unlocked = record {
  listed = λ i name p h. ground arith;
  owned = λ name p h. let bad : none ≡ some p = (unfold lookup in h) in absurd (ground arith);
  sole = λ i j name other p h k. ground arith;
  old = λ name p h. let bad : none ≡ some p = (unfold lookup in h) in ground arith;
  pending = λ name p h. refl;
  awaited = λ i name p h. ground arith;
  unborn = λ p h. refl;
}
Reach-IsExclusive s (later {s = before} steps step) =
    Step-IsExclusive before s step (Reach-IsExclusive before steps)

-- However the tasks ask, wait, wake and release: two tasks that hold the transaction lock of one
-- connection are one task.
pub transaction_locks-exclude :
    (s : Locks) (i j : ℕ) (name : Text) (p q : ℕ)
    → Reach s
    → s.task i ≡ holding name p
    → s.task j ≡ holding name q
    → i ≡ j
transaction_locks-exclude s i j name p q steps hi hj =
    let inv = Reach-IsExclusive s steps in
    ground (arith, inv.listed i name p, inv.listed j name q, inv.sole i j name name p)

-- A task that waits for the transaction lock of a connection either may wake, since the lock that it
-- found was released, or some task holds that very lock: no wake-up is lost.
pub transaction_locks-wake :
    (s : Locks) (i : ℕ) (name : Text) (p : ℕ)
    → Reach s
    → s.task i ≡ waiting name p
    → (s.fulfilled p ≡ true) ⊎ ((j : ℕ) × (s.task j ≡ holding name p))
transaction_locks-wake s i name p steps h =
    let inv = Reach-IsExclusive s steps in
    elim (inv.awaited i name p h) [ inl gone ↦ inl gone | inr there ↦ inr (inv.owned name p there) ]
