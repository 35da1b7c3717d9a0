-- ===== src/Manager/Locks.antt =====
-- `acquireTransactionLock` under interleaving. A task that finds the lock taken waits for the promise
-- that it found and then looks again; the promise of a lock is fulfilled by its release. Promises are
-- numbered in the order of their creation, and a task calls its release function once.
pub mod Exclusion
use omnibase.Prelude.{ℕ, suc, ◌≡◌, Bool, true, false, Option, none, some, [], ◌==◌, if◌then◌else◌}
use omnibase.Text.{Text}
use omnibase.Collections.{Map, lookup, insert, delete}

-- Where a task stands: with the promise that it waits for, or with that of the lock it holds.
pub data Task : Type 0 where
  idle : Task
  waiting holding : Text → ℕ → Task
  released : Task

pub record Locks : Type 0 where
  pub transaction_locks : Map ℕ
  pub created : ℕ
  pub fulfilled : ℕ → Bool
  pub task : ℕ → Task

abbrev pub update {ℓ} : {A : Type ℓ} → (ℕ → A) → ℕ → A → ℕ → A
update f i a j = if i == j then a else f j

-- One look at the table of locks: wait for the lock that is there, or take it.
abbrev pub look : ℕ → Text → Option ℕ → Locks → Locks
look i name (some p) s = record s { task = update s.task i (waiting name p) }
look i name none s = record s {
  transaction_locks = insert name s.created s.transaction_locks;
  created = suc s.created;
  task = update s.task i (holding name s.created);
}

unfoldable pub attempt : ℕ → Text → Locks → Locks
attempt i name s = look i name (lookup name s.transaction_locks) s

-- The function that `acquireTransactionLock` returns.
unfoldable pub release : ℕ → Text → ℕ → Locks → Locks
release i name p s = record s {
  transaction_locks = delete name s.transaction_locks;
  fulfilled = update s.fulfilled p true;
  task = update s.task i released;
}

abbrev pub no_locks : Locks
no_locks = record { transaction_locks = []; created = 0; fulfilled = λ p. false; task = λ i. idle }

pub data Step (s : Locks) : Locks → Type 0 where
  asks : (i : ℕ) (name : Text) → s.task i ≡ idle → Step s (attempt i name s)
  wakes :
      (i : ℕ) (name : Text) (p : ℕ)
      → s.task i ≡ waiting name p
      → s.fulfilled p ≡ true
      → Step s (attempt i name s)
  releases : (i : ℕ) (name : Text) (p : ℕ) → s.task i ≡ holding name p → Step s (release i name p s)

pub data Reach : Locks → Type 0 where
  unlocked : Reach no_locks
  later : {s t : Locks} → Reach s → Step s t → Reach t
