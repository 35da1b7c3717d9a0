-- ===== src/Tools/Cycles/Depth.antt =====
-- Among grounded tools a chain of references is no longer than the tools that refer to others, so
-- that a recursion along references ends within `enough` rounds.
use Prim.Native.Nat.{◌<◌}
use mathlib.Core.WellFounded.{Acc}
use omnibase.Prelude.{ℕ, zero, suc, ◌≡◌, inl, inr, true, false, List, [], arith, Bool-cases}
use omnibase.Text.{Text, text_eq}
use omnibase.Text.Laws.{text_eq_iff}
use omnibase.Collections.{Map, has, add, keys}
use omnibase.Collections.Laws.{has-add}
use omnibase.Tools.Cycles.{enough}
use omnibase.Tools.Cycles.Sound.{Below, IsGrounded, no_neighbors}
use omnibase.Tools.Cycles.Enough.{unseen, unseen-le-length, unseen-add, length-keys}

-- `m` is referred to by `n`, directly or by way of others.
data Under (edges : Map (List Text)) (m : Text) : Text → Type 0 where
  one : {n : Text} → Below edges m n → Under edges m n
  more : {k n : Text} → Under edges m k → Below edges k n → Under edges m n

module _ (edges : Map (List Text)) where
  Under-first : {k m n : Text} → Below edges k m → Under edges m n → Under edges k n
  Under-first b (one c) = more (one b) c
  Under-first b (more u c) = more (Under-first b u) c

  -- A grounded tool is not under itself.
  no_loop : (n : Text) → IsGrounded edges n → Under edges n n → ⊥
  no_loop n (Acc.intro _ smaller) (one b) = no_loop n (smaller n b) (one b)
  no_loop n (Acc.intro _ smaller) (more {k} u b) = no_loop k (smaller k b) (Under-first b u)

  refers_listed : (m n : Text) → Below edges m n → has n (keys edges) ≡ true
  refers_listed m n b = elim (Bool-cases (has n (keys edges))) [
    | inl listed ↦ listed
    | inr absent ↦
        let none_below : false ≡ true = (unfold has in rw (no_neighbors edges n absent) at b) in cc
  ]

  module _ (grounded : (n : Text) → IsGrounded edges n) (P : ℕ → Text → Type 0)
      (step : (f : ℕ) (n : Text) → ((m : Text) → Below edges m n → P f m) → P (suc f) n) where
    new_below :
        (seen : List Text) (n : Text)
        → ((a : Text) → has a seen ≡ true → Under edges n a)
        → has n seen ≡ false
    new_below seen n chain = elim (Bool-cases (has n seen)) [
      | inl listed ↦ absurd (no_loop n (grounded n) (chain n listed))
      | inr new ↦ new
    ]

    -- `seen` holds the tools from the root down to the one that refers to this one.
    descend :
        (f : ℕ) (seen : List Text) (n : Text)
        → ((a : Text) → has a seen ≡ true → Under edges n a)
        → unseen (keys edges) seen < f
        → P f n
    descend zero seen n chain h = absurd (omega arith)
    descend (suc f) seen n chain h = step f n (λ m b.
        descend f (add n seen) m
          (λ a listed. elim (Bool-cases (text_eq n a)) [
            | inl same ↦ one (rw (← (text_eq_iff n a).0 same) b)
            | inr other ↦ Under-first b (chain a (rw (has-add n a seen, other) at listed))
          ])
          (omega
            (arith, unseen-add (keys edges) seen n (refers_listed m n b) (new_below seen n chain))))

    -- A property that passes from the tools referred to, at one round less, to a tool that refers to
    -- them holds of every tool at `enough` rounds.
    pub within_enough : (n : Text) → P (enough edges) n
    within_enough n =
        descend (enough edges) [] n
          (λ a listed. let bad : false ≡ true = (unfold has in listed) in cc)
          (omega (arith, unseen-le-length (keys edges) [], length-keys edges edges))
