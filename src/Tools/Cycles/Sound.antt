-- ===== src/Tools/Cycles/Sound.antt =====
-- A search that ends without an exception has visited only tools with no circular reference.
use mathlib.Core.WellFounded.{Acc}
use omnibase.Prelude.{
  ℕ, zero, suc, ◌≡◌, refl, ◌∙◌, inl, inr, true, false, none, List, [], ◌∷◌, ◌++◌, arith, Bool-cases,
}
use omnibase.Text.{Text, text_eq}
use omnibase.Text.Laws.{text_eq_iff}
use omnibase.Collections.{Map, lookup, has, keys}
use omnibase.Collections.Laws.{has-add, has-remove}
use omnibase.Tools.Cycles.{
  neighbors_of, Search, Outcome, done, cycle, out_of_fuel, and_then, visit_all, enter, leave, dfs,
  visit_root, search_cycles, cycle_from,
}

-- `m` is referred to by `n`.
abbrev pub Below : Map (List Text) → Text → Text → Type 0
Below edges m n = has m (neighbors_of edges n) ≡ true

-- Every chain of references from `n` ends.
abbrev pub IsGrounded : Map (List Text) → Text → Type 0
IsGrounded edges n = Acc (Below edges) n

and_then-done :
    (f : Search → Outcome) (o : Outcome) (st' : Search)
    → and_then f o ≡ done st'
    → (st : Search) × (o ≡ done st) × (f st ≡ done st')
and_then-done f (done st) st' h = (st, refl, h)
and_then-done f (cycle c) st' h = cc
and_then-done f out_of_fuel st' h = cc

module _ (edges : Map (List Text)) where
  -- The tools that the search has left are grounded.
  pub record IsSettled (st : Search) : Type 0 where
    pub at : (n : Text) → has n st.visited ≡ true → has n st.in_stack ≡ false → IsGrounded edges n

  pub record Visits (node : Text) (st st' : Search) : Type 0 where
    pub grounded : IsGrounded edges node
    pub settled : IsSettled st'
    pub stack : (k : Text) → has k st'.in_stack ≡ has k st.in_stack

  abbrev IsSound : (Text → Search → Outcome) → Type 0
  IsSound visit =
      (node : Text) (st st' : Search) → IsSettled st → visit node st ≡ done st' → Visits node st st'

  pub record VisitsAll (ns : List Text) (st st' : Search) : Type 0 where
    pub grounded : (m : Text) → has m ns ≡ true → IsGrounded edges m
    pub settled : IsSettled st'
    pub stack : (k : Text) → has k st'.in_stack ≡ has k st.in_stack

  visit_all-VisitsAll :
      (visit : Text → Search → Outcome)
      → IsSound visit
      → (ns : List Text) (st st' : Search) → IsSettled st
      → visit_all visit ns st ≡ done st'
      → VisitsAll ns st st'
  unfolding visit_all
  visit_all-VisitsAll visit sound [] st st' h e =
      let same : st ≡ st' = ground arith in
      record {
        grounded = λ m hm. let bad : false ≡ true = (unfold has in hm) in cc;
        settled = rw (← same) h;
        stack = λ k. rw (← same) refl;
      }
  visit_all-VisitsAll visit sound (n ∷ ns) st st' h e =
      let (mid, first, rest) = and_then-done (visit_all visit ns) (visit n st) st' e in
      let one = sound n st mid h first in
      let others = visit_all-VisitsAll visit sound ns mid st' one.settled rest in
      record {
        grounded = λ m hm. elim (Bool-cases (text_eq n m)) [
          | inl same ↦ rw (← (text_eq_iff n m).0 same) one.grounded
          | inr other ↦ others.grounded m (unfold has in rw other at hm)
        ];
        settled = others.settled;
        stack = λ k. others.stack k ∙ one.stack k;
      }

  enter-IsSettled : (node : Text) (st : Search) → IsSettled st → IsSettled (enter node st)
  enter-IsSettled node st h = record {
    at = λ n seen out.
        h.at n (ground (arith, has-add node n st.visited, has-add node n st.in_stack))
          (ground (arith, has-add node n st.in_stack));
  }

  leave-IsSettled :
      (node : Text) (st : Search) → IsGrounded edges node → IsSettled st → IsSettled (leave node st)
  leave-IsSettled node st g h = record {
    at = λ n seen out. elim (Bool-cases (text_eq node n)) [
      | inl same ↦ rw (← (text_eq_iff node n).0 same) g
      | inr other ↦ h.at n seen (ground (arith, has-remove node n st.in_stack))
    ];
  }

  leave_stack :
      (node k : Text) (mid st : Search)
      → has node st.in_stack ≡ false
      → has k mid.in_stack ≡ has k (enter node st).in_stack
      → has k (leave node mid).in_stack ≡ has k st.in_stack
  leave_stack node k mid st new same =
      ground (arith, has-remove node k mid.in_stack, has-add node k st.in_stack, text_eq_iff node k)

  dfs-IsSound : (fuel : ℕ) (path : List Text) → IsSound (dfs edges fuel path)
  unfolding dfs
  dfs-IsSound zero path node st st' h e = cc
  dfs-IsSound (suc fuel) path node st st' h e = elim (Bool-cases (has node st.in_stack)) [
    | inl again ↦ let bad : cycle (cycle_from node path) ≡ done st' = rw again at e in cc
    | inr new ↦ elim (Bool-cases (has node st.visited)) [
      | inl seen ↦
          let same : done st ≡ done st' = rw (new, seen) at e in
          let same' : st ≡ st' = cc in
          record {
            grounded = h.at node seen new;
            settled = rw (← same') h;
            stack = λ k. rw (← same') refl;
          }
      | inr fresh ↦
          let (mid, deeper, left) =
            and_then-done (λ s. done (leave node s)) _ st' (rw (new, fresh) at e) in
          let all =
            visit_all-VisitsAll (dfs edges fuel (path ++ node ∷ []))
              (dfs-IsSound fuel (path ++ node ∷ [])) (neighbors_of edges node) (enter node st) mid
              (enter-IsSettled node st h) deeper in
          let g : IsGrounded edges node = Acc.intro node all.grounded in
          let same : leave node mid ≡ st' = cc in
          record {
            grounded = g;
            settled = rw (← same) (leave-IsSettled node mid g all.settled);
            stack = λ k. rw (← same) (leave_stack node k mid st new (all.stack k));
          }
    ]
  ]

  visit_root-Visits :
      (fuel : ℕ) (node : Text) (st st' : Search)
      → IsSettled st
      → ((k : Text) → has k st.in_stack ≡ false)
      → visit_root edges fuel node st ≡ done st'
      → Visits node st st'
  visit_root-Visits fuel node st st' h empty e = elim (Bool-cases (has node st.visited)) [
    | inr fresh ↦ dfs-IsSound fuel [] node st st' h (rw fresh at e)
    | inl seen ↦
        let same : done st ≡ done st' = rw seen at e in
        let same' : st ≡ st' = cc in
        record {
          grounded = h.at node seen (empty node);
          settled = rw (← same') h;
          stack = λ k. rw (← same') refl;
        }
  ]

  roots_sound :
      (fuel : ℕ) (ns : List Text) (st st' : Search)
      → IsSettled st
      → ((k : Text) → has k st.in_stack ≡ false)
      → visit_all (visit_root edges fuel) ns st ≡ done st'
      → (m : Text) → has m ns ≡ true
      → IsGrounded edges m
  unfolding visit_all
  roots_sound fuel [] st st' h empty e m hm = let bad : false ≡ true = (unfold has in hm) in cc
  roots_sound fuel (n ∷ ns) st st' h empty e m hm =
      let (mid, first, rest) = and_then-done (visit_all (visit_root edges fuel) ns) _ st' e in
      let one = visit_root-Visits fuel n st mid h empty first in
      elim (Bool-cases (text_eq n m)) [
        | inl same ↦ rw (← (text_eq_iff n m).0 same) one.grounded
        | inr other ↦
            roots_sound fuel ns mid st' one.settled (λ k. one.stack k ∙ empty k) rest m
              (unfold has in rw other at hm)
      ]

lookup-keys : {V : Type 0} (n : Text) (m : Map V) → has n (keys m) ≡ false → lookup n m ≡ none
unfolding lookup has
lookup-keys n [] h = refl
lookup-keys n ((k, v) ∷ m) h = ground (arith, lookup-keys n m)

pub no_neighbors :
    (edges : Map (List Text)) (n : Text) → has n (keys edges) ≡ false → neighbors_of edges n ≡ []
no_neighbors edges n absent = rw (lookup-keys n edges absent) refl

-- If the search ends without an exception, at whatever fuel, no chain of references goes on for ever:
-- the references are well-founded, so that there is no cycle among them.
pub search_cycles_sound :
    (edges : Map (List Text)) (fuel : ℕ) (st : Search)
    → search_cycles edges fuel ≡ done st
    → (n : Text) → IsGrounded edges n
unfolding search_cycles
search_cycles_sound edges fuel st e n = elim (Bool-cases (has n (keys edges))) [
  | inl listed ↦
      roots_sound edges fuel (keys edges) (record { visited = []; in_stack = [] }) st
        (record { at = λ m seen _. let bad : false ≡ true = (unfold has in seen) in cc })
        (λ k. unfold has in refl) e n listed
  | inr absent ↦ Acc.intro n (λ m below.
      let none_below : false ≡ true = (unfold has in rw (no_neighbors edges n absent) at below) in
      cc)
]
