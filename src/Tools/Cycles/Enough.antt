-- ===== src/Tools/Cycles/Enough.antt =====
-- Enough fuel: one more than the number of tools that refer to others.
use Prim.Native.Nat.{◌≤◌, ◌<◌}
use omnibase.Prelude.{
  ℕ, zero, suc, ◌+◌, ◌≡◌, refl, ap, ◌⊎◌, inl, inr, true, false, List, [], ◌∷◌, ◌++◌, arith,
  Bool-cases, length, if◌then◌else◌,
}
use omnibase.Text.{Text, text_eq}
use omnibase.Text.Laws.{text_eq_iff, text_eq_refl}
use omnibase.Collections.{Map, has, add, keys}
use omnibase.Collections.Laws.{has-add}
use omnibase.Types.{CustomToolConfig}
use omnibase.Tools.Cycles.{
  neighbors_of, Search, Outcome, done, cycle, out_of_fuel, and_then, visit_all, enter, leave, dfs,
  visit_root, search_cycles, enough, edges_of, detect_compose_circular_deps,
}
use omnibase.Tools.Cycles.Sound.{no_neighbors, IsGrounded, search_cycles_sound}

-- How many of the listed nodes have not been visited.
pub unseen : List Text → List Text → ℕ
unseen [] seen = 0
unseen (k ∷ ks) seen = (if has k seen then 0 else 1) + unseen ks seen

pub unseen-le-length : (ks seen : List Text) → unseen ks seen ≤ length ks
unfolding unseen
unseen-le-length [] seen = omega arith
unseen-le-length (k ∷ ks) seen = ground (arith, unseen-le-length ks seen)

-- Visited nodes stay visited.
Grows : List Text → List Text → Type 0
Grows a b = (k : Text) → has k a ≡ true → has k b ≡ true

unseen-Grows : (ks a b : List Text) → Grows a b → unseen ks b ≤ unseen ks a
unfolding unseen Grows
unseen-Grows [] a b g = omega arith
unseen-Grows (k ∷ ks) a b g = ground (arith, unseen-Grows ks a b g, g k)

add-Grows : (node : Text) (seen : List Text) → Grows seen (add node seen)
unfolding Grows
add-Grows node seen k h = rw has-add (ground arith)

pub unseen-add :
    (ks seen : List Text) (node : Text)
    → has node ks ≡ true
    → has node seen ≡ false
    → unseen ks (add node seen) < unseen ks seen
unfolding unseen
unseen-add [] seen node h fresh = let bad : false ≡ true = (unfold has in h) in cc
unseen-add (k ∷ ks) seen node h fresh = elim (Bool-cases (text_eq k node)) [
  | inl same ↦
      let e : k ≡ node = (text_eq_iff k node).0 same in
      let was : has k seen ≡ false = rw e fresh in
      let is : has k (add node seen) ≡ true =
        rw has-add (ground (arith, text_eq_iff node k, text_eq_refl node)) in
      let later = unseen-Grows ks seen (add node seen) (add-Grows node seen) in
      rw (was, is) (omega (arith, later))
  | inr other ↦
      let keeps : has k (add node seen) ≡ has k seen =
        rw has-add (ground (arith, text_eq_iff node k, text_eq_iff k node)) in
      let later = unseen-add ks seen node (unfold has in rw other at h) fresh in
      rw keeps (omega (arith, later))
]

module _ (edges : Map (List Text)) where
  -- The search goes on from `st` to a state with more visited, or throws; it has fuel left.
  abbrev Ends : Search → Outcome → Type 0
  Ends st (done st') = Grows st.visited st'.visited
  Ends st (cycle c) = Unit
  Ends st out_of_fuel = ⊥

  abbrev fresh_nodes : Search → ℕ
  fresh_nodes st = unseen (keys edges) st.visited

  and_then-Ends :
      (st : Search) (f : Search → Outcome) (o : Outcome)
      → Ends st o
      → ((mid : Search) → Grows st.visited mid.visited → Ends mid (f mid))
      → Ends st (and_then f o)
  and_then-Ends st f (cycle c) h k = tt
  and_then-Ends st f out_of_fuel h k = h
  and_then-Ends st f (done mid) h k = chain (f mid) (k mid h)
    where
      chain : (o : Outcome) → Ends mid o → Ends st o
      chain (done st') g = unfold Grows in λ key seen. g key (h key seen)
      chain (cycle c) g = tt
      chain out_of_fuel g = g

  visit_all-Ends :
      (visit : Text → Search → Outcome) (n : ℕ)
      → ((node : Text) (st : Search) → fresh_nodes st < n → Ends st (visit node st))
      → (ns : List Text) (st : Search) → fresh_nodes st < n
      → Ends st (visit_all visit ns st)
  unfolding visit_all
  visit_all-Ends visit n each [] st h = unfold Grows in λ k seen. seen
  visit_all-Ends visit n each (x ∷ ns) st h =
      and_then-Ends st (visit_all visit ns) (visit x st) (each x st h) (λ mid g.
        visit_all-Ends visit n each ns mid
          (omega (arith, unseen-Grows (keys edges) st.visited mid.visited g)))

  enter-Grows : (node : Text) (st : Search) → Grows st.visited (enter node st).visited
  enter-Grows node st = add-Grows node st.visited

  widen : (node : Text) (st : Search) (o : Outcome) → Ends (enter node st) o → Ends st o
  widen node st (done st') h = unfold Grows in λ k seen. h k (enter-Grows node st k seen)
  widen node st (cycle c) h = tt
  widen node st out_of_fuel h = h

  -- A node without neighbours needs no fuel for them; any other counts as one less from then on.
  neighbors-Ends :
      (visit : Text → Search → Outcome) (fuel : ℕ) (node : Text) (st : Search)
      → ((m : Text) (s : Search) → fresh_nodes s < fuel → Ends s (visit m s))
      → has node st.visited ≡ false
      → fresh_nodes st < suc fuel
      → Ends (enter node st) (visit_all visit (neighbors_of edges node) (enter node st))
  neighbors-Ends visit fuel node st each fresh h = elim (Bool-cases (has node (keys edges))) [
    | inl listed ↦
        visit_all-Ends visit fuel each (neighbors_of edges node) (enter node st)
          (omega (arith, unseen-add (keys edges) st.visited node listed fresh))
    | inr absent ↦ rw (no_neighbors edges node absent) (unfold visit_all Grows in λ k seen. seen)
  ]

  dfs-Ends :
      (fuel : ℕ) (path : List Text) (node : Text) (st : Search)
      → fresh_nodes st < fuel
      → Ends st (dfs edges fuel path node st)
  unfolding dfs
  dfs-Ends zero path node st h = absurd (omega arith)
  dfs-Ends (suc fuel) path node st h = elim (Bool-cases (has node st.in_stack)) [
    | inl again ↦ rw again tt
    | inr new ↦ elim (Bool-cases (has node st.visited)) [
      | inl seen ↦ rw (new, seen) (unfold Grows in λ k s. s)
      | inr fresh ↦
          rw (new, fresh)
            (and_then-Ends st (λ s. done (leave node s)) _
              (widen node st _ (
                neighbors-Ends (dfs edges fuel (path ++ node ∷ [])) fuel node st
                  (dfs-Ends fuel (path ++ node ∷ [])) fresh h))
              (λ mid g. unfold Grows in λ k s. s))
    ]
  ]

  visit_root-Ends :
      (fuel : ℕ) (node : Text) (st : Search)
      → fresh_nodes st < fuel
      → Ends st (visit_root edges fuel node st)
  visit_root-Ends fuel node st h = elim (Bool-cases (has node st.visited)) [
    | inl seen ↦ rw seen (unfold Grows in λ k s. s)
    | inr fresh ↦ rw fresh (dfs-Ends fuel [] node st h)
  ]

  pub length-keys : (m : Map (List Text)) → length (keys m) ≡ length m
  length-keys [] = refl
  length-keys (e ∷ m) = ap suc (length-keys m)

  search_cycles-Ends :
      Ends (record { visited = []; in_stack = [] }) (search_cycles edges (enough edges))
  unfolding search_cycles
  search_cycles-Ends =
      visit_all-Ends (visit_root edges (enough edges)) (enough edges)
        (visit_root-Ends (enough edges)) (keys edges) (record { visited = []; in_stack = [] })
        (omega (arith, unseen-le-length (keys edges) [], length-keys edges))

outcome_of_Ends :
    (edges : Map (List Text)) (st : Search) (o : Outcome)
    → Ends edges st o
    → ((st' : Search) × (o ≡ done st')) ⊎ ((path : List Text) × (o ≡ cycle path))
outcome_of_Ends edges st (done st') h = inl (st', refl)
outcome_of_Ends edges st (cycle path) h = inr (path, refl)
outcome_of_Ends edges st out_of_fuel h = absurd h

-- The search for circular compositions always ends within its fuel: it reports a chain of names, or
-- it is done, and then every chain of references among the tools ends.
pub detect_compose_circular_deps-ends :
    (tools : Map CustomToolConfig)
    → ((st : Search) × (detect_compose_circular_deps tools ≡ done st)
        × ((n : Text) → IsGrounded (edges_of tools) n))
      ⊎ ((path : List Text) × (detect_compose_circular_deps tools ≡ cycle path))
unfolding detect_compose_circular_deps
detect_compose_circular_deps-ends tools =
    elim (outcome_of_Ends (edges_of tools) (record { visited = []; in_stack = [] })
      (search_cycles (edges_of tools) (enough (edges_of tools)))
      (search_cycles-Ends (edges_of tools))) [
        | inl (st, e) ↦
            inl (st, e, search_cycles_sound (edges_of tools) (enough (edges_of tools)) st e)
        | inr (path, e) ↦ inr (path, e)
      ]
