-- ===== src/Hints/Length.antt =====
-- How long a hint gets.
use omnibase.Prelude.{
  ◌≡◌, ℕ, zero, suc, ◌+◌, ◌≤◌, true, some, List, [], ◌∷◌, ◌++◌, map, length-map, get_elem?, length,
  length-append, length-take, leb_cases, take, inl, inr, arith,
}
use omnibase.Text.{Text, codes}
use omnibase.Collections.{Map, insert}
use omnibase.Types.{SchemaInfo}
use omnibase.Hints.{
  Sorting, hint_with, hint_of_names, fallback, truncate_hint, build_hint, HintManager, described,
  update_hints,
}

cut-length : (s : Text) → length (take 797 s ++ codes "...") ≤ 800
cut-length s = omega (arith, length-append (take 797 s) (codes "..."), length-take 797 s)

module _ (sorting : Sorting) where
  fallback-length : (schemas : Map SchemaInfo) → length (fallback sorting schemas) ≤ 800
  unfolding fallback
  fallback-length schemas = cut-length (hint_of_names sorting schemas)

  truncate_hint-length :
      (rounds : ℕ) (schemas : Map SchemaInfo) → length (truncate_hint sorting rounds schemas) ≤ 800
  unfolding truncate_hint
  truncate_hint-length zero schemas = fallback-length schemas
  truncate_hint-length (suc rounds) schemas =
      elim (leb_cases (length (hint_with sorting (rounds + 4) schemas)) 800) [
        | inl (test, fits) ↦ rw test fits
        | inr (test, over) ↦ rw test (truncate_hint-length rounds schemas)
      ]

  build_hint-length : (schemas : Map SchemaInfo) → length (build_hint sorting schemas) ≤ 800
  unfolding build_hint
  build_hint-length [] = omega arith
  build_hint-length (p ∷ schemas) =
      elim (leb_cases (length (hint_with sorting 12 (p ∷ schemas))) 800) [
        | inl (test, fits) ↦ rw test fits
        | inr (test, over) ↦ rw test (truncate_hint-length 8 (p ∷ schemas))
      ]

described-length :
    (hint base : Text) → length hint ≤ 800 → length (described hint base) ≤ length base + 802
described-length [] base h = omega arith
described-length (c ∷ s) base h = omega (arith, h, length-append base (codes "\n\n" ++ (c ∷ s)))

get_elem?-map :
    {A B : Type 0} (f : A → B) (xs : List A) (i : ℕ) (x : A)
    → get_elem? xs i ≡ some x
    → get_elem? (map f xs) i ≡ some (f x)
get_elem?-map f [] i x h = cc
get_elem?-map f (y ∷ xs) zero x h = cc
get_elem?-map f (y ∷ xs) (suc i) x h = get_elem?-map f xs i x h

-- An update of enabled hints calls each registered tool once, in the order of registration, with a
-- description that is at most 802 units longer than the one it was registered with, however many
-- schemas are known: the hint itself has at most 800 units.
pub update_hints-bounded :
    {H : Type 0} (sorting : Sorting) (name : Text) (schema : SchemaInfo) (m : HintManager H) (i : ℕ)
    (handle : H) (base : Text)
    → m.enabled ≡ true
    → get_elem? m.tools i ≡ some (handle, base)
    → let (later, updates) = update_hints sorting name schema m in
      (length (build_hint sorting later.schemas_by_connection) ≤ 800)
      × (length updates ≡ length m.tools)
      × ((description : Text) × (get_elem? updates i ≡ some (handle, description))
          × (length description ≤ length base + 802))
unfolding update_hints
update_hints-bounded sorting name schema m i handle base on registered =
    let schemas = insert name schema m.schemas_by_connection in
    let hint = build_hint sorting schemas in
    rw on (
      build_hint-length sorting schemas,
      length-map m.tools (λ t. (t.0, described hint t.1)),
      (
        described hint base,
        get_elem?-map (λ t. (t.0, described hint t.1)) m.tools i (handle, base) registered,
        described-length hint base (build_hint-length sorting schemas),
      ),
    )
