-- ===== src/Browse/Requested.antt =====
-- Each requested table is either shown or warned about.
use omnibase.Prelude.{
  ◌≡◌, refl, Bool, true, not, ◌&&◌, inl, inr, Bool-cases, List, [], ◌∷◌, arith, keep, map,
}
use omnibase.Text.{Text, text_eq, to_lower}
use omnibase.Text.Laws.{text_eq_iff, text_eq_refl}
use omnibase.Collections.{has}
use omnibase.Types.{TableInfo, SchemaInfo}
use omnibase.Browse.{lower_names, filter_tables, missing_tables}

has-keep :
    (p : Text → Bool) (name : Text) (names : List Text)
    → has name (keep p names) ≡ (p name && has name names)
unfolding has
has-keep p name [] = ground arith
has-keep p name (n ∷ names) = elim (Bool-cases (text_eq n name)) [
  | inl same ↦
      let e : n ≡ name = (text_eq_iff n name).0 same in
      rw e (ground (arith, has-keep p name names, text_eq_refl name))
  | inr other ↦ ground (arith, has-keep p name names)
]

has-map :
    (name : Text) (names : List Text)
    → has name names ≡ true
    → has (to_lower name) (map to_lower names) ≡ true
unfolding has
has-map name [] h = h
has-map name (n ∷ names) h = elim (Bool-cases (text_eq n name)) [
  | inl same ↦ rw ((text_eq_iff n name).0 same, text_eq_refl (to_lower name)) refl
  | inr other ↦ ground (arith, has-map name names)
]

-- Filtering by requested names keeps a name of the schema that was requested.
shown-eq :
    (k : Text) (wanted : List Text) (tables : List TableInfo)
    → has k wanted ≡ true
    → has k (lower_names (keep (λ t. has (to_lower t.name) wanted) tables))
      ≡ has k (lower_names tables)
unfolding has
shown-eq k wanted [] h = refl
shown-eq k wanted (t ∷ tables) h = elim (Bool-cases (text_eq (to_lower t.name) k)) [
  | inl same ↦
      let e : to_lower t.name ≡ k = (text_eq_iff (to_lower t.name) k).0 same in
      let wanted_here : has (to_lower t.name) wanted ≡ true = rw e h in rw (wanted_here, same) refl
  | inr other ↦ ground (arith, shown-eq k wanted tables h)
]

-- The warnings of the schema tool are for exactly those requested names of which the schema has no
-- table, in whatever case.
pub missing_tables-exact :
    (requested : List Text) (schema : SchemaInfo) (name : Text)
    → has name requested ≡ true
    → has name (missing_tables requested (filter_tables requested schema))
      ≡ not (has (to_lower name) (lower_names schema.tables))
unfolding missing_tables filter_tables
missing_tables-exact requested schema name h =
    rw
      (
        has-keep,
        h,
        shown-eq (to_lower name) (map to_lower requested) schema.tables (has-map name requested h),
      )
      (ground arith)
