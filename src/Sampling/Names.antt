-- ===== src/Sampling/Names.antt =====
-- Which names reach the statements that the program writes itself.
use omnibase.Prelude.{
  ◌≡◌, refl, ap, sym, ◌∙◌, Bool, true, false, Bool-cases, inl, inr, Option, none, some, List, [],
  ◌∷◌, map, find, length, length-map, arith, ℕ,
}
use omnibase.Text.{Text, same_name}
use omnibase.Text.Laws.{text_eq_refl}
use omnibase.Values.{Conversions}
use omnibase.Collections.{has}
use omnibase.Types.{
  ConnectionConfig, ColumnInfo, TableInfo, SchemaInfo, OmnibaseConfig, QueryResult, Error,
  table_not_found, column_not_found,
}
use omnibase.Exec.{ok}
use omnibase.Exec.Laws.{continue-eq-ok, >>=-eq-ok, ok-injective}
use omnibase.Config.{get_connection}
use omnibase.Session.{Backend, Session}
use omnibase.Manager.{get_schema, execute}
use omnibase.Sampling.{
  ℤ, get_dialect, found_or, find_table, find_column, checked_limit, distinct_query, DistinctValues,
  distinct_values, handle_get_distinct_values,
}

-- What `find` finds passes the test, and its name is one of the names.
find-has :
    {A : Type 0} (name_of : A → Text) (p : A → Bool) (xs : List A) (x : A)
    → find p xs ≡ some x
    → (p x ≡ true) × (has (name_of x) (map name_of xs) ≡ true)
unfolding has
find-has name_of p [] x h = cc
find-has name_of p (y ∷ xs) x h = elim (Bool-cases (p y)) [
  | inl passes ↦
      let found : some y ≡ some x = rw passes at h in
      let same : y ≡ x = cc in rw (← same) (passes, rw (text_eq_refl (name_of y)) refl)
  | inr other ↦
      let (passes, listed) = find-has name_of p xs x (rw other at h) in
      (passes, ground (arith, listed))
]

found_or-eq-ok : {A : Type 0} (e : Error) (o : Option A) (a : A) → found_or e o ≡ ok a → o ≡ some a
found_or-eq-ok e none a h = cc
found_or-eq-ok e (some b) a h = cc

-- An answer of the tool for distinct values comes of one statement, sent once the schema was read:
-- the statement for a table and a column that the schema has, under the schema's spelling. The
-- request chooses them up to case, and its own spelling is not in the statement. The answer counts
-- the rows of the result.
pub handle_get_distinct_values-names :
    {W : Type 0} (backend : Backend W) (on_schema_fetched : Text → SchemaInfo → W → W)
    (host : Conversions) (config : OmnibaseConfig) (connection table column : Text)
    (limit : Option ℤ) (s s' : Session W) (answer : DistinctValues)
    → handle_get_distinct_values backend on_schema_fetched host config connection table column limit
        s
      ≡ (ok answer, s')
    → (conn : ConnectionConfig) × (schema : SchemaInfo) × (found : TableInfo)
      × (picked : ColumnInfo) × (n : ℕ) × (result : QueryResult) × (t : Session W) × (get_connection
            config connection
          ≡ ok conn)
      × (get_schema backend on_schema_fetched conn false none s ≡ (ok schema, t))
      × (has found.name (map (λ u. u.name) schema.tables) ≡ true)
      × (same_name found.name table ≡ true)
      × (has picked.name (map (λ c. c.name) found.columns) ≡ true)
      × (same_name picked.name column ≡ true)
      × (checked_limit 50 limit ≡ ok n)
      × (execute backend conn (distinct_query (get_dialect conn) n found picked) none none t
          ≡ (ok result, s'))
      × (answer.total_shown ≡ length result.rows)
unfolding handle_get_distinct_values find_table find_column distinct_values
handle_get_distinct_values-names backend fetched host config connection table column limit s s'
      answer h =
    let (conn, is_conn, h1) = continue-eq-ok _ (get_connection config connection) s s' answer h in
    let (schema, t, reading, h2) =
      >>=-eq-ok (get_schema backend fetched conn false none) _ s s' answer h1 in
    let (found, is_found, h3) = continue-eq-ok _ (find_table table schema) t s' answer h2 in
    let (picked, is_picked, h4) =
      continue-eq-ok _ (find_column column table found) t s' answer h3 in
    let (n, is_n, h5) = continue-eq-ok _ (checked_limit 50 limit) t s' answer h4 in
    let (result, u, sending, h6) =
      >>=-eq-ok (execute backend conn (distinct_query (get_dialect conn) n found picked) none none)
        _ t s' answer h5 in
    let (named, listed) =
      find-has (λ u. u.name) (λ u. same_name u.name table) schema.tables found
        (found_or-eq-ok (table_not_found table) _ found is_found) in
    let (column_named, column_listed) =
      find-has (λ c. c.name) (λ c. same_name c.name column) found.columns picked
        (found_or-eq-ok (column_not_found table column) _ picked is_picked) in
    (
      conn,
      schema,
      found,
      picked,
      n,
      result,
      t,
      is_conn,
      reading,
      listed,
      named,
      column_listed,
      column_named,
      is_n,
      sending ∙ ap (λ v. (ok result, v)) (ap (λ p. p.1) h6),
      ap (λ a. a.total_shown) (sym (ok-injective (ap (λ p. p.0) h6))) ∙ length-map result.rows _,
    )
