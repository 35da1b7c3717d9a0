-- ===== src/Formatter/Matches.antt =====
-- What the matches of a search say of the names that they found.
use omnibase.Prelude.{
  ◌≡◌, refl, ◌≢◌, true, false, Bool-cases, inl, inr, ◌||◌, Option, none, some, List, [], ◌∷◌, ◌++◌,
  or_else, All,
}
use omnibase.Text.{Text, text_eq, to_lower, starts_with, includes}
use omnibase.Text.Laws.{text_eq_iff}
use omnibase.Types.{TableInfo, ColumnInfo}
use omnibase.Formatter.{
  MatchType, table_exact, table_prefix, table_contains, column_exact, column_prefix,
  column_contains, SearchResult, match_table, match_column, match_columns, match_tables,
}

-- The kind of a match says whether a table or a column was found, and whether the name is the query
-- in lower case, only begins with it, or does not begin with it.
abbrev pub IsKind : MatchType → Text → Text → Option (Text × Text) → Type 0
IsKind table_exact q table column = (column ≡ none) × (to_lower table ≡ q)
IsKind table_prefix q table column =
    (column ≡ none) × (to_lower table ≢ q) × (starts_with (to_lower table) q ≡ true)
IsKind table_contains q table column =
    (column ≡ none)
    × (starts_with (to_lower table) q ≡ false)
    × (includes (to_lower table) q ≡ true)
IsKind column_exact q table column =
    (name : Text) × (type : Text) × (column ≡ some (name, type)) × (to_lower name ≡ q)
IsKind column_prefix q table column =
    (name : Text) × (type : Text) × (column ≡ some (name, type))
    × (to_lower name ≢ q)
    × (starts_with (to_lower name) q ≡ true)
IsKind column_contains q table column =
    (name : Text) × (type : Text) × (column ≡ some (name, type))
    × (starts_with (to_lower name) q ≡ false)

abbrev pub IsJudged : Text → SearchResult → Type 0
IsJudged q r = IsKind r.match_type q r.table_name r.column

All-append :
    (q : Text) (xs ys : List SearchResult)
    → All (IsJudged q) xs
    → All (IsJudged q) ys
    → All (IsJudged q) (xs ++ ys)
All-append q [] ys h k = k
All-append q (x ∷ xs) ys (hx, h) k = (hx, All-append q xs ys h k)

differs : (s q : Text) → text_eq s q ≡ false → s ≢ q
differs s q other same =
    let yes_and_no : true ≡ false = rw ((text_eq_iff s q).1 same) at other in cc

match_table-IsJudged : (q : Text) (t : TableInfo) → All (IsJudged q) (match_table q t)
unfolding match_table
match_table-IsJudged q t =
    let name = to_lower t.name in
    elim (Bool-cases (text_eq name q)) [
      | inl exact ↦ rw exact ((refl, (text_eq_iff name q).0 exact), tt)
      | inr other ↦ elim (Bool-cases (starts_with name q)) [
        | inl begins ↦ rw (other, begins) ((refl, differs name q other, begins), tt)
        | inr inside ↦ elim (Bool-cases (includes name q)) [
          | inl found ↦ rw (other, inside, found) ((refl, inside, found), tt)
          | inr missing ↦ rw (other, inside, missing) tt
        ]
      ]
    ]

match_column-IsJudged :
    (q : Text) (t : TableInfo) (c : ColumnInfo) → All (IsJudged q) (match_column q t c)
unfolding match_column
match_column-IsJudged q t c =
    let name = to_lower c.name in
    let found = includes name q || includes (to_lower (or_else c.comment [])) q in
    elim (Bool-cases (text_eq name q)) [
      | inl exact ↦ rw exact ((c.name, c.type, refl, (text_eq_iff name q).0 exact), tt)
      | inr other ↦ elim (Bool-cases (starts_with name q)) [
        | inl begins ↦ rw (other, begins) ((c.name, c.type, refl, differs name q other, begins), tt)
        | inr inside ↦ elim (Bool-cases found) [
          | inl there ↦ rw (other, inside, there) ((c.name, c.type, refl, inside), tt)
          | inr missing ↦ rw (other, inside, missing) tt
        ]
      ]
    ]

match_columns-IsJudged :
    (q : Text) (t : TableInfo) (cs : List ColumnInfo) → All (IsJudged q) (match_columns q t cs)
unfolding match_columns
match_columns-IsJudged q t [] = tt
match_columns-IsJudged q t (c ∷ cs) =
    All-append q (match_column q t c) (match_columns q t cs) (match_column-IsJudged q t c)
      (match_columns-IsJudged q t cs)

pub match_tables-IsJudged : (q : Text) (ts : List TableInfo) → All (IsJudged q) (match_tables q ts)
unfolding match_tables
match_tables-IsJudged q [] = tt
match_tables-IsJudged q (t ∷ ts) =
    All-append q (match_table q t) (match_columns q t t.columns ++ match_tables q ts)
      (match_table-IsJudged q t)
      (All-append q (match_columns q t t.columns) (match_tables q ts)
        (match_columns-IsJudged q t t.columns) (match_tables-IsJudged q ts))
