-- ===== src/Security/Laws.antt =====
-- What `checkSqlSecurity` refuses wherever it stands in a statement, and what slips through.
use mathlib.Core.List.{append_assoc}
use omnibase.Prelude.{
  ℕ, ◌≡◌, refl, ap, ◌≢◌, ◌⊎◌, inl, inr, Bool, true, false, Option, none, some, List, [], ◌∷◌, ◌++◌,
  arith, find, Bool-cases, Option-cases, All,
}
use omnibase.Text.{
  Text, codes, to_upper, trim, first_word, strip_prefix, starts_with, includes, is_space, is_word,
  is_letter, is_digit,
}
use omnibase.Text.Laws.{text_eq_iff, starts_with-append, strip_prefix-append, strip_prefix_sound}
use omnibase.Collections.{has}
use omnibase.Exec.{ok}
use omnibase.Security.Matching.{
  anywhere, spaces_then, word_then, boundary, last_is_word, table_here, qualified_here,
  table_after_from,
}
use omnibase.Security.{
  dangerous_functions, sensitive_tables, blocked_statements, calls, reads_table, forbid,
  check_pragma, check_outfile, check_normalized, check_sql_security,
}

includes-infix : (a p b : Text) → includes (a ++ (p ++ b)) p ≡ true
unfolding includes
includes-infix [] [] [] = unfold starts_with strip_prefix in refl
includes-infix [] [] (c ∷ b) = ground (arith, starts_with-append [] (c ∷ b))
includes-infix [] (c ∷ p) b = ground (arith, starts_with-append (c ∷ p) b)
includes-infix (d ∷ a) p b = ground (arith, includes-infix a p b)

find-ne-none :
    (p : Text → Bool) (k : Text) (l : List Text) → has k l ≡ true → p k ≡ true → find p l ≢ none
unfolding has
find-ne-none p k [] h hk = cc
find-ne-none p k (j ∷ l) h hk = ground (arith, find-ne-none p k l, text_eq_iff j k)

forbid-ne-ok : (o : Option Text) → o ≢ none → forbid o ≢ ok tt
forbid-ne-ok none h e = h refl
forbid-ne-ok (some t) h e = cc

-- What a statement that passes has been found free of.
pub record IsCleared (normalized word : Text) (allow_all : Bool) : Type 0 where
  pub statement : has word blocked_statements ≡ false
  pub pragma : check_pragma normalized word allow_all ≡ ok tt
  pub functions : find (calls normalized) dangerous_functions ≡ none
  pub tables : find (reads_table normalized) sensitive_tables ≡ none
  pub outfile : check_outfile normalized ≡ ok tt

check_normalized-IsCleared :
    (normalized word : Text) (allow_all : Bool)
    → check_normalized normalized word allow_all ≡ ok tt
    → IsCleared normalized word allow_all
unfolding check_normalized
check_normalized-IsCleared normalized word allow_all h = record {
  statement = ground arith;
  pragma = ground arith;
  functions = ground arith;
  tables = ground arith;
  outfile = ground arith;
}

-- A call of a listed function, with or without a space before its parenthesis, is refused wherever
-- it stands in the trimmed upper-case text, at every setting of the connection.
pub dangerous_call_is_refused :
    (sql a b fn : Text) (allow_all : Bool)
    → has fn dangerous_functions ≡ true
    → (to_upper (trim sql) ≡ a ++ ((fn ++ codes "(") ++ b))
      ⊎ (to_upper (trim sql) ≡ a ++ ((fn ++ codes " (") ++ b))
    → check_sql_security sql allow_all ≢ ok tt
unfolding check_sql_security
dangerous_call_is_refused sql a b fn allow_all listed at h =
    let n = to_upper (trim sql) in
    let cleared = check_normalized-IsCleared n (first_word n) allow_all h in
    find-ne-none (calls n) fn dangerous_functions listed (found at) cleared.functions
  where
    found :
        (to_upper (trim sql) ≡ a ++ ((fn ++ codes "(") ++ b))
          ⊎ (to_upper (trim sql) ≡ a ++ ((fn ++ codes " (") ++ b))
        → calls (to_upper (trim sql)) fn ≡ true
    found (inl e) = unfold calls in rw e (ground (arith, includes-infix a (fn ++ codes "(") b))
    found (inr e) = unfold calls in rw e (ground (arith, includes-infix a (fn ++ codes " (") b))

-- Writing to the file system by INTO OUTFILE or INTO DUMPFILE is refused wherever it stands.
pub outfile_is_refused :
    (sql a b : Text) (allow_all : Bool)
    → (to_upper (trim sql) ≡ a ++ (codes "INTO OUTFILE" ++ b))
      ⊎ (to_upper (trim sql) ≡ a ++ (codes "INTO DUMPFILE" ++ b))
    → check_sql_security sql allow_all ≢ ok tt
unfolding check_sql_security
outfile_is_refused sql a b allow_all at h =
    let n = to_upper (trim sql) in
    let cleared = check_normalized-IsCleared n (first_word n) allow_all h in
    refused at cleared.outfile
  where
    refused :
        (to_upper (trim sql) ≡ a ++ (codes "INTO OUTFILE" ++ b))
          ⊎ (to_upper (trim sql) ≡ a ++ (codes "INTO DUMPFILE" ++ b))
        → check_outfile (to_upper (trim sql)) ≢ ok tt
    refused (inl e) =
        unfold check_outfile in rw e (ground (arith, includes-infix a (codes "INTO OUTFILE") b))
    refused (inr e) =
        unfold check_outfile in rw e (ground (arith, includes-infix a (codes "INTO DUMPFILE") b))

anywhere-infix : (here : Text → Bool) (a s : Text) → here s ≡ true → anywhere here (a ++ s) ≡ true
unfolding anywhere
anywhere-infix here [] [] h = h
anywhere-infix here [] (c ∷ s) h = rw h refl
anywhere-infix here (d ∷ a) s h = ground (arith, anywhere-infix here a s h)

spaces_then-append :
    (next : Text → Bool) (c : ℕ) (ws s : Text)
    → is_space c ≡ true
    → All (λ d. is_space d ≡ true) ws
    → next s ≡ true
    → spaces_then next (c ∷ (ws ++ s)) ≡ true
unfolding spaces_then
spaces_then-append next c [] s hc h hs = ground arith
spaces_then-append next c (d ∷ ws) s hc (hd, h) hs =
    ground (arith, spaces_then-append next d ws s hd h hs)

after_from :
    (table s : Text)
    → spaces_then (qualified_here table) s ≡ true
    → table_after_from table (codes "FROM" ++ s) ≡ true
unfolding table_after_from word_then strip_prefix
after_from table s h = rw h refl

after_join :
    (table s : Text)
    → spaces_then (qualified_here table) s ≡ true
    → table_after_from table (codes "JOIN" ++ s) ≡ true
unfolding table_after_from word_then strip_prefix
after_join table s h = rw h refl

-- A FROM or JOIN directly before a listed catalogue table, at any number of spaces, is refused
-- wherever it stands, if a word boundary follows the name.
pub sensitive_read_is_refused :
    (sql a ws rest table : Text) (c : ℕ) (allow_all : Bool)
    → has table sensitive_tables ≡ true
    → is_space c ≡ true
    → All (λ d. is_space d ≡ true) ws
    → boundary table rest ≡ true
    → (to_upper (trim sql) ≡ a ++ (codes "FROM" ++ (c ∷ (ws ++ (table ++ rest)))))
      ⊎ (to_upper (trim sql) ≡ a ++ (codes "JOIN" ++ (c ∷ (ws ++ (table ++ rest)))))
    → check_sql_security sql allow_all ≢ ok tt
unfolding check_sql_security
sensitive_read_is_refused sql a ws rest table c allow_all listed hc hws hb at h =
    let n = to_upper (trim sql) in
    let cleared = check_normalized-IsCleared n (first_word n) allow_all h in
    find-ne-none (reads_table n) table sensitive_tables listed (found at) cleared.tables
  where
    here : qualified_here table (table ++ rest) ≡ true
    here =
        unfold qualified_here table_here word_then in
        rw (strip_prefix-append table rest) (ground arith)

    spaced : spaces_then (qualified_here table) (c ∷ (ws ++ (table ++ rest))) ≡ true
    spaced = spaces_then-append (qualified_here table) c ws (table ++ rest) hc hws here

    found :
        (to_upper (trim sql) ≡ a ++ (codes "FROM" ++ (c ∷ (ws ++ (table ++ rest)))))
          ⊎ (to_upper (trim sql) ≡ a ++ (codes "JOIN" ++ (c ∷ (ws ++ (table ++ rest)))))
        → reads_table (to_upper (trim sql)) table ≡ true
    found (inl e) =
        unfold reads_table in
        rw e (anywhere-infix (table_after_from table) a _ (after_from table _ spaced))
    found (inr e) =
        unfold reads_table in
        rw e (anywhere-infix (table_after_from table) a _ (after_join table _ spaced))

anywhere_sound :
    (here : Text → Bool) (s : Text)
    → anywhere here s ≡ true
    → (a : Text) × (b : Text) × (s ≡ a ++ b) × (here b ≡ true)
unfolding anywhere
anywhere_sound here [] h = ([], [], refl, h)
anywhere_sound here (c ∷ s) h = elim (Bool-cases (here (c ∷ s))) [
  | inl now ↦ ([], c ∷ s, refl, now)
  | inr later ↦
      let (a, b, e, found) = anywhere_sound here s (ground arith) in
      (c ∷ a, b, ap (λ t. c ∷ t) e, found)
]

spaces_then_sound :
    (next : Text → Bool) (s : Text)
    → spaces_then next s ≡ true
    → (a : Text) × (b : Text) × (s ≡ a ++ b) × (next b ≡ true)
unfolding spaces_then
spaces_then_sound next [] h = cc
spaces_then_sound next (c ∷ s) h = elim (Bool-cases (next s)) [
  | inl now ↦ (c ∷ [], s, refl, now)
  | inr later ↦
      let (a, b, e, found) = spaces_then_sound next s (ground arith) in
      (c ∷ a, b, ap (λ t. c ∷ t) e, found)
]

-- Where a name that ends in no word unit is matched, a word unit follows it.
Follows : Text → Text → Type 0
Follows table s =
    (a : Text) × (c : ℕ) × (rest : Text) × (s ≡ a ++ (table ++ c ∷ rest)) × (is_word c ≡ true)

Follows-append : (table a s : Text) → Follows table s → Follows table (a ++ s)
unfolding Follows
Follows-append table a s (b, c, rest, e, w) =
    (a ++ b, c, rest, rw (append_assoc a b (table ++ c ∷ rest)) (ap (λ t. a ++ t) e), w)

Follows-here :
    (table s : Text) → last_is_word table ≡ false → table_here table s ≡ true → Follows table s
unfolding table_here word_then Follows
Follows-here table s bare h = elim (Option-cases (strip_prefix table s)) [
  | inl e ↦ let bad : false ≡ true = rw e at h in cc
  | inr (rest, e) ↦
      let (c, tl, split, w) = next_word rest (rw e at h) in
      ([], c, tl, rw (← split) (strip_prefix_sound table s rest e), w)
]
  where
    next_word :
        (rest : Text)
        → boundary table rest ≡ true
        → (c : ℕ) × (tl : Text) × (rest ≡ c ∷ tl) × (is_word c ≡ true)
    next_word [] h = let bad : false ≡ true = (unfold boundary in rw bare at h) in cc
    next_word (c ∷ tl) h = (c, tl, refl, (unfold boundary in rw bare at h))

module _ (table : Text) (dotted : includes table (codes ".") ≡ true)
    (bare : last_is_word table ≡ false) where
  Follows-qualified : (s : Text) → qualified_here table s ≡ true → Follows table s
  unfolding qualified_here
  Follows-qualified s h = Follows-here table s bare (ground arith)

  Follows-behind :
      (word s : Text)
      → word_then word (spaces_then (qualified_here table)) s ≡ true
      → Follows table s
  unfolding word_then
  Follows-behind word s h = elim (Option-cases (strip_prefix word s)) [
    | inl e ↦ let bad : false ≡ true = rw e at h in cc
    | inr (rest, e) ↦
        let (a, b, split, found) = spaces_then_sound (qualified_here table) rest (rw e at h) in
        rw (strip_prefix_sound word s rest e) (
          Follows-append table word rest
            (rw split (Follows-append table a b (Follows-qualified b found))))
  ]

  Follows-from : (s : Text) → table_after_from table s ≡ true → Follows table s
  unfolding table_after_from
  Follows-from s h =
      elim (Bool-cases (word_then (codes "FROM") (spaces_then (qualified_here table)) s)) [
        | inl now ↦ Follows-behind (codes "FROM") s now
        | inr other ↦ Follows-behind (codes "JOIN") s (ground arith)
      ]

  Follows-reads : (n : Text) → reads_table n table ≡ true → Follows table n
  unfolding reads_table
  Follows-reads n h =
      let (a, b, split, found) = anywhere_sound (table_after_from table) n h in
      rw split (Follows-append table a b (Follows-from b found))

-- The rule for the Oracle table SYS.USER$ fires only where a word unit stands directly behind the
-- dollar sign: the name at the end of a text, or before a space, a comma or a parenthesis, is not
-- noticed.
pub user_dollar_needs_word :
    (normalized : Text)
    → reads_table normalized (codes "SYS.USER$") ≡ true
    → (a : Text) × (c : ℕ) × (rest : Text) × (normalized ≡ a ++ (codes "SYS.USER$" ++ c ∷ rest))
      × (is_word c ≡ true)
user_dollar_needs_word normalized h =
    unfold Follows in
    Follows-reads (codes "SYS.USER$") (unfold includes starts_with strip_prefix in refl)
      (unfold is_word is_letter is_digit in refl) normalized h
