-- ===== src/Analyzer/Scanner.antt =====
-- The fallback scan of `isMultiStatement` against a reading of the text as quoted and plain pieces.
use omnibase.Prelude.{
  ℕ, ◌+◌, ◌≡◌, ◌≢◌, Bool, true, false, List, [], ◌∷◌, ◌++◌, ◌==◌, ltb, All, arith, if◌then◌else◌,
}
use omnibase.Text.{Text}
use omnibase.Analyzer.{Scan, scan_start, scan, scan_unit, multi_by_semicolons}

-- A text with no backslash is a sequence of plain runs, '…' and "…".
pub data Piece : Type 0 where
  plain single double : Text → Piece

abbrev pub render : List Piece → Text
render [] = []
render (plain t ∷ ps) = t ++ render ps
render (single t ∷ ps) = 39 ∷ (t ++ 39 ∷ render ps)
render (double t ∷ ps) = b'"' ∷ (t ++ b'"' ∷ render ps)

-- What a run may hold: nothing that ends it, and no backslash.
abbrev pub IsPlainUnit : ℕ → Type 0
IsPlainUnit c = (c ≢ 39) × (c ≢ b'"') × (c ≢ 92)

abbrev pub IsSingleUnit : ℕ → Type 0
IsSingleUnit c = (c ≢ 39) × (c ≢ 92)

abbrev pub IsDoubleUnit : ℕ → Type 0
IsDoubleUnit c = (c ≢ b'"') × (c ≢ 92)

abbrev pub IsPiece : Piece → Type 0
IsPiece (plain t) = All IsPlainUnit t
IsPiece (single t) = All IsSingleUnit t
IsPiece (double t) = All IsDoubleUnit t

abbrev pub count_unit : ℕ → Text → ℕ
count_unit u [] = 0
count_unit u (c ∷ s) = (if c == u then 1 else 0) + count_unit u s

-- The semicolons outside quotes.
abbrev pub separators : List Piece → ℕ
separators [] = 0
separators (plain t ∷ ps) = count_unit b';' t + separators ps
separators (_ ∷ ps) = separators ps

abbrev at : Bool → Bool → ℕ → Scan
at s d n = record { in_single = s; in_double = d; semicolons = n }

-- What the scan finds after a prefix, from any unescaped place outside quotes.
abbrev Finds : Text → ℕ → Type 0
Finds s k = (prev n : ℕ) → prev ≢ 92 → (scan prev s (at false false n)).semicolons ≡ n + k

module _ (s : Text) (k : ℕ) (later : Finds s k) where
  Finds-plain : (t : Text) → All IsPlainUnit t → Finds (t ++ s) (count_unit b';' t + k)
  unfolding scan scan_unit
  Finds-plain [] h prev n p = omega (arith, later prev n p)
  Finds-plain (c ∷ t) (hc, ht) prev n p =
      ground (arith, Finds-plain t ht c n, Finds-plain t ht c (n + 1))

  inside_single :
      (t : Text) (prev n : ℕ)
      → All IsSingleUnit t
      → prev ≢ 92
      → (scan prev (t ++ 39 ∷ s) (at true false n)).semicolons ≡ n + k
  unfolding scan scan_unit
  inside_single [] prev n h p = ground (arith, later 39 n)
  inside_single (c ∷ t) prev n (hc, ht) p = ground (arith, inside_single t c n ht)

  inside_double :
      (t : Text) (prev n : ℕ)
      → All IsDoubleUnit t
      → prev ≢ 92
      → (scan prev (t ++ b'"' ∷ s) (at false true n)).semicolons ≡ n + k
  unfolding scan scan_unit
  inside_double [] prev n h p = ground (arith, later b'"' n)
  inside_double (c ∷ t) prev n (hc, ht) p = ground (arith, inside_double t c n ht)

  Finds-single : (t : Text) → All IsSingleUnit t → Finds (39 ∷ (t ++ 39 ∷ s)) k
  unfolding scan scan_unit
  Finds-single t h prev n p = ground (arith, inside_single t 39 n h)

  Finds-double : (t : Text) → All IsDoubleUnit t → Finds (b'"' ∷ (t ++ b'"' ∷ s)) k
  unfolding scan scan_unit
  Finds-double t h prev n p = ground (arith, inside_double t b'"' n h)

Finds-render : (ps : List Piece) → All IsPiece ps → Finds (render ps) (separators ps)
Finds-render [] h = λ prev n p. unfold scan in omega arith
Finds-render (plain t ∷ ps) (h, hs) =
    Finds-plain (render ps) (separators ps) (Finds-render ps hs) t h
Finds-render (single t ∷ ps) (h, hs) =
    Finds-single (render ps) (separators ps) (Finds-render ps hs) t h
Finds-render (double t ∷ ps) (h, hs) =
    Finds-double (render ps) (separators ps) (Finds-render ps hs) t h

pub multi_by_count :
    (sql : Text) → multi_by_semicolons sql ≡ ltb 1 (scan 0 sql scan_start).semicolons
unfolding multi_by_semicolons
multi_by_count sql = ground arith

-- On a text of plain runs and of quoted runs without backslashes the fallback counts the
-- semicolons outside quotes, and answers "several statements" exactly from the second one on,
-- wherever they stand.
pub multi_by_semicolons-render :
    (ps : List Piece) → All IsPiece ps → multi_by_semicolons (render ps) ≡ ltb 1 (separators ps)
multi_by_semicolons-render ps h =
    rw multi_by_count (rw (Finds-render ps h 0 0 (omega arith)) (ground arith))
