-- ===== src/Audit/Lines.antt =====
-- The text of a log file and its lines.
use omnibase.Prelude.{
  ◌≡◌, refl, sym, ap, ◌∙◌, ℕ, zero, suc, Bool-cases, inl, inr, ◌+◌, ◌≤◌, true, false, List, [], ◌∷◌,
  ◌++◌, ◌==◌, All, arith, length, drop,
}
use mathlib.Core.List.{append_assoc}
use omnibase.Text.{Text, codes, split_on, join, trim, trim_end, drop_spaces}
use omnibase.Audit.{is_filled, filled_lines}

-- No unit of the text is a line feed.
unfoldable pub OneLine : Text → Type 0
OneLine [] = Unit
OneLine (c ∷ s) = (c == b'\n' ≡ false) × OneLine s

-- A line as a log holds it: no line feed, and not blank.
abbrev pub IsLine : Text → Type 0
IsLine line = OneLine line × (is_filled line ≡ true)

-- The text of a file with these lines.
abbrev pub unlines : List Text → Text
unlines [] = []
unlines (line ∷ lines) = line ++ (b'\n' ∷ unlines lines)

-- Splitting gives a line at least.
split_on-cons :
    (sep : ℕ) (s : Text) → (line : Text) × (lines : List Text) × (split_on sep s ≡ line ∷ lines)
unfolding split_on
split_on-cons sep [] = ([], [], refl)
split_on-cons sep (c ∷ s) =
    let (line, lines, e) = split_on-cons sep s in
    elim (Bool-cases (c == sep)) [
      | inl same ↦ ([], line ∷ lines, rw e (rw same refl))
      | inr other ↦ (c ∷ line, lines, rw e (rw other refl))
    ]

split_on-line :
    (line rest : Text)
    → OneLine line
    → split_on b'\n' (line ++ (b'\n' ∷ rest)) ≡ line ∷ split_on b'\n' rest
unfolding split_on OneLine
split_on-line [] rest h = let (line, lines, e) = split_on-cons b'\n' rest in rw e refl
split_on-line (c ∷ s) rest (ne, h) = rw (split_on-line s rest h) (rw ne refl)

-- What the logger finds in a file is the lines it wrote.
pub filled_lines-unlines :
    (lines : List Text) → All IsLine lines → filled_lines (unlines lines) ≡ lines
unfolding filled_lines split_on trim trim_end drop_spaces
filled_lines-unlines [] h = refl
filled_lines-unlines (line ∷ lines) ((one, filled), h) =
    rw (split_on-line line (unlines lines) one)
      (rw filled (ap (λ ls. line ∷ ls) (filled_lines-unlines lines h)))

pub unlines-append : (xs ys : List Text) → unlines (xs ++ ys) ≡ unlines xs ++ unlines ys
unlines-append [] ys = refl
unlines-append (x ∷ xs) ys =
    rw (unlines-append xs ys) (sym (append_assoc x (10 ∷ unlines xs) (unlines ys)))

join_cons-unlines :
    (line : Text) (lines : List Text)
    → join (codes "\n") (line ∷ lines) ++ codes "\n" ≡ unlines (line ∷ lines)
unfolding join
join_cons-unlines line [] = refl
join_cons-unlines line (next ∷ lines) =
    append_assoc line (10 ∷ join (codes "\n") (next ∷ lines)) (10 ∷ [])
    ∙ ap (λ t. line ++ (10 ∷ t)) (join_cons-unlines next lines)

-- What pruning writes.
pub join-unlines :
    (lines : List Text) → 1 ≤ length lines → join (codes "\n") lines ++ codes "\n" ≡ unlines lines
join-unlines [] h = ground arith
join-unlines (line ∷ lines) h = join_cons-unlines line lines

pub All-append :
    (xs : List Text) (line : Text) → All IsLine xs → IsLine line → All IsLine (xs ++ line ∷ [])
All-append [] line h l = (l, tt)
All-append (x ∷ xs) line (hx, h) l = (hx, All-append xs line h l)

pub All-drop : (n : ℕ) (xs : List Text) → All IsLine xs → All IsLine (drop n xs)
All-drop zero xs h = h
All-drop (suc n) [] h = h
All-drop (suc n) (x ∷ xs) (hx, h) = All-drop n xs h

-- The lines after the first few are still there when one more has come.
pub drop-append :
    {A : Type 0} (n : ℕ) (xs ys : List A) → n ≤ length xs → drop n xs ++ ys ≡ drop n (xs ++ ys)
drop-append zero xs ys h = refl
drop-append (suc n) [] ys h = ground arith
drop-append (suc n) (x ∷ xs) ys h = drop-append n xs ys (omega (arith, h))

drop-nil : {A : Type 0} (n : ℕ) → drop {A = A} n [] ≡ []
drop-nil zero = refl
drop-nil (suc n) = refl

pub drop-drop : {A : Type 0} (m n : ℕ) (xs : List A) → drop n (drop m xs) ≡ drop (m + n) xs
drop-drop zero n xs = ap (λ k. drop k xs) (omega arith)
drop-drop (suc m) n [] = drop-nil n ∙ sym (drop-nil (suc m + n))
drop-drop (suc m) n (x ∷ xs) =
    let shift : suc (m + n) ≡ suc m + n = omega arith in
    drop-drop m n xs ∙ ap (λ k. drop k (x ∷ xs)) shift
