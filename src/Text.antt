-- ===== src/Text.antt =====
-- JavaScript texts as lists of UTF-16 code units, with the operations of `String.prototype` and
-- the small regular expressions that the program uses. Case is mapped for the ASCII letters; a
-- unit outside ASCII is its own upper and lower case.
pub mod Laws
use Prim.Native.Char.{code}
use Prim.Native.String
use omnibase.Prelude.{
  ℕ, zero, suc, ◌+◌, ◌-◌, ◌/◌, ◌%◌, String, Bool, true, false, not, ◌&&◌, ◌||◌, Option, none, some,
  List, [], ◌∷◌, ◌++◌, map, ◌==◌, leb, if◌then◌else◌, ◌<◌, arith,
}
use mathlib.Core.List.{reverse}

abbrev pub Text : Type 0
Text = List ℕ

-- A literal of the source.
abbrev pub codes : String → Text
codes String.[] = []
codes (String.◌∷◌ c s) = code c ∷ codes s

unfoldable pub text_eq : Text → Text → Bool
text_eq [] [] = true
text_eq [] (_ ∷ _) = false
text_eq (_ ∷ _) [] = false
text_eq (a ∷ s) (b ∷ t) = a == b && text_eq s t

unfoldable pub upper_unit : ℕ → ℕ
upper_unit c = if leb b'a' c && leb c b'z' then c - 32 else c

unfoldable pub lower_unit : ℕ → ℕ
lower_unit c = if leb b'A' c && leb c b'Z' then c + 32 else c

unfoldable pub to_upper : Text → Text
to_upper s = map upper_unit s

unfoldable pub to_lower : Text → Text
to_lower s = map lower_unit s

-- `a.toLowerCase() === b.toLowerCase()`
unfoldable pub same_name : Text → Text → Bool
same_name a b = text_eq (to_lower a) (to_lower b)

-- `\s`, which is also what `trim` removes
unfoldable pub is_space : ℕ → Bool
is_space c =
    leb 9 c && leb c 13
    || c == 32
    || c == 0xA0
    || c == 0x1680
    || leb 0x2000 c && leb c 0x200A
    || c == 0x2028
    || c == 0x2029
    || c == 0x202F
    || c == 0x205F
    || c == 0x3000
    || c == 0xFEFF

-- `[a-zA-Z]`
unfoldable pub is_letter : ℕ → Bool
is_letter c = leb b'a' c && leb c b'z' || leb b'A' c && leb c b'Z'

-- `[0-9]`
unfoldable pub is_digit : ℕ → Bool
is_digit c = leb b'0' c && leb c b'9'

-- `\w`
unfoldable pub is_word : ℕ → Bool
is_word c = is_letter c || is_digit c || c == b'_'

unfoldable pub drop_spaces : Text → Text
drop_spaces [] = []
drop_spaces (c ∷ s) = let rest = drop_spaces s in if is_space c then rest else c ∷ s

unfoldable pub trim_end : Text → Text
trim_end s = reverse (drop_spaces (reverse s))

unfoldable pub trim : Text → Text
trim s = trim_end (drop_spaces s)

-- What follows a prefix, `none` where it is no prefix.
unfoldable pub strip_prefix : Text → Text → Option Text
strip_prefix [] s = some s
strip_prefix (_ ∷ _) [] = none
strip_prefix (a ∷ p) (b ∷ s) = let rest = strip_prefix p s in if a == b then rest else none

unfoldable pub starts_with : Text → Text → Bool
starts_with s p = elim (strip_prefix p s) [ none ↦ false | some _ ↦ true ]

-- `s.includes(p)`
unfoldable pub includes : Text → Text → Bool
includes [] p = starts_with [] p
includes (c ∷ s) p = starts_with (c ∷ s) p || includes s p

unfoldable pub ends_with : Text → Text → Bool
ends_with s p = starts_with (reverse s) (reverse p)

-- The longest prefix whose units pass a test, and what is left.
unfoldable pub span : (ℕ → Bool) → Text → Text × Text
span p [] = ([], [])
span p (c ∷ s) = let rest = span p s in if p c then (c ∷ rest.0, rest.1) else ([], c ∷ s)

-- `s.split(/\s+/)[0]`
unfoldable pub first_word : Text → Text
first_word s = (span (λ c. not (is_space c)) s).0

-- `s.split(sep)` at one unit
unfoldable pub split_on : ℕ → Text → List Text
split_on sep [] = [] ∷ []
split_on sep (c ∷ s) = elim (split_on sep s) [
  | [] ↦ (c ∷ []) ∷ []
  | line ∷ lines ↦ if c == sep then [] ∷ line ∷ lines else (c ∷ line) ∷ lines
]

-- `parts.join(sep)`
unfoldable pub join : Text → List Text → Text
join sep [] = []
join sep (p ∷ []) = p
join sep (p ∷ q ∷ ps) = p ++ (sep ++ join sep (q ∷ ps))

-- Decimal digits of a natural number, as a template literal prints it. The fuel is the number
-- itself plus one, and each round divides it by ten.
unfoldable pub print_fuel : ℕ → ℕ → Text → Text
print_fuel zero n acc = acc
print_fuel (suc f) n acc =
    let more = print_fuel f (n / 10) ((48 + n % 10) ∷ acc) in
    if n / 10 == 0 then (48 + n % 10) ∷ acc else more

unfoldable pub print_ℕ : ℕ → Text
print_ℕ n = print_fuel (suc n) n []

-- Opens what this file defines, to evaluate it on concrete inputs.
unfoldable pub text_runs : Unit {0}
unfolding text_eq upper_unit lower_unit to_upper to_lower same_name is_space is_letter is_digit
    is_word drop_spaces trim_end trim strip_prefix starts_with includes ends_with span first_word
    split_on join print_fuel print_ℕ
text_runs = tt
