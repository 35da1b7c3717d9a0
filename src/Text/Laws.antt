-- ===== src/Text/Laws.antt =====
-- Equality of texts, prefixes, and trimming.
use omnibase.Prelude.{ℕ, ◌≡◌, refl, ◌↔◌, true, false, some, [], ◌∷◌, ◌++◌, arith}
use mathlib.Core.List.{reverse, reverse-append, reverse-cons, reverse-reverse}
use omnibase.Text.{trim, trim_end, Text, text_eq, strip_prefix, starts_with, drop_spaces, is_space}

text_eq_sound : (s t : Text) → text_eq s t ≡ true → s ≡ t
unfolding text_eq
text_eq_sound [] [] h = refl
text_eq_sound [] (b ∷ t) h = cc
text_eq_sound (a ∷ s) [] h = cc
text_eq_sound (a ∷ s) (b ∷ t) h = ground (arith, text_eq_sound s t)

pub text_eq_refl : (s : Text) → text_eq s s ≡ true
unfolding text_eq
text_eq_refl [] = refl
text_eq_refl (a ∷ s) = ground (arith, text_eq_refl s)

-- The Boolean test decides equality.
pub text_eq_iff : (s t : Text) → (text_eq s t ≡ true) ↔ (s ≡ t)
text_eq_iff s t = (text_eq_sound s t, λ e. rw (← e) (text_eq_refl s))

pub strip_prefix-append : (p s : Text) → strip_prefix p (p ++ s) ≡ some s
unfolding strip_prefix
strip_prefix-append [] s = refl
strip_prefix-append (c ∷ p) s = ground (arith, strip_prefix-append p s)

pub strip_prefix_sound : (p s rest : Text) → strip_prefix p s ≡ some rest → s ≡ p ++ rest
unfolding strip_prefix
strip_prefix_sound [] s rest h = ground arith
strip_prefix_sound (a ∷ p) [] rest h = cc
strip_prefix_sound (a ∷ p) (b ∷ s) rest h = ground (arith, strip_prefix_sound p s rest)

pub starts_with-append : (p s : Text) → starts_with (p ++ s) p ≡ true
unfolding starts_with
starts_with-append p s = rw (strip_prefix-append p s, starts_with) refl

drop_spaces_of_visible : (c : ℕ) (s : Text) → is_space c ≡ false → drop_spaces (c ∷ s) ≡ c ∷ s
unfolding drop_spaces
drop_spaces_of_visible c s h = rw h

trim_end_of_visible : (d : ℕ) (s : Text) → is_space d ≡ false → trim_end (s ++ d ∷ []) ≡ s ++ d ∷ []
unfolding trim_end
trim_end_of_visible d s h =
    rw (reverse-append s (d ∷ []))
      (rw (drop_spaces_of_visible d (reverse s) h) (simp (reverse-cons, reverse-reverse)))

-- Trimming changes nothing between two visible ends.
pub trim_of_visible :
    (c d : ℕ) (s : Text)
    → is_space c ≡ false
    → is_space d ≡ false
    → trim (c ∷ (s ++ d ∷ [])) ≡ c ∷ (s ++ d ∷ [])
unfolding trim
trim_of_visible c d s hc hd =
    rw (drop_spaces_of_visible c (s ++ d ∷ []) hc) (trim_end_of_visible d (c ∷ s) hd)
