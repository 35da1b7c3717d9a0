-- ===== src/Collections/Laws.antt =====
-- The laws of maps and sets, each in the form of a conditional.
use omnibase.Prelude.{
  ◌≡◌, refl, true, false, ◌||◌, not, ◌&&◌, none, some, List, [], ◌∷◌, ◌++◌, arith, if◌then◌else◌,
}
use omnibase.Text.{Text, text_eq}
use omnibase.Text.Laws.{text_eq_iff}
use omnibase.Collections.{Map, lookup, insert, delete, has, add, remove}

module _ {ℓ} {V : Type ℓ} where
  pub lookup-insert :
      (k j : Text) (v : V) (m : Map V)
      → lookup j (insert k v m) ≡ (if text_eq k j then some v else lookup j m)
  unfolding lookup insert
  lookup-insert k j v [] = refl
  lookup-insert k j v ((i, w) ∷ m) =
      ground (arith, text_eq_iff k j, text_eq_iff i k, text_eq_iff i j, lookup-insert k j v m)

  pub lookup-delete :
      (k j : Text) (m : Map V) → lookup j (delete k m) ≡ (if text_eq k j then none else lookup j m)
  unfolding lookup delete
  lookup-delete k j [] = ground arith
  lookup-delete k j ((i, w) ∷ m) =
      ground (arith, text_eq_iff k j, text_eq_iff i k, text_eq_iff i j, lookup-delete k j m)

pub has-append : (k : Text) (s t : List Text) → has k (s ++ t) ≡ (has k s || has k t)
unfolding has
has-append k [] t = refl
has-append k (j ∷ s) t = ground (arith, has-append k s t)

pub has-remove : (k j : Text) (s : List Text) → has j (remove k s) ≡ (not (text_eq k j) && has j s)
unfolding has remove
has-remove k j [] = ground arith
has-remove k j (i ∷ s) =
    ground (arith, text_eq_iff k j, text_eq_iff i k, text_eq_iff i j, has-remove k j s)

pub has-add : (k j : Text) (s : List Text) → has j (add k s) ≡ (text_eq k j || has j s)
unfolding add has
has-add k j s = ground (arith, has-append j s (k ∷ []), text_eq_iff k j)

module _ {ℓ} {V : Type ℓ} where
  pub lookup_here :
      (k name : Text) (v : V) (m : Map V)
      → text_eq k name ≡ true
      → lookup name ((k, v) ∷ m) ≡ some v
  unfolding lookup
  lookup_here k name v m same = rw same refl

  pub lookup_there :
      (k name : Text) (v : V) (m : Map V)
      → text_eq k name ≡ false
      → lookup name ((k, v) ∷ m) ≡ lookup name m
  unfolding lookup
  lookup_there k name v m other = rw other refl
