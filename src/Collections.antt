-- ===== src/Collections.antt =====
-- `Map` and `Set` of JavaScript with texts as keys, and plain objects used as records of named
-- values: association lists in insertion order. Setting a present key keeps its place.
pub mod Laws
use omnibase.Prelude.{
  Bool, true, false, ◌||◌, Option, none, some, List, [], ◌∷◌, ◌++◌, if◌then◌else◌, map,
}
use omnibase.Text.{Text, text_eq}

abbrev pub Map {ℓ} : Type ℓ → Type ℓ
Map V = List (Text × V)

module _ {ℓ} {V : Type ℓ} where
  -- `m.get(k)`
  unfoldable pub lookup : Text → Map V → Option V
  lookup k [] = none
  lookup k ((j, v) ∷ m) = let rest = lookup k m in if text_eq j k then some v else rest

  -- `m.set(k, v)`
  unfoldable pub insert : Text → V → Map V → Map V
  insert k v [] = (k, v) ∷ []
  insert k v ((j, w) ∷ m) =
      let rest = insert k v m in if text_eq j k then (j, v) ∷ m else (j, w) ∷ rest

  -- `m.delete(k)`
  unfoldable pub delete : Text → Map V → Map V
  delete k [] = []
  delete k ((j, w) ∷ m) = let rest = delete k m in if text_eq j k then rest else (j, w) ∷ rest

  abbrev pub keys : Map V → List Text
  keys [] = []
  keys ((k, v) ∷ m) = k ∷ keys m

-- `s.has(k)`
unfoldable pub has : Text → List Text → Bool
has k [] = false
has k (j ∷ s) = text_eq j k || has k s

-- `s.add(k)`
unfoldable pub add : Text → List Text → List Text
add k s = if has k s then s else s ++ k ∷ []

-- `s.delete(k)`
unfoldable pub remove : Text → List Text → List Text
remove k [] = []
remove k (j ∷ s) = let rest = remove k s in if text_eq j k then rest else j ∷ rest

unfoldable pub add_all : List Text → List Text → List Text
add_all seen [] = seen
add_all seen (x ∷ xs) = add_all (add x seen) xs

-- `[...new Set(xs)]`
unfoldable pub unique : List Text → List Text
unique xs = add_all [] xs

-- Opens what this file defines, to evaluate it on concrete inputs.
unfoldable pub collections_run : Unit {0}
unfolding lookup insert delete has add remove add_all unique text_eq
collections_run = tt
