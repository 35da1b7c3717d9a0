-- ===== src/Updates/Versions.antt =====
-- The order of versions.
use omnibase.Prelude.{◌≡◌, refl, ℕ, true, false, Option, arith, Bool-cases, inl, inr, sym, ap, ◌∙◌}
use omnibase.Text.{Text}
use omnibase.Updates.{
  Part, missing, nan, number, Comparison, older, same, newer, gt, decide, parse_version,
  compare_versions,
}

abbrev pub opposite : Comparison → Comparison
opposite older = newer
opposite same = same
opposite newer = older

-- No two parts are each greater than the other.
gt_one_way : (a b : Part) → gt a b ≡ true → gt b a ≡ false
gt_one_way missing b h = cc
gt_one_way nan b h = cc
gt_one_way (number a) missing h = refl
gt_one_way (number a) nan h = refl
gt_one_way (number a) (number b) h = ground arith

decide-opposite :
    (a b : Part) (next : Comparison) → opposite (decide a b next) ≡ decide b a (opposite next)
decide-opposite a b next = elim (Bool-cases (gt a b)) [
  | inl greater ↦ rw (greater, gt_one_way a b greater) refl
  | inr other ↦ elim (Bool-cases (gt b a)) [
    | inl less ↦ rw (other, less) refl
    | inr equal ↦ rw (other, equal) refl
  ]
]

-- Comparing two versions the other way around gives the opposite answer, whatever texts they are:
-- no version is newer than one that is newer than itself.
pub compare_versions-opposite :
    (number_of : Text → Option ℕ) (a b : Text)
    → compare_versions number_of b a ≡ opposite (compare_versions number_of a b)
unfolding compare_versions
compare_versions-opposite number_of a b =
    let v = parse_version number_of a in
    let w = parse_version number_of b in
    sym (
      decide-opposite v.major w.major _
      ∙ ap (decide w.major v.major) (
          decide-opposite v.minor w.minor _
          ∙ ap (decide w.minor v.minor) (decide-opposite v.patch w.patch same)))
