-- ===== src/Updates.antt =====
-- src/update-checker.ts: the comparison of versions, and the check for a newer one. `UpdateCheckDeps`
-- is a record of actions on a world; `Number` on a text is the argument `number`, whose `none` is
-- `NaN`. The two wordings of the notice are one constructor each.
pub mod Versions
use omnibase.Prelude.{
  ℕ, ◌-◌, Bool, true, false, Option, none, some, List, [], ◌∷◌, ltb, ◌==◌, not, if◌then◌else◌,
}
use omnibase.Text.{Text, split_on, text_runs}
use omnibase.Exec.{Result, ok, err, Exec, pure, gets, modify, catch, ◌>>=◌, ◌>>◌}

abbrev cache_max_age_ms : ℕ
cache_max_age_ms = 86400000

pub record UpdateCheckCache : Type 0 where
  pub latest_version : Text
  pub checked_at : ℕ

pub record Deps (W : Type 0) : Type 0 where
  pub fetch_latest_version : Exec W Text
  pub read_cache : W → Option UpdateCheckCache
  pub write_cache : UpdateCheckCache → W → W
  pub now : W → ℕ

-- A part of a version: missing, `NaN`, or a number.
pub data Part : Type 0 where
  missing nan : Part
  number : ℕ → Part

pub record ParsedVersion : Type 0 where
  pub major : Part
  pub minor : Part
  pub patch : Part

pub data Comparison : Type 0 where
  older same newer : Comparison

pub data Notice : Type 0 where
  major_version update : Text → Text → Notice

-- Nothing compares with what is no number.
abbrev pub gt : Part → Part → Bool
gt (number a) (number b) = ltb b a
gt _ _ = false

-- `a !== b`
abbrev pub differs : Part → Part → Bool
differs missing missing = false
differs (number a) (number b) = not (a == b)
differs _ _ = true

abbrev part_of : Option ℕ → Part
part_of none = nan
part_of (some n) = number n

-- The two ways in which a pair of parts can decide, or else the next pair.
abbrev pub decide : Part → Part → Comparison → Comparison
decide a b next = if gt a b then newer else if gt b a then older else next

abbrev pub compare_parsed : ParsedVersion → ParsedVersion → Comparison
compare_parsed a b = decide a.major b.major (decide a.minor b.minor (decide a.patch b.patch same))

module _ (number_of : Text → Option ℕ) where
  abbrev first : List Text → Part
  first [] = missing
  first (s ∷ ss) = part_of (number_of s)

  abbrev rest : List Text → List Text
  rest [] = []
  rest (s ∷ ss) = ss

  unfoldable pub parse_version : Text → ParsedVersion
  parse_version version =
      let parts = split_on b'.' version in
      record { major = first parts; minor = first (rest parts); patch = first (rest (rest parts)) }

  unfoldable pub compare_versions : Text → Text → Comparison
  compare_versions a b = compare_parsed (parse_version a) (parse_version b)

  unfoldable pub is_major_change : Text → Text → Bool
  is_major_change from to = differs (parse_version from).major (parse_version to).major

  -- The notice about a version that was found.
  abbrev pub notice_for : Text → Text → Option Notice
  notice_for current latest = elim (compare_versions latest current) [
    | newer ↦ some (
        if is_major_change current latest
        then major_version current latest
        else update current latest)
    | _ ↦ none
  ]

module _ {W : Type 0} (deps : Deps W) where
  -- The cached answer, where it is younger than a day. A clock that went back makes it younger.
  abbrev pub recent : ℕ → Option UpdateCheckCache → Option UpdateCheckCache
  recent now none = none
  recent now (some cache) =
      if ltb (now - cache.checked_at) cache_max_age_ms then some cache else none

  abbrev pub fetch : Exec W UpdateCheckCache
  fetch = do
    latest ← deps.fetch_latest_version
    at ← gets deps.now
    modify (deps.write_cache (record { latest_version = latest; checked_at = at }))
    pure (record { latest_version = latest; checked_at = at })

  abbrev pub fetch_unless : Option UpdateCheckCache → Exec W (Option UpdateCheckCache)
  fetch_unless (some cache) = pure (some cache)
  fetch_unless none = catch (fetch >>= λ found. pure (some found)) (λ _. pure none)

  unfoldable pub check_for_update : Exec W (Option UpdateCheckCache)
  check_for_update w = fetch_unless (recent (deps.now w) (deps.read_cache w)) w

  abbrev notice_of : (Text → Option ℕ) → Text → Option UpdateCheckCache → Option Notice
  notice_of number_of current none = none
  notice_of number_of current (some found) = notice_for number_of current found.latest_version

  -- `opted_out` is whether NO_UPDATE_NOTIFIER is set.
  unfoldable pub get_update_notice : (Text → Option ℕ) → Bool → Text → Exec W (Option Notice)
  get_update_notice number_of opted_out current = elim opted_out [
    | true ↦ pure none
    | false ↦ check_for_update >>= λ found. pure (notice_of number_of current found)
  ]

-- Opens what this file defines, to evaluate it on concrete inputs.
unfoldable pub updates_run : Unit {0}
unfolding parse_version compare_versions is_major_change check_for_update get_update_notice
    text_runs
updates_run = tt
