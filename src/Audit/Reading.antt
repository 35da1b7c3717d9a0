-- ===== src/Audit/Reading.antt =====
-- What `readEntries` gives after any number of entries.
use mathlib.Core.List.{reverse, reverse-append, reverse-cons}
use omnibase.Prelude.{
  take-drop, ◌≡◌, refl, sym, ap, ◌∙◌, ℕ, zero, suc, ◌+◌, ◌-◌, ◌≤◌, ◌⊎◌, inl, inr, true, false, not,
  ◌||◌, if◌then◌else◌, Option, none, some, Option-cases, List, [], ◌∷◌, ◌++◌, All, arith, length,
  length-drop, length-append, take, drop, slice, or_else,
}
use omnibase.Text.{Text, split_on, trim, trim_end, drop_spaces}
use omnibase.Values.{Value}
use omnibase.Types.{AuditConfig, jsonl}
use omnibase.Exec.{ok, pure}
use omnibase.Audit.{
  Entry, Disk, Host, Logger, ReadOptions, page_of, filled_lines, json_record, line_of,
  parse_entries, recent_entries, read_recent, read_entries, is_jsonl,
}
use omnibase.Audit.Lines.{IsLine, unlines, filled_lines-unlines, All-drop, drop-append}
use omnibase.Audit.History.{Works, log_all, lines_of, log-keeps_recent}

module _ {A : Type 0} where
  take-append : (n : ℕ) (xs ys : List A) → n ≤ length xs → take n (xs ++ ys) ≡ take n xs
  take-append zero xs ys h = refl
  take-append (suc n) [] ys h = ground arith
  take-append (suc n) (x ∷ xs) ys h = ap (λ t. x ∷ t) (take-append n xs ys (omega (arith, h)))

  slice-append :
      (i n : ℕ) (xs ys : List A)
      → i + n ≤ length xs
      → slice i (i + n) (xs ++ ys) ≡ slice i (i + n) xs
  slice-append i n xs ys h =
      rw (← drop-append i xs ys (omega (arith, h)))
        (take-append (i + n - i) (drop i xs) ys (omega (arith, h, length-drop i xs)))

  length-reverse : (xs : List A) → length (reverse xs) ≡ length xs
  length-reverse [] = refl
  length-reverse (x ∷ xs) =
      ap length (reverse-cons x xs)
      ∙ omega (arith, length-append (reverse xs) (x ∷ []), length-reverse xs)

  -- A page that the end of a list covers is a page of the whole list, both read from the end.
  slice-reverse-drop :
      (i n k : ℕ) (xs : List A)
      → (k ≡ 0) ⊎ (i + n ≤ length xs - k)
      → slice i (i + n) (reverse (drop k xs)) ≡ slice i (i + n) (reverse xs)
  slice-reverse-drop i n k xs (inl none_gone) = rw none_gone refl
  slice-reverse-drop i n k xs (inr covered) =
      let apart : reverse xs ≡ reverse (drop k xs) ++ reverse (take k xs) =
        ap reverse (sym (take-drop k xs)) ∙ reverse-append (take k xs) (drop k xs) in
      rw apart (
        sym (
          slice-append i n (reverse (drop k xs)) (reverse (take k xs))
            (omega (arith, covered, length-reverse (drop k xs), length-drop k xs))))

abbrev pub records_of : List (Text × Entry) → List Value
records_of [] = []
records_of ((ts, entry) ∷ entries) = json_record ts entry ∷ records_of entries

-- A page of everything.
abbrev pub page : ℕ → ℕ → ReadOptions
page offset limit = record {
  limit = some limit;
  offset = some offset;
  connection = none;
  status = none;
}

module _ (host : Host) {W : Type 0} (disk : Disk W) (config : AuditConfig)
    (content : W → Option Text) (works : Works disk content config.path) where
  -- The host writes the record of an entry as one line, and reads it back.
  abbrev pub IsReadable : Text × Entry → Type 0
  IsReadable (ts, entry) =
      IsLine (host.stringify (json_record ts entry))
      × (host.parse (host.stringify (json_record ts entry)) ≡ some (json_record ts entry))

  parse_entries-drop :
      (k : ℕ) (entries : List (Text × Entry))
      → config.format ≡ jsonl
      → All IsReadable entries
      → parse_entries host (drop k (lines_of host disk config entries))
        ≡ drop k (records_of entries)
  unfolding parse_entries line_of json_record
  parse_entries-drop zero [] is h = refl
  parse_entries-drop zero ((ts, entry) ∷ entries) is ((one, back), h) =
      rw is (rw back (ap (λ vs. json_record ts entry ∷ vs) (parse_entries-drop zero entries is h)))
  parse_entries-drop (suc k) [] is h = refl
  parse_entries-drop (suc k) ((ts, entry) ∷ entries) is (_, h) = parse_entries-drop k entries is h

  take-nil : {A : Type 0} (n : ℕ) → take {A = A} n [] ≡ []
  take-nil zero = refl
  take-nil (suc n) = refl

  drop-nil : {A : Type 0} (n : ℕ) → drop {A = A} n [] ≡ []
  drop-nil zero = refl
  drop-nil (suc n) = refl

  slice-nil : {A : Type 0} (i j : ℕ) → slice {A = A} i j [] ≡ []
  slice-nil i j = rw (drop-nil i) (take-nil (j - i))

  recent_entries-nil : (offset limit : ℕ) → recent_entries host (page offset limit) [] ≡ []
  unfolding recent_entries filled_lines parse_entries split_on trim trim_end drop_spaces
  recent_entries-nil offset limit = slice-nil offset (offset + limit)

  recent_entries-lines :
      (offset limit k : ℕ) (entries : List (Text × Entry))
      → config.format ≡ jsonl
      → All IsReadable entries
      → All IsLine (drop k (lines_of host disk config entries))
      → recent_entries host
          (page offset limit)
          (unlines (drop k (lines_of host disk config entries)))
        ≡ page_of (page offset limit) (reverse (drop k (records_of entries)))
  unfolding recent_entries
  recent_entries-lines offset limit k entries is readable one =
      rw (filled_lines-unlines (drop k (lines_of host disk config entries)) one)
        (rw (parse_entries-drop k entries is readable) refl)

  read_recent-content :
      (offset limit : ℕ) (s : Logger W)
      → read_recent host disk config (page offset limit) s
        ≡ (ok (recent_entries host (page offset limit) (or_else (content s.world) [])), s)
  unfolding read_recent
  read_recent-content offset limit s = elim (Option-cases (content s.world)) [
    | inl missing ↦
        let (e, failing) = works.misses s.world missing in
        rw missing (rw failing (rw (recent_entries-nil offset limit) refl))
    | inr (t, found) ↦ rw found (rw (works.reads t s.world found) refl)
  ]

  read_entries_on :
      (options : ReadOptions) (s : Logger W)
      → config.enabled ≡ true
      → config.format ≡ jsonl
      → read_entries host disk config options s ≡ read_recent host disk config options s
  unfolding read_entries
  read_entries_on options s on is =
      let answers : not config.enabled || not (is_jsonl config.format) ≡ false =
        rw on (rw is refl) in
      ap (λ b. (if b then pure [] else read_recent host disk config options) s) answers

  All-IsLine :
      (entries : List (Text × Entry))
      → config.format ≡ jsonl
      → All IsReadable entries
      → All IsLine (lines_of host disk config entries)
  unfolding line_of
  All-IsLine [] is h = tt
  All-IsLine ((ts, entry) ∷ entries) is ((one, _), h) = (rw is one, All-IsLine entries is h)

  length-lines_of :
      (entries : List (Text × Entry))
      → length (lines_of host disk config entries) ≡ length (records_of entries)
  length-lines_of [] = refl
  length-lines_of ((ts, entry) ∷ entries) = ap suc (length-lines_of entries)

  -- A logger of the JSON format and of an empty file logs any entries, whose records the host
  -- writes as one line each and reads back. A page of the history, without filters, that ends
  -- within the last `max_entries` is then the page of all the records ever logged, the most recent
  -- first, and reading changes nothing.
  pub read_entries-log_all :
      (entries : List (Text × Entry)) (offset limit : ℕ) (w : W)
      → config.enabled ≡ true
      → config.format ≡ jsonl
      → 1 ≤ config.max_entries
      → offset + limit ≤ config.max_entries
      → All IsReadable entries
      → content w ≡ none
      → let s = log_all host disk config entries (record { writes_since_prune = 0; world = w }) in
        read_entries host disk config (page offset limit) s
        ≡ (ok (slice offset (offset + limit) (reverse (records_of entries))), s)
  read_entries-log_all entries offset limit w on is some_max covered readable none_yet =
      let s = log_all host disk config entries (record { writes_since_prune = 0; world = w }) in
      let one = All-IsLine entries is readable in
      let (k, holds, bounded, kept) =
        log-keeps_recent host disk config content works entries w on some_max one none_yet in
      read_entries_on (page offset limit) s on is
      ∙ read_recent-content offset limit s
      ∙ ap (λ vs. (ok vs, s))
          (ap (recent_entries host (page offset limit)) holds
            ∙ recent_entries-lines offset limit k entries is readable (All-drop k _ one)
            ∙ slice-reverse-drop offset limit k (records_of entries) (elim kept [
              | inl all ↦ inl all
              | inr enough ↦ inr (
                  omega (
                    arith,
                    covered,
                    enough,
                    length-lines_of entries,
                    length-drop k (lines_of host disk config entries),
                  ))
            ]))
