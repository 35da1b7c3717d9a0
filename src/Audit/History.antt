-- ===== src/Audit/History.antt =====
-- What the file of the audit log holds after any number of entries.
use mathlib.Core.List.{append_assoc, append-nil}
use omnibase.Prelude.{
  ◌≡◌, refl, sym, ap, ◌∙◌, ℕ, suc, ◌+◌, ◌-◌, ◌≤◌, ◌<◌, ◌⊎◌, inl, inr, true, Option, none, some,
  List, [], ◌∷◌, ◌++◌, All, arith, length, length-append, length-drop, drop, or_else, ltb,
  ltb_cases, leb_cases,
}
use omnibase.Text.{Text, codes, join}
use omnibase.Types.{AuditConfig, Error}
use omnibase.Exec.{ok, err, pure, when, catch}
use omnibase.Audit.{
  Entry, Disk, Host, Logger, line_of, write_pruned, prune_if_needed, count_write, append_entry, log,
}
use omnibase.Audit.Lines.{
  IsLine, unlines, filled_lines-unlines, unlines-append, join-unlines, All-append, All-drop,
  drop-append, drop-drop,
}

-- What the host documents of its calls on one file, while they succeed.
pub record Works {W : Type 0} (disk : Disk W) (content : W → Option Text) (path : Text)
    : Type 0 where
  pub makes :
      (dir : Text) (w : W) → (w' : W) × (disk.mkdir dir w ≡ (ok tt, w')) × (content w' ≡ content w)
  pub appends :
      (t : Text) (w : W)
      → (w' : W) × (disk.append_file path t w ≡ (ok tt, w'))
        × (content w' ≡ some (or_else (content w) [] ++ t))
  pub reads : (t : Text) (w : W) → content w ≡ some t → disk.read_file path w ≡ (ok t, w)
  pub misses : (w : W) → content w ≡ none → (e : Error) × (disk.read_file path w ≡ (err e, w))
  pub writes :
      (t : Text) (w : W)
      → (w' : W) × (disk.write_file path t w ≡ (ok tt, w')) × (content w' ≡ some t)

-- The numbers of one more line, with `k` lines dropped.
bounds_step :
    (total j k n m max : ℕ)
    → j ≤ total
    → n < 100
    → total - j ≤ max + n
    → (j ≡ 0) ⊎ (max ≤ total - j)
    → ((m ≡ suc n) × (m < 100) × (k ≡ 0)) ⊎ ((m ≡ 0) × (k ≡ total - j + 1 - max))
    → (j + k ≤ total + 1)
      × (m < 100)
      × (total + 1 - (j + k) ≤ max + m)
      × ((j + k ≡ 0) ⊎ (max ≤ total + 1 - (j + k)))
bounds_step total j k n m max within under bounded kept how = ground arith

module _ (host : Host) {W : Type 0} (disk : Disk W) (config : AuditConfig) where
  -- The entries logged one after the other, each with its time stamp.
  abbrev pub log_all : List (Text × Entry) → Logger W → Logger W
  log_all [] s = s
  log_all ((ts, entry) ∷ entries) s = log_all entries (log host disk config ts entry s).1

  abbrev pub lines_of : List (Text × Entry) → List Text
  lines_of [] = []
  lines_of ((ts, entry) ∷ entries) = line_of host config.format ts entry ∷ lines_of entries

  module _ (content : W → Option Text) (works : Works disk content config.path) where
    -- The file holds the lines.
    abbrev Holds : W → List Text → Type 0
    Holds w lines = (content w ≡ some (unlines lines)) × All IsLine lines

    -- The file holds what is left of the lines written, after the first so many.
    abbrev Recent : Logger W → List Text → Type 0
    Recent s lines =
        (k : ℕ) × (k ≤ length lines)
        × (or_else (content s.world) [] ≡ unlines (drop k lines))
        × All IsLine (drop k lines)
        × (s.writes_since_prune < 100)
        × (length lines - k ≤ config.max_entries + s.writes_since_prune)
        × ((k ≡ 0) ⊎ (config.max_entries ≤ length lines - k))

    write_pruned-Holds :
        (n : ℕ) (w : W) (lines : List Text)
        → 1 ≤ config.max_entries
        → Holds w lines
        → (w' : W) × (write_pruned host disk config lines
              (record { writes_since_prune = n; world = w })
            ≡ (ok tt, record { writes_since_prune = n; world = w' }))
          × Holds w' (drop (length lines - config.max_entries) lines)
    write_pruned-Holds n w lines some_max (is, each) =
        let rest = drop (length lines - config.max_entries) lines in
        elim (ltb_cases config.max_entries (length lines)) [
          | inl (test, more) ↦
              let enough : 1 ≤ length rest =
                omega (arith, length-drop (length lines - config.max_entries) lines) in
              let (w', e, c) = works.writes (join (codes "\n") rest ++ codes "\n") w in
              (
                w',
                rw test (rw e refl),
                (
                  c ∙ ap some (join-unlines rest enough),
                  All-drop (length lines - config.max_entries) lines each,
                ),
              )
          | inr (test, fits) ↦
              let none_over : length lines - config.max_entries ≡ 0 = omega (arith, fits) in
              (w, rw test refl, rw none_over (is, each))
        ]

    prune_if_needed-Holds :
        (n : ℕ) (w : W) (lines : List Text)
        → 1 ≤ config.max_entries
        → Holds w lines
        → (w' : W) × (prune_if_needed host disk config
              (record { writes_since_prune = n; world = w })
            ≡ (ok tt, record { writes_since_prune = n; world = w' }))
          × Holds w' (drop (length lines - config.max_entries) lines)
    unfolding prune_if_needed
    prune_if_needed-Holds n w lines some_max (is, each) =
        let (w', e, h) = write_pruned-Holds n w lines some_max (is, each) in
        (
          w',
          rw (works.reads (unlines lines) w is) (rw (filled_lines-unlines lines each) (rw e refl)),
          h,
        )

    -- A write that is counted: the file holds the lines, or what pruning leaves of them.
    count_write-Holds :
        (n : ℕ) (w : W) (lines : List Text)
        → 1 ≤ config.max_entries
        → n < 100
        → Holds w lines
        → (w' : W) × (m : ℕ) × (k : ℕ) × (count_write host disk config
              (record { writes_since_prune = n; world = w })
            ≡ (ok tt, record { writes_since_prune = m; world = w' }))
          × Holds w' (drop k lines)
          × (((m ≡ suc n) × (m < 100) × (k ≡ 0))
              ⊎ ((m ≡ 0) × (k ≡ length lines - config.max_entries)))
    unfolding count_write
    count_write-Holds n w lines some_max under holds = elim (leb_cases 100 (suc n)) [
      | inl (test, due) ↦
          let (w', e, h) = prune_if_needed-Holds 0 w lines some_max holds in
          (w', 0, length lines - config.max_entries, rw test e, h, inr (refl, refl))
      | inr (test, early) ↦ (w, suc n, 0, rw test refl, holds, inl (refl, early, refl))
    ]

    log_on :
        (ts : Text) (entry : Entry) (s : Logger W)
        → config.enabled ≡ true
        → log host disk config ts entry s
          ≡ catch (append_entry host disk config ts entry) (λ _. pure tt) s
    unfolding log
    log_on ts entry s on =
        ap (λ b. when b (catch (append_entry host disk config ts entry) (λ _. pure tt)) s) on

    -- An entry that is logged: its line joins the lines of the file.
    log-Holds :
        (ts : Text) (entry : Entry) (n : ℕ) (w : W) (lines : List Text)
        → config.enabled ≡ true
        → 1 ≤ config.max_entries
        → n < 100
        → IsLine (line_of host config.format ts entry)
        → (or_else (content w) [] ≡ unlines lines) × All IsLine lines
        → let all = lines ++ line_of host config.format ts entry ∷ [] in
          (w' : W) × (m : ℕ) × (k : ℕ) × (log host disk config ts entry
              (record { writes_since_prune = n; world = w })
            ≡ (ok tt, record { writes_since_prune = m; world = w' }))
          × Holds w' (drop k all)
          × (((m ≡ suc n) × (m < 100) × (k ≡ 0))
              ⊎ ((m ≡ 0) × (k ≡ length all - config.max_entries)))
    unfolding log append_entry
    log-Holds ts entry n w lines on some_max under one (is, each) =
        let line = line_of host config.format ts entry in
        let (w1, made, c1) = works.makes (host.dirname config.path) w in
        let (w2, appended, c2) = works.appends (line ++ codes "\n") w1 in
        let holds : Holds w2 (lines ++ line ∷ []) = (
          c2 ∙ ap some (rw c1 (rw is (sym (unlines-append lines (line ∷ []))))),
          All-append lines line each one,
        ) in
        let counting : ltb 0 config.max_entries ≡ true = ground (arith, some_max) in
        let (w', m, k, e, h, rest) =
          count_write-Holds n w2 (lines ++ line ∷ []) some_max under holds in
        (
          w',
          m,
          k,
          log_on ts entry (record { writes_since_prune = n; world = w }) on
              ∙ rw made (rw appended (rw counting (rw e refl))),
          h,
          rest,
        )

    log-Recent :
        (ts : Text) (entry : Entry) (s : Logger W) (lines : List Text)
        → config.enabled ≡ true
        → 1 ≤ config.max_entries
        → IsLine (line_of host config.format ts entry)
        → Recent s lines
        → Recent
            (log host disk config ts entry s).1
            (lines ++ line_of host config.format ts entry ∷ [])
    log-Recent ts entry s lines on some_max one (j, within, is, each, under, bounded, kept) =
        let (w', m, k, e, (c, all), how) =
          log-Holds ts entry s.writes_since_prune s.world (drop j lines) on some_max under one
            (is, each) in
        let same : drop k (drop j lines ++ line_of host config.format ts entry ∷ [])
            ≡ drop (j + k) (lines ++ line_of host config.format ts entry ∷ []) =
          ap (drop k) (drop-append j lines _ within) ∙ drop-drop j k _ in
        let total : length (lines ++ line_of host config.format ts entry ∷ []) ≡ length lines + 1 =
          length-append lines _ in
        let left : length (drop j lines ++ line_of host config.format ts entry ∷ [])
            ≡ length lines - j + 1 =
          length-append (drop j lines) _ ∙ ap (λ i. i + 1) (length-drop j lines) in
        let (within', under', bounded', kept') =
          bounds_step (length lines) j k s.writes_since_prune m config.max_entries within under
            bounded kept (rw left at how) in
        rw e (
          j + k,
          rw total within',
          ap (λ o. or_else o []) c ∙ ap unlines same,
          rw (← same) all,
          under',
          rw total bounded',
          rw total kept',
        )

    log_all-Recent :
        (entries : List (Text × Entry)) (s : Logger W) (lines : List Text)
        → config.enabled ≡ true
        → 1 ≤ config.max_entries
        → All IsLine (lines_of entries)
        → Recent s lines
        → Recent (log_all entries s) (lines ++ lines_of entries)
    log_all-Recent [] s lines on some_max each recent = rw (append-nil lines) recent
    log_all-Recent ((ts, entry) ∷ entries) s lines on some_max (one, each) recent =
        rw (← append_assoc lines (line_of host config.format ts entry ∷ []) (lines_of entries)) (
          log_all-Recent entries (log host disk config ts entry s).1
            (lines ++ line_of host config.format ts entry ∷ []) on some_max each
            (log-Recent ts entry s lines on some_max one recent))

    -- A logger that is enabled and whose `max_entries` is at least 1 (0 stands for no limit), of an
    -- empty file, logs any entries, each of one line: afterwards the file holds
    -- exactly the most recent of their lines, in the order they were logged. All of them are there,
    -- or at least `max_entries` are, and never more than `max_entries + 99`.
    pub log-keeps_recent :
        (entries : List (Text × Entry)) (w : W)
        → config.enabled ≡ true
        → 1 ≤ config.max_entries
        → All IsLine (lines_of entries)
        → content w ≡ none
        → let s = log_all entries (record { writes_since_prune = 0; world = w }) in
          (k : ℕ) × (or_else (content s.world) [] ≡ unlines (drop k (lines_of entries)))
          × (length (drop k (lines_of entries)) ≤ config.max_entries + 99)
          × ((k ≡ 0) ⊎ (config.max_entries ≤ length (drop k (lines_of entries))))
    log-keeps_recent entries w on some_max each none_yet =
        let (k, within, is, one, under, bounded, kept) =
          log_all-Recent entries (record { writes_since_prune = 0; world = w }) [] on some_max each
            (0, omega arith, rw none_yet refl, tt, omega arith, omega arith, inl refl) in
        (
          k,
          is,
          rw (length-drop k (lines_of entries)) (omega (arith, bounded, under)),
          rw (length-drop k (lines_of entries)) kept,
        )
