-- ===== src/Tests/AuditLogs.antt =====
-- The audit log on a disk of one file.
use omnibase.Prelude.{
  ℕ, ◌≡◌, refl, ◌≤◌, ◌+◌, ◌⊎◌, true, Option, none, some, List, [], ◌∷◌, ◌++◌, length, drop, slice,
  or_else, arith,
}
use mathlib.Core.List.{reverse}
use omnibase.Text.{Text, codes}
use omnibase.Types.{AuditConfig, jsonl, plain, database}
use omnibase.Exec.{Result, ok, err}
use omnibase.Session.{done}
use omnibase.Audit.{Entry, Disk, Host, Logger, json_record, read_entries, log, audit_runs}
use omnibase.Audit.Lines.{OneLine, IsLine, unlines}
use omnibase.Audit.History.{Works, log_all, lines_of, log-keeps_recent}
use omnibase.Audit.Reading.{records_of, page, read_entries-log_all}

abbrev content_of : Option Text → Result Text
content_of none = err (database (codes "ENOENT") [])
content_of (some text) = ok text

abbrev one_file : Disk (Option Text)
one_file = record {
  mkdir = λ dir w. (ok tt, w);
  append_file = λ path t w. (ok tt, some (or_else w [] ++ t));
  read_file = λ path w. (content_of w, w);
  write_file = λ path t w. (ok tt, some t);
}

abbrev content : Option Text → Option Text
content w = w

one_file-Works : (path : Text) → Works one_file content path
one_file-Works path = record {
  makes = λ dir w. (w, refl, refl);
  appends = λ t w. (some (or_else w [] ++ t), refl, refl);
  reads = λ t w h. rw h refl;
  misses = λ w h. (database (codes "ENOENT") [], rw h refl);
  writes = λ t w. (some t, refl, refl);
}

abbrev query : Entry
query = record {
  tool = codes "execute_sql";
  connection = codes "db";
  sql = codes "select 1";
  params = [];
  duration_ms = 3;
  rows = 1;
  status = done;
  error = none;
}

abbrev noon : Text
noon = codes "2026-01-01T12:00:00.000Z"

-- One line stands for the one record.
abbrev one_record : Host
one_record = record {
  stringify = λ v. codes "{}";
  parse = λ t. some (json_record noon query);
  dirname = λ path. path;
}

abbrev kept : AuditConfig
kept = record { enabled = true; path = codes "audit.log"; format = jsonl; max_entries = 2 }

abbrev three : List (Text × Entry)
three = (noon, query) ∷ (noon, query) ∷ (noon, query) ∷ []

abbrev empty_log : Logger (Option Text)
empty_log = record { writes_since_prune = 0; world = none }

-- At the hundredth write the file is pruned.
prune_test :
    (log one_record one_file kept noon query
      (record { writes_since_prune = 99; world = some (codes "a\nb\n") })).1
    ≡ record { writes_since_prune = 0; world = some (codes "b\n{}\n") }
unfolding audit_runs
prune_test = refl

text_test :
    (log one_record one_file (record kept { format = plain }) noon query empty_log).1.world
    ≡ some (
        codes
          "[2026-01-01T12:00:00.000Z] OK tool=execute_sql connection=db duration=3ms rows=1 sql=select 1\n")
unfolding audit_runs
text_test = refl

written : IsLine (codes "{}")
unfolding OneLine audit_runs
written = ((refl, (refl, tt)), refl)

log-keeps_recent_example :
    (k : ℕ) × (or_else (log_all one_record one_file kept three empty_log).world []
      ≡ unlines (drop k (lines_of one_record one_file kept three)))
    × (length (drop k (lines_of one_record one_file kept three)) ≤ 2 + 99)
    × ((k ≡ 0) ⊎ (2 ≤ length (drop k (lines_of one_record one_file kept three))))
unfolding OneLine audit_runs
log-keeps_recent_example =
    log-keeps_recent one_record one_file kept content (one_file-Works (codes "audit.log")) three
      none refl (omega arith) (written, (written, (written, tt))) refl

read_entries-log_all_example :
    read_entries one_record one_file kept
      (page 1 1)
      (log_all one_record one_file kept three empty_log)
    ≡ (
      ok (slice 1 (1 + 1) (reverse (records_of three))),
      log_all one_record one_file kept three empty_log,
    )
unfolding OneLine audit_runs
read_entries-log_all_example =
    read_entries-log_all one_record one_file kept content (one_file-Works (codes "audit.log")) three
      1 1 none refl refl (omega arith) (omega arith)
      ((written, refl), ((written, refl), ((written, refl), tt))) refl
