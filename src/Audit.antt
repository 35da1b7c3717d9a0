-- ===== src/Audit.antt =====
-- src/audit-logger.ts: the audit log, a file of one line an entry that is pruned once in a hundred
-- writes, and the entries read back from it. The files of the host, its `JSON` and `dirname` are
-- parameters, as is the time stamp of an entry.
pub mod Lines
pub mod History
pub mod Reading
use omnibase.Prelude.{
  ℕ, zero, suc, ◌+◌, ◌-◌, Bool, true, false, not, ◌||◌, Option, none, some, List, [], ◌∷◌, ◌++◌,
  keep, length, drop, slice, leb, ltb, or_else, if◌then◌else◌,
}
use omnibase.Text.{Text, codes, text_eq, to_upper, trim, split_on, join, print_ℕ, text_runs}
use omnibase.Values.{
  Value, undefined, null, bool, num, str, arr, obj, Items, nil, item, Fields, end, field, get_field,
  values_run,
}
use omnibase.Types.{AuditFormat, jsonl, plain, AuditConfig}
use omnibase.Exec.{Result, ok, err, Exec, pure, modify, gets, when, catch, ◌>>=◌, ◌>>◌}
use omnibase.ExecuteSql.Checks.{is_blank}
use omnibase.Session.{AuditStatus, done, failed}
use mathlib.Core.List.{reverse}

-- `AuditEntry`
pub record Entry : Type 0 where
  pub tool : Text
  pub connection : Text
  pub sql : Text
  pub params : List Value
  pub duration_ms : ℕ
  pub rows : ℕ
  pub status : AuditStatus
  pub error : Option Text

-- The calls of `fs/promises` that the logger makes.
pub record Disk (W : Type 0) : Type 0 where
  pub mkdir : Text → Exec W (Unit {0})
  pub append_file : Text → Text → Exec W (Unit {0})
  pub read_file : Text → Exec W Text
  pub write_file : Text → Text → Exec W (Unit {0})

-- `JSON.stringify`, `JSON.parse` (`none` where it throws) and `path.dirname`.
pub record Host : Type 0 where
  pub stringify : Value → Text
  pub parse : Text → Option Value
  pub dirname : Text → Text

-- The logger's own field, with the world that holds its file.
pub record Logger (W : Type 0) : Type 0 where
  pub writes_since_prune : ℕ
  pub world : W

abbrev pub prune_interval : ℕ
prune_interval = 100

abbrev pub status_text : AuditStatus → Text
status_text done = codes "ok"
status_text failed = codes "error"

-- `entry.error ? ... : ""`
abbrev error_part : Option Text → Text
error_part none = []
error_part (some []) = []
error_part (some (c ∷ s)) = codes " error=\"" ++ ((c ∷ s) ++ codes "\"")

-- A line of the text format, without its line feed.
unfoldable pub text_line : Text → Entry → Text
text_line ts e =
    codes "["
    ++ (ts
        ++ (codes "] "
            ++ (to_upper (status_text e.status)
                ++ (codes " tool="
                    ++ (e.tool
                        ++ (codes " connection="
                            ++ (e.connection
                                ++ (codes " duration="
                                    ++ (print_ℕ e.duration_ms
                                        ++ (codes "ms rows="
                                            ++ (print_ℕ e.rows
                                                ++ (error_part e.error
                                                    ++ (codes " sql=" ++ e.sql)))))))))))))

abbrev array_of : List Value → Items
array_of [] = nil
array_of (v ∷ vs) = item v (array_of vs)

abbrev error_field : Option Text → Fields
error_field none = end
error_field (some message) = field (codes "error") (str message) end

-- The record that a line of the JSON format holds.
unfoldable pub json_record : Text → Entry → Value
json_record ts e = obj (
    field (codes "ts") (str ts) (
      field (codes "tool") (str e.tool) (
        field (codes "connection") (str e.connection) (
          field (codes "sql") (str e.sql) (
            field (codes "params") (arr (array_of e.params)) (
              field (codes "duration_ms") (num (print_ℕ e.duration_ms)) (
                field (codes "rows") (num (print_ℕ e.rows))
                  (field (codes "status") (str (status_text e.status)) (error_field e.error)))))))))

-- `l.trim()` is not empty
abbrev pub is_filled : Text → Bool
is_filled line = not (is_blank (trim line))

-- The lines that hold something.
unfoldable pub filled_lines : Text → List Text
filled_lines content = keep is_filled (split_on b'\n' content)

abbrev in_world : {W A : Type 0} → Exec W A → Exec (Logger W) A
in_world m s = let (r, w) = m s.world in (r, record s { world = w })

-- `e[key]`, which is `undefined` on what is no object
abbrev pub property : Text → Value → Value
property key (obj fs) = get_field key fs
property key (arr vs) = undefined
property key (str s) = undefined
property key (num n) = undefined
property key (bool b) = undefined
property key null = undefined
property key undefined = undefined

-- `v === text`
abbrev pub is_text : Text → Value → Bool
is_text text (str s) = text_eq s text
is_text text _ = false

-- What follows `JSON.parse`: a line that does not parse and a `null` are dropped.
abbrev keep_entry : Option Value → List Value → List Value
keep_entry none rest = rest
keep_entry (some null) rest = rest
keep_entry (some v) rest = v ∷ rest

-- The options of `readEntries`.
pub record ReadOptions : Type 0 where
  pub limit : Option ℕ
  pub offset : Option ℕ
  pub connection : Option Text
  pub status : Option AuditStatus

-- `if (options?.connection)`: an empty name filters nothing.
abbrev pub of_connection : Option Text → List Value → List Value
of_connection none entries = entries
of_connection (some []) entries = entries
of_connection (some (c ∷ s)) entries =
    keep (λ e. is_text (c ∷ s) (property (codes "connection") e)) entries

abbrev pub of_status : Option AuditStatus → List Value → List Value
of_status none entries = entries
of_status (some status) entries =
    keep (λ e. is_text (status_text status) (property (codes "status") e)) entries

abbrev pub page_of : ReadOptions → List Value → List Value
page_of options entries =
    let offset = or_else options.offset 0 in
    slice offset (offset + or_else options.limit 50) entries

abbrev pub is_jsonl : AuditFormat → Bool
is_jsonl jsonl = true
is_jsonl plain = false

module _ (host : Host) where
  unfoldable pub line_of : AuditFormat → Text → Entry → Text
  line_of plain ts e = text_line ts e
  line_of jsonl ts e = host.stringify (json_record ts e)

  unfoldable pub parse_entries : List Text → List Value
  parse_entries [] = []
  parse_entries (line ∷ lines) = keep_entry (host.parse line) (parse_entries lines)

  unfoldable pub recent_entries : ReadOptions → Text → List Value
  recent_entries options content = page_of options (
      of_status options.status
        (of_connection options.connection (reverse (parse_entries (filled_lines content)))))

  module _ {W : Type 0} (disk : Disk W) (config : AuditConfig) where
    -- `slice(length - maxEntries)` where there are more lines than that
    abbrev pub write_pruned : List Text → Exec (Logger W) (Unit {0})
    write_pruned lines = when (ltb config.max_entries (length lines)) (
        in_world (
          disk.write_file config.path
            (join (codes "\n") (drop (length lines - config.max_entries) lines) ++ codes "\n")))

    unfoldable pub prune_if_needed : Exec (Logger W) (Unit {0})
    prune_if_needed =
        catch
          (do content ← in_world (disk.read_file config.path); write_pruned (filled_lines content))
          (λ _. pure tt)

    abbrev pub set_writes : ℕ → Logger W → Logger W
    set_writes n s = record s { writes_since_prune = n }

    abbrev pub prune_when_due : ℕ → Exec (Logger W) (Unit {0})
    prune_when_due n =
        if leb prune_interval n then modify (set_writes 0) >> prune_if_needed else pure tt

    unfoldable pub count_write : Exec (Logger W) (Unit {0})
    count_write = do
      n ← gets (λ s. suc s.writes_since_prune)
      modify (set_writes n)
      prune_when_due n

    -- The body of the `try` in `log`.
    unfoldable pub append_entry : Text → Entry → Exec (Logger W) (Unit {0})
    append_entry ts entry = do
      in_world (disk.mkdir (host.dirname config.path))
      in_world (disk.append_file config.path (line_of config.format ts entry ++ codes "\n"))
      when (ltb 0 config.max_entries) count_write

    unfoldable pub log : Text → Entry → Exec (Logger W) (Unit {0})
    log ts entry = when config.enabled (catch (append_entry ts entry) (λ _. pure tt))

    -- The `try` of `readEntries`.
    unfoldable pub read_recent : ReadOptions → Exec (Logger W) (List Value)
    read_recent options =
        catch
          (do
            content ← in_world (disk.read_file config.path)
            pure (recent_entries options content))
          (λ _. pure [])

    unfoldable pub read_entries : ReadOptions → Exec (Logger W) (List Value)
    read_entries options =
        if not config.enabled || not (is_jsonl config.format) then pure [] else read_recent options

-- Opens what this file defines, to evaluate it on concrete inputs.
unfoldable pub audit_runs : Unit {0}
unfolding text_line json_record filled_lines line_of parse_entries recent_entries prune_if_needed
    count_write append_entry log read_recent read_entries text_runs values_run
audit_runs = tt
