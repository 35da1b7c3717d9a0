-- ===== src/Validator.antt =====
-- src/tools/validate-query.ts: `handleValidateQuery`. The parser is the argument `astify`, the
-- database the argument `backend`. Messages are kept without their wording.
pub mod Tree
pub mod Pattern
pub mod Count
pub mod References
pub mod Verdict
use omnibase.Prelude.{
  ℕ, zero, suc, Bool, true, false, not, ◌&&◌, ◌||◌, Option, none, some, List, [], ◌∷◌, ◌++◌,
  is_some, any, ◌==◌, if◌then◌else◌,
}
use omnibase.Text.{Text, codes, to_upper, trim, starts_with, includes, print_ℕ, text_runs}
use omnibase.Values.{Value, null, num, truthy, Conversions}
use omnibase.Types.{
  PermissionLevel, read_only, read_write, admin, QueryCategory, read, write, ddl, ConnectionConfig,
  SchemaInfo, OmnibaseConfig, QueryResult, Error, invalid_query,
}
use omnibase.Exec.{Result, ok, err, Exec, pure, lift, catch, ◌>>=◌, ◌>>◌}
use omnibase.Exec.Pure.{reject_if}
use omnibase.Analyzer.{classify_query, is_multi_statement, analyzer_runs}
use omnibase.Config.{get_connection, config_runs}
use omnibase.Session.{Backend, Session, Validation}
use omnibase.Manager.{get_schema, execute, validate_query, manager_runs}
use omnibase.ExecuteSql.Checks.{is_blank, changes_data}
use Count.{build_count_query, count_runs}
use References.{Warning, affects_all_rows, references_of, reference_warnings, references_run}

-- The errors of a report.
pub data Complaint : Type 0 where
  several_statements : Complaint
  -- the message of the database, where it gave one
  syntax_error : Option Text → Complaint
  database_unavailable : Complaint
  not_permitted : Text → PermissionLevel → QueryCategory → Complaint

pub record Report : Type 0 where
  pub syntax_valid : Bool
  pub schema_valid : Option Bool
  pub category : Option QueryCategory
  pub multi_statement : Bool
  pub would_be_allowed : Bool
  pub estimated_rows_affected : Option Text
  pub errors : List Complaint
  pub warnings : List Warning

-- `query.replace(/\?/g, () => `$${++paramIdx}`)`
unfoldable pub number_params : ℕ → Text → Text
number_params i [] = []
number_params i (c ∷ s) =
    let rest = number_params (if c == b'?' then suc i else i) s in
    if c == b'?' then b'$' ∷ (print_ℕ (suc i) ++ rest) else c ∷ rest

-- `permissionAllows`
abbrev permission_allows : PermissionLevel → List QueryCategory
permission_allows read_only = read ∷ []
permission_allows read_write = read ∷ write ∷ []
permission_allows admin = read ∷ write ∷ ddl ∷ []

abbrev same_category : QueryCategory → QueryCategory → Bool
same_category read read = true
same_category write write = true
same_category ddl ddl = true
same_category _ _ = false

-- `allowed.has(category)`
unfoldable pub is_permitted : PermissionLevel → QueryCategory → Bool
is_permitted level category = any (same_category category) (permission_allows level)

abbrev initial : Report
initial = record {
  syntax_valid = true;
  schema_valid = none;
  category = none;
  multi_statement = false;
  would_be_allowed = true;
  estimated_rows_affected = none;
  errors = [];
  warnings = [];
}

abbrev complain : Complaint → Report → Report
complain complaint r = record r { errors = r.errors ++ complaint ∷ [] }

unfoldable pub note_statements : Bool → Report → Report
note_statements true r =
    complain several_statements (record r { multi_statement = true; would_be_allowed = false })
note_statements false r = r

-- The answer of the database on a statement that the parser rejected.
abbrev note_validation : Report → Validation → Report
note_validation r answer =
    if answer.valid
    then record r { syntax_valid = true; schema_valid = some true }
    else complain (syntax_error answer.error) (record r { syntax_valid = false })

abbrev note_unavailable : Report → Report
note_unavailable r = complain database_unavailable (record r { syntax_valid = false })

-- The classification, where the syntax is valid.
unfoldable pub note_category : ConnectionConfig → QueryCategory → Report → Report
note_category conn category r =
    let classified = record r { category = some category } in
    let refused =
      complain (not_permitted conn.name conn.permission category)
        (record classified { would_be_allowed = false }) in
    if not r.syntax_valid
    then record r { would_be_allowed = false }
    else if is_permitted conn.permission category
    then classified
    else refused

abbrev note_warnings : Report → List Warning → Report
note_warnings r [] = record r { schema_valid = some true }
note_warnings r (w ∷ ws) = record r { schema_valid = some false; warnings = r.warnings ++ w ∷ ws }

abbrev note_estimate : Report → Option Text → Report
note_estimate r none = r
note_estimate r (some n) = record r { estimated_rows_affected = some n }

-- `DELETE` or `UPDATE` without the letters `WHERE` anywhere
unfoldable pub affects_all : Text → Bool
affects_all query =
    let upper = to_upper (trim query) in
    (starts_with upper (codes "DELETE") || starts_with upper (codes "UPDATE"))
    && not (includes upper (codes "WHERE"))

abbrev note_all_rows : Text → Report → Report
note_all_rows query r =
    if affects_all query then record r { warnings = r.warnings ++ affects_all_rows ∷ [] } else r

-- The tree, with `null` for none, and whether there is one.
abbrev tree_of : Option Value → Value
tree_of none = null
tree_of (some v) = v

-- The first cell of the first row, as `Number(v) || 0`.
abbrev first_count : Conversions → List (List Value) → Option Text
first_count host [] = none
first_count host ([] ∷ rows) = none
first_count host ((v ∷ row) ∷ rows) =
    let n = host.to_number v in some (if truthy (num n) then n else codes "0")

module _ (astify : Text → Option Value) (host : Conversions) {W : Type 0} (backend : Backend W)
    (on_schema_fetched : Text → SchemaInfo → W → W) where
  -- The fallback to the database where the parser rejects the statement.
  abbrev check_syntax : ConnectionConfig → Text → Option Value → Report → Exec (Session W) Report
  check_syntax conn query (some tree) r = pure r
  check_syntax conn query none r =
      catch (do answer ← validate_query backend conn query; pure (note_validation r answer))
        (λ _. pure (note_unavailable r))

  unfoldable pub validate_schema_references :
      ConnectionConfig → Value → Report → Exec (Session W) Report
  validate_schema_references conn ast r =
      catch
        (do
          schema ← get_schema backend on_schema_fetched conn false none
          refs ← lift (references_of ast)
          pure (note_warnings r (reference_warnings schema refs)))
        (λ _. pure (record r { schema_valid = none }))

  abbrev check_references : ConnectionConfig → Value → Report → Exec (Session W) Report
  check_references conn ast r =
      if r.syntax_valid && truthy ast then validate_schema_references conn ast r else pure r

  abbrev count_with : ConnectionConfig → Option Text → Exec (Session W) (Option Text)
  count_with conn none = pure none
  count_with conn (some []) = pure none
  count_with conn (some (c ∷ s)) = do
    result ← execute backend conn (c ∷ s) none none
    pure (first_count host result.rows)

  unfoldable pub estimate_affected_rows :
      ConnectionConfig → Text → Value → Exec (Session W) (Option Text)
  estimate_affected_rows conn query ast =
      catch (count_with conn (build_count_query query ast)) (λ _. pure none)

  abbrev estimates : Report → Bool
  estimates r = elim r.category [
    | none ↦ false
    | some category ↦ r.syntax_valid && not r.multi_statement && changes_data category
  ]

  abbrev check_effects : ConnectionConfig → Text → Value → Report → Exec (Session W) Report
  check_effects conn query ast r =
      if estimates r
      then (do
        estimate ← estimate_affected_rows conn query ast
        pure (note_all_rows query (note_estimate r estimate)))
      else pure r

  -- What follows once the parser has answered.
  unfoldable pub report_on : ConnectionConfig → Text → Option Value → Exec (Session W) Report
  report_on conn query parsed = do
    checked ←
        check_syntax conn query parsed (note_statements (is_multi_statement astify query) initial)
    referenced ←
        check_references conn (tree_of parsed)
          (note_category conn (classify_query astify query) checked)
    check_effects conn query (tree_of parsed) referenced

  unfoldable pub handle_validate_query : OmnibaseConfig → Text → Text → Exec (Session W) Report
  handle_validate_query config connection query = do
    conn ← lift (get_connection config connection)
    lift (reject_if (is_blank (trim query)) invalid_query)
    report_on conn query (astify (number_params 0 query))

-- Opens what this file defines, to evaluate it on concrete inputs.
unfoldable pub validator_runs : Unit {0}
unfolding number_params is_permitted note_statements note_category affects_all
    validate_schema_references estimate_affected_rows report_on handle_validate_query count_runs
    references_run analyzer_runs config_runs manager_runs
validator_runs = tt
