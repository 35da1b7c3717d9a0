-- ===== src/Validator/Verdict.antt =====
-- The verdict of a validation.
use omnibase.Prelude.{
  ◌≡◌, refl, sym, ◌∙◌, Bool, true, false, not, ◌&&◌, Bool-cases, Option, none, some, List, [], ◌∷◌,
  inl, inr, arith,
}
use omnibase.Text.{Text, trim}
use omnibase.Values.{Value, Conversions, truthy}
use omnibase.Types.{QueryCategory, ConnectionConfig, SchemaInfo, OmnibaseConfig, invalid_query}
use omnibase.Exec.{ok, Exec, pure, lift, ◌>>=◌}
use omnibase.Exec.Laws.{continue-eq-ok, ok-injective}
use omnibase.Exec.Yields.{
  Yields, Yields-pure, Yields-bind, Yields-after, Yields-catch, Yields-if, Yields-weaken,
}
use omnibase.Exec.Pure.{reject_if}
use omnibase.Analyzer.{classify_query, is_multi_statement}
use omnibase.Config.{get_connection}
use omnibase.Session.{Backend, Session, Validation}
use omnibase.Manager.{get_schema, validate_query}
use omnibase.ExecuteSql.Checks.{is_blank}
use omnibase.Validator.References.{Warning, References, references_of, reference_warnings}
use omnibase.Validator.{
  Report, initial, number_params, is_permitted, note_statements, note_validation, note_unavailable,
  note_category, note_warnings, note_estimate, note_all_rows, tree_of, check_syntax,
  validate_schema_references, check_references, estimate_affected_rows, check_effects, estimates,
  affects_all, report_on, handle_validate_query,
}

-- The later report judges as the earlier one does.
abbrev Agrees : Report → Report → Type 0
Agrees r later =
    (later.syntax_valid ≡ r.syntax_valid) × (later.would_be_allowed ≡ r.would_be_allowed)

note_warnings-Agrees : (r : Report) (ws : List Warning) → Agrees r (note_warnings r ws)
note_warnings-Agrees r [] = (refl, refl)
note_warnings-Agrees r (w ∷ ws) = (refl, refl)

note_estimate-Agrees :
    (query : Text) (r : Report) (n : Option Text)
    → Agrees r (note_all_rows query (note_estimate r n))
note_estimate-Agrees query r n = elim (Bool-cases (affects_all query)) [
  | inl all ↦ rw all (estimate r n)
  | inr some_rows ↦ rw some_rows (estimate r n)
]
  where
    estimate : (r : Report) (n : Option Text) → Agrees r (note_estimate r n)
    estimate r none = (refl, refl)
    estimate r (some n) = (refl, refl)

note_validation-allowed :
    (r : Report) (answer : Validation)
    → (note_validation r answer).would_be_allowed ≡ r.would_be_allowed
note_validation-allowed r answer = elim (Bool-cases answer.valid) [
  | inl accepted ↦ rw accepted refl
  | inr rejected ↦ rw rejected refl
]

note_statements-allowed :
    (several : Bool) → (note_statements several initial).would_be_allowed ≡ not several
unfolding note_statements
note_statements-allowed true = refl
note_statements-allowed false = refl

-- The verdict on the permission, from what was noted before.
note_category-verdict :
    (conn : ConnectionConfig) (category : QueryCategory) (r : Report)
    → (note_category conn category r).would_be_allowed ≡ (
        (note_category conn category r).syntax_valid
        && (r.would_be_allowed && is_permitted conn.permission category))
unfolding note_category
note_category-verdict conn category r = ground arith

module _ (astify : Text → Option Value) (host : Conversions) {W : Type 0} (backend : Backend W)
    (on_schema_fetched : Text → SchemaInfo → W → W) (conn : ConnectionConfig) where
  check_syntax-allowed :
      (query : Text) (parsed : Option Value) (r : Report)
      → Yields
          (λ later. later.would_be_allowed ≡ r.would_be_allowed)
          (check_syntax astify host backend on_schema_fetched conn query parsed r)
  check_syntax-allowed query (some tree) r = Yields-pure r refl
  check_syntax-allowed query none r =
      let note : Validation → Exec (Session W) Report = λ answer. pure (note_validation r answer) in
      Yields-catch (validate_query backend conn query >>= note) (λ e. pure (note_unavailable r))
        (Yields-after (validate_query backend conn query) note
          (λ answer. Yields-pure _ (note_validation-allowed r answer)))
        (λ e. Yields-pure (note_unavailable r) refl)

  check_references-Agrees :
      (ast : Value) (r : Report)
      → Yields (Agrees r) (check_references astify host backend on_schema_fetched conn ast r)
  unfolding validate_schema_references
  check_references-Agrees ast r =
      let warn : SchemaInfo → References → Exec (Session W) Report =
        λ schema refs. pure (note_warnings r (reference_warnings schema refs)) in
      let extract : SchemaInfo → Exec (Session W) Report =
        λ schema. lift (references_of ast) >>= warn schema in
      Yields-if (r.syntax_valid && truthy ast)
        (validate_schema_references astify host backend on_schema_fetched conn ast r) (pure r)
        (Yields-catch (get_schema backend on_schema_fetched conn false none >>= extract)
          (λ e. pure (record r { schema_valid = none }))
          (Yields-after (get_schema backend on_schema_fetched conn false none) extract (λ schema.
            Yields-after (lift (references_of ast)) (warn schema)
              (λ refs. Yields-pure _ (note_warnings-Agrees r (reference_warnings schema refs)))))
          (λ e. Yields-pure (record r { schema_valid = none }) (refl, refl)))
        (Yields-pure r (refl, refl))

  check_effects-Agrees :
      (query : Text) (ast : Value) (r : Report)
      → Yields (Agrees r) (check_effects astify host backend on_schema_fetched conn query ast r)
  check_effects-Agrees query ast r =
      let estimating =
        estimate_affected_rows astify host backend on_schema_fetched conn query ast in
      let note : Option Text → Exec (Session W) Report =
        λ n. pure (note_all_rows query (note_estimate r n)) in
      Yields-if (estimates astify host backend on_schema_fetched r) (estimating >>= note) (pure r)
        (Yields-after estimating note (λ n. Yields-pure _ (note_estimate-Agrees query r n)))
        (Yields-pure r (refl, refl))

  -- A report's verdict: valid syntax, one statement, and a category that the connection permits.
  abbrev IsVerdict : Text → Report → Type 0
  IsVerdict query r = r.would_be_allowed ≡ (
      r.syntax_valid
      && (not (is_multi_statement astify query)
          && is_permitted conn.permission (classify_query astify query)))

  report_on-IsVerdict :
      (query : Text) (parsed : Option Value)
      → Yields (IsVerdict query) (report_on astify host backend on_schema_fetched conn query parsed)
  unfolding report_on
  report_on-IsVerdict query parsed =
      let several = is_multi_statement astify query in
      let category = classify_query astify query in
      let effects : Report → Exec (Session W) Report =
        check_effects astify host backend on_schema_fetched conn query (tree_of parsed) in
      let references : Report → Exec (Session W) Report = λ r.
        check_references astify host backend on_schema_fetched conn (tree_of parsed)
          (note_category conn category r) in
      Yields-bind (λ r. r.would_be_allowed ≡ (note_statements several initial).would_be_allowed)
        (check_syntax astify host backend on_schema_fetched conn query parsed
          (note_statements several initial))
        (λ r. references r >>= effects)
        (check_syntax-allowed query parsed (note_statements several initial))
        (λ checked allowed.
          Yields-bind (Agrees (note_category conn category checked)) (references checked) effects
            (check_references-Agrees (tree_of parsed) (note_category conn category checked))
            (λ referenced (valid, kept).
              Yields-weaken (effects referenced)
                (check_effects-Agrees query (tree_of parsed) referenced)
                (λ later (valid', kept').
                  kept' ∙ kept ∙ note_category-verdict conn category checked ∙ (λ i.
                    sym (valid' ∙ valid) i
                    && ((allowed ∙ note_statements-allowed several) i
                        && is_permitted conn.permission category)))))

  -- The report of a validation that answered says that the statement would be allowed exactly where
  -- its syntax was found valid, it is a single statement, and the permission of the connection
  -- covers its category.
  pub handle_validate_query-verdict :
      (config : OmnibaseConfig) (connection query : Text) (s s' : Session W) (report : Report)
      → get_connection config connection ≡ ok conn
      → handle_validate_query astify host backend on_schema_fetched config connection query s
        ≡ (ok report, s')
      → report.would_be_allowed ≡ (
          report.syntax_valid
          && (not (is_multi_statement astify query)
              && is_permitted conn.permission (classify_query astify query)))
  unfolding handle_validate_query
  handle_validate_query-verdict config connection query s s' report found run =
      let (named, is_named, rest) =
        continue-eq-ok _ (get_connection config connection) s s' report run in
      let (_, visible, after) =
        continue-eq-ok _ (reject_if (is_blank (trim query)) invalid_query) s s' report rest in
      let same : named ≡ conn = ok-injective (sym is_named ∙ found) in
      (report_on-IsVerdict query (astify (number_params 0 query))).at s s' report
        (rw (← same) after)
