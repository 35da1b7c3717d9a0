-- ===== src/Tools/Steps/Locks.antt =====
-- The transaction lock of a run: released whatever the steps do, kept where BEGIN itself fails.
use omnibase.Prelude.{
  ◌≡◌, refl, ap, ◌∙◌, ◌⊎◌, inl, inr, false, Option, none, some, List, [], ◌∷◌, ◌++◌, Bool-cases,
  arith,
}
use omnibase.Text.{Text, codes}
use omnibase.Text.Laws.{text_eq_refl}
use omnibase.Values.{Value, Conversions}
use omnibase.Collections.{Map, has, add, remove}
use omnibase.Types.{
  ConnectionConfig, OmnibaseConfig, CustomToolConfig, QueryResult, ExecuteOptions, Error,
}
use omnibase.Exec.{Result, ok, err, Exec, modify, ◌>>◌}
use omnibase.Exec.Laws.{Result-cases}
use omnibase.Exec.Keeps.{
  Keeps, Keeps-pure, Keeps-throw, Keeps-bind, Keeps-modify, Keeps-catch, Keeps-when,
}
use omnibase.Analyzer.{classify_query}
use omnibase.ExecuteSql.Checks.{changes_data}
use omnibase.Config.{get_connection}
use omnibase.Session.{Backend, Session, perform, on_manager}
use omnibase.Manager.{execute, ensure_connected, record_connection, invalidate_schema_cache}
use omnibase.Tools.Prepare.{Prepared, execution_options, check_steps_allowed}
use omnibase.Tools.TempTables.{temp_table}
use omnibase.Tools.Steps.Locked.{acquire_transaction_lock, execute_steps_raw}
use omnibase.Tools.Steps.{
  Run, start, in_session, remember, track, hold_lock, command, ignored, invalidate, run_steps,
  guarded_steps, drop_temp_tables, transaction, begun_steps,
}

remove-absent :
    (name : Text) (names : List Text) → has name names ≡ false → remove name names ≡ names
unfolding has remove
remove-absent name [] h = refl
remove-absent name (n ∷ names) h = ground (arith, remove-absent name names)

remove-append :
    (name : Text) (names : List Text)
    → has name names ≡ false
    → remove name (names ++ name ∷ []) ≡ names
unfolding has remove
remove-append name [] h = rw (text_eq_refl name) refl
remove-append name (n ∷ names) h = ground (arith, remove-append name names)

-- Releasing gives back the locks from before acquiring.
remove-add :
    (name : Text) (names : List Text)
    → has name names ≡ false
    → remove name (add name names) ≡ names
unfolding add
remove-add name names h = rw h (remove-append name names h)

module _ {W : Type 0} (astify : Text → Option Value) (backend : Backend W) (names : List Text) where
  abbrev pub Holds : Session W → Type 0
  Holds s = s.locked ≡ names

  abbrev HoldsIn : Run W → Type 0
  HoldsIn run = Holds run.session

  record_connection-Holds :
      (name : Text) (r : Result Text) (s : Session W)
      → Holds s
      → Holds (record_connection backend name r s).1
  record_connection-Holds name (ok driver) s h = h
  record_connection-Holds name (err e) s h = h

  Keeps-ensure_connected : (conn : ConnectionConfig) → Keeps Holds (ensure_connected backend conn)
  unfolding ensure_connected
  Keeps-ensure_connected conn = record {
    at = λ s h. elim (Bool-cases (has conn.name s.manager.connected_ids)) [
      | inl old ↦ rw old h
      | inr fresh ↦
          let (r, s') = perform (backend.connect conn.name conn.dsn) s in
          rw fresh (record_connection-Holds conn.name r s' h)
    ];
  }

  pub Keeps-execute :
      (conn : ConnectionConfig) (sql : Text) (params : Option (List Value))
      (options : Option ExecuteOptions)
      → Keeps Holds (execute backend conn sql params options)
  unfolding execute
  Keeps-execute conn sql params options =
      Keeps-bind _ _ (Keeps-ensure_connected conn) (λ _. record { at = λ s h. h })

  Keeps-in_session :
      {A : Type 0} (m : Exec (Session W) A) → Keeps Holds m → Keeps HoldsIn (in_session m)
  Keeps-in_session m k = record { at = λ run h. k.at run.session h }

  track-HoldsIn : (table : Option Text) (run : Run W) → HoldsIn run → HoldsIn (track table run)
  track-HoldsIn none run h = h
  track-HoldsIn (some table) run h = h

  Keeps-invalidate :
      (conn : ConnectionConfig) (sql : Text) → Keeps Holds (invalidate astify backend conn sql)
  Keeps-invalidate conn sql =
      Keeps-when (changes_data (classify_query astify sql))
        (modify (on_manager (invalidate_schema_cache conn.name)))
        (Keeps-modify (on_manager (invalidate_schema_cache conn.name)) (λ s h. h))

  -- What follows the statement of a step.
  Keeps-after_step :
      (conn : ConnectionConfig) (step : Prepared) (result : QueryResult)
      (rest : Exec (Run W) (Unit {0}))
      → Keeps HoldsIn rest
      → Keeps HoldsIn (
          modify (remember step result)
          >> (in_session (invalidate astify backend conn step.sql)
              >> (modify (track (temp_table step.sql)) >> rest)))
  Keeps-after_step conn step result rest k =
      Keeps-bind (modify (remember step result)) _
        (Keeps-modify (remember step result) (λ run h. h))
        (λ _.
          Keeps-bind (in_session (invalidate astify backend conn step.sql)) _
            (Keeps-in_session _ (Keeps-invalidate conn step.sql))
            (λ _.
              Keeps-bind (modify (track (temp_table step.sql))) _
                (Keeps-modify (track (temp_table step.sql)) (track-HoldsIn (temp_table step.sql)))
                (λ _. k)))

  Keeps-run_steps :
      (conn : ConnectionConfig) (options : ExecuteOptions) (steps : List Prepared)
      → Keeps HoldsIn (run_steps astify backend conn options steps)
  unfolding run_steps
  Keeps-run_steps conn options [] = Keeps-pure tt
  Keeps-run_steps conn options (step ∷ steps) =
      Keeps-bind (in_session (execute backend conn step.sql (some step.values) (some options))) _
        (Keeps-in_session _ (Keeps-execute conn step.sql (some step.values) (some options)))
        (λ result. Keeps-after_step conn step result _ (Keeps-run_steps conn options steps))

  Keeps-guarded_steps :
      (conn : ConnectionConfig) (options : ExecuteOptions) (steps : List Prepared)
      → Keeps HoldsIn (guarded_steps astify backend conn options steps)
  Keeps-guarded_steps conn options steps =
      Keeps-catch _ _
        (Keeps-bind _ _ (Keeps-run_steps conn options steps) (λ _.
          Keeps-bind _ _
            (Keeps-in_session _ (Keeps-execute conn (codes "COMMIT") (some []) (some options)))
            (λ _. Keeps-pure tt)))
        (λ e.
          Keeps-bind
            (in_session (ignored backend (command backend conn options (codes "ROLLBACK")))) _
            (Keeps-in_session (ignored backend (command backend conn options (codes "ROLLBACK")))
              (record { at = (Keeps-execute conn (codes "ROLLBACK") (some []) (some options)).at }))
            (λ _. Keeps-throw e))

  drop_temp_tables-Holds :
      (conn : ConnectionConfig) (options : ExecuteOptions) (tables : List Text) (s : Session W)
      → Holds s
      → Holds (drop_temp_tables backend conn options tables s)
  unfolding drop_temp_tables
  drop_temp_tables-Holds conn options [] s h = h
  drop_temp_tables-Holds conn options (table ∷ tables) s h =
      drop_temp_tables-Holds conn options tables _ (
        (Keeps-execute conn (codes "DROP TABLE IF EXISTS " ++ table) (some []) (some options)).at s
          h)

module _ {W : Type 0} (astify : Text → Option Value) (backend : Backend W) where
  -- A transaction ends with the lock of its connection released.
  transaction-releases :
      (conn : ConnectionConfig) (options : ExecuteOptions) (steps : List Prepared) (s : Session W)
      → (transaction astify backend conn options steps s).1.locked ≡ remove conn.name s.locked
  unfolding transaction
  transaction-releases conn options steps s =
      let run = (guarded_steps astify backend conn options steps (start s)).1 in
      let kept =
        (Keeps-guarded_steps astify backend s.locked conn options steps).at (start s) refl in
      ap (remove conn.name) (
        drop_temp_tables-Holds astify backend s.locked conn options run.temp_tables_created
          run.session kept)

  -- BEGIN as `begun_steps` sends it, behind the lock.
  abbrev pub begin :
      ConnectionConfig → CustomToolConfig → Session W → Result QueryResult × Session W
  begin conn tool s =
      command backend conn (execution_options conn tool) (codes "BEGIN") (hold_lock conn.name s)

  begin-locked :
      (conn : ConnectionConfig) (tool : CustomToolConfig) (s : Session W)
      → (begin conn tool s).1.locked ≡ add conn.name s.locked
  begin-locked conn tool s =
      (Keeps-execute astify backend (add conn.name s.locked) conn (codes "BEGIN") (some [])
          (some (execution_options conn tool))).at
        (hold_lock conn.name s) refl

  begun_steps-lock :
      (conn : ConnectionConfig) (tool : CustomToolConfig) (prepared : List Prepared) (s : Session W)
      → has conn.name s.locked ≡ false
      → let (r, s') = begun_steps astify backend conn tool prepared (hold_lock conn.name s) in
        (s'.locked ≡ s.locked)
        ⊎ ((e : Error) × ((begin conn tool s).0 ≡ err e)
            × (r ≡ err e)
            × (s'.locked ≡ add conn.name s.locked))
  begun_steps-lock conn tool prepared s free = elim (Result-cases (begin conn tool s).0) [
    | inl (r, begun) ↦ inl (
        rw begun (
          transaction-releases conn (execution_options conn tool) prepared (begin conn tool s).1
          ∙ ap (remove conn.name) (begin-locked conn tool s)
          ∙ remove-add conn.name s.locked free))
    | inr (e, failed) ↦ inr (e, failed, rw failed refl, rw failed (begin-locked conn tool s))
  ]

module _ {W : Type 0} (astify : Text → Option Value) (host : Conversions)
    (backend : Backend W) where
  -- The run has an outcome, and its lock is released or was left by a BEGIN that failed.
  abbrev pub EndsLocked :
      ConnectionConfig
      → CustomToolConfig
      → Session W
      → Option (Result QueryResult × Session W)
      → Type 0
  EndsLocked conn tool s outcome =
      (r : Result QueryResult) × (s' : Session W) × (outcome ≡ some (r, s'))
      × ((s'.locked ≡ s.locked)
          ⊎ ((e : Error) × ((begin astify backend conn tool s).0 ≡ err e)
              × (r ≡ err e)
              × (s'.locked ≡ add conn.name s.locked)))

  -- A run of a tool of several steps on a connection whose transaction lock is free has an outcome. It
  -- leaves the locks as they were, whatever the steps, COMMIT, ROLLBACK and the dropping of temporary
  -- tables do, or BEGIN failed, and then the run throws that error with the lock still held.
  pub execute_steps_raw-lock :
      (config : OmnibaseConfig) (conn : ConnectionConfig) (tool : CustomToolConfig)
      (args : Map Value) (s : Session W)
      → get_connection config tool.connection ≡ ok conn
      → has conn.name s.locked ≡ false
      → EndsLocked conn tool s (execute_steps_raw astify host backend config tool args s)
  unfolding execute_steps_raw acquire_transaction_lock
  execute_steps_raw-lock config conn tool args s found free =
      elim (Result-cases (check_steps_allowed astify host conn tool args)) [
        | inr (e, refused) ↦ (err e, s, rw (found, refused) refl, inl refl)
        | inl (prepared, allowed) ↦
            let (r, s') = begun_steps astify backend conn tool prepared (hold_lock conn.name s) in
            (
              r,
              s',
              rw (found, allowed, free) refl,
              begun_steps-lock astify backend conn tool prepared s free,
            )
      ]
