-- ===== src/Manager/Audits.antt =====
-- The connection manager leaves the audit alone.
use omnibase.Prelude.{◌≡◌, Bool, Bool-cases, inl, inr, Option, none, some, List}
use omnibase.Text.{Text}
use omnibase.Values.{Value}
use omnibase.Collections.{lookup, has}
use omnibase.Types.{ConnectionConfig, SchemaInfo, ExecuteOptions}
use omnibase.Exec.{Result, ok, err, Exec}
use omnibase.Exec.Keeps.{Keeps, Keeps-pure, Keeps-bind, Keeps-modify}
use omnibase.Session.{Backend, Session, AuditEntry, perform}
use omnibase.Manager.{
  record_connection, ensure_connected, execute, answer, from_cache, cached, fetch_schema,
  get_schema,
}

module _ {W : Type 0} (backend : Backend W) (on_schema_fetched : Text → SchemaInfo → W → W)
    (entries : List AuditEntry) where
  -- What was audited so far.
  abbrev pub Audits : Session W → Type 0
  Audits s = s.audited ≡ entries

  Keeps-perform : {A : Type 0} (m : Exec W A) → Keeps Audits (perform m)
  Keeps-perform m = record { at = λ s h. h }

  record_connection-Audits :
      (name : Text) (r : Result Text) (s : Session W)
      → Audits s
      → Audits (record_connection backend name r s).1
  record_connection-Audits name (ok driver) s h = h
  record_connection-Audits name (err e) s h = h

  Keeps-connect : (conn : ConnectionConfig) → Keeps Audits (ensure_connected backend conn)
  unfolding ensure_connected
  Keeps-connect conn = record {
    at = λ s h. elim (Bool-cases (has conn.name s.manager.connected_ids)) [
      | inl old ↦ rw old h
      | inr fresh ↦
          let (r, s') = perform (backend.connect conn.name conn.dsn) s in
          rw fresh (record_connection-Audits conn.name r s' h)
    ];
  }

  pub Keeps-execute :
      (conn : ConnectionConfig) (sql : Text) (params : Option (List Value))
      (options : Option ExecuteOptions)
      → Keeps Audits (execute backend conn sql params options)
  unfolding execute
  Keeps-execute conn sql params options = Keeps-bind _ _ (Keeps-connect conn) (λ _. Keeps-perform _)

  Keeps-answer :
      (conn : ConnectionConfig) (exact : Option Bool) (found : Option SchemaInfo)
      → Keeps Audits (answer backend on_schema_fetched conn exact found)
  unfolding fetch_schema
  Keeps-answer conn exact none =
      Keeps-bind _ _ (Keeps-perform _)
        (λ schema. Keeps-bind _ _ (Keeps-modify _ (λ s h. h)) (λ _. Keeps-pure schema))
  Keeps-answer conn exact (some schema) = Keeps-pure schema

  Keeps-from_cache :
      (conn : ConnectionConfig) (force : Bool) (exact : Option Bool)
      → Keeps Audits (from_cache backend on_schema_fetched conn force exact)
  unfolding from_cache
  Keeps-from_cache conn force exact = record {
    at = λ s h.
        (Keeps-answer conn exact (cached force exact (lookup conn.name s.manager.schema_cache))).at
          s h;
  }

  pub Keeps-get_schema :
      (conn : ConnectionConfig) (force : Bool) (exact : Option Bool)
      → Keeps Audits (get_schema backend on_schema_fetched conn force exact)
  unfolding get_schema
  Keeps-get_schema conn force exact =
      Keeps-bind _ _ (Keeps-connect conn) (λ _. Keeps-from_cache conn force exact)
