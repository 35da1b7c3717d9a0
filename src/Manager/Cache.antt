-- ===== src/Manager/Cache.antt =====
-- The cache of schemas.
use omnibase.Prelude.{◌≡◌, refl, Bool, true, false, Option, none, some, arith, Bool-cases, inl, inr}
use omnibase.Text.{Text}
use omnibase.Text.Laws.{text_eq_refl}
use omnibase.Collections.{lookup, has}
use omnibase.Collections.Laws.{lookup-insert, lookup-delete, has-add}
use omnibase.Types.{ConnectionConfig, SchemaInfo}
use omnibase.Exec.{Result, ok, err}
use omnibase.Exec.Laws.{>>=-eq-ok}
use omnibase.Session.{Backend, Session, perform, on_manager}
use omnibase.Manager.{
  record_connection, ensure_connected, invalidate_schema_cache, cached, answer, from_cache,
  fetch_schema, get_schema,
}

module _ {W : Type 0} (backend : Backend W) where
  record_connection-has :
      (name : Text) (r : Result Text) (s s' : Session W)
      → record_connection backend name r s ≡ (ok tt, s')
      → has name s'.manager.connected_ids ≡ true
  record_connection-has name (ok driver) s s' h =
      ground (arith, has-add name name s.manager.connected_ids, text_eq_refl name)
  record_connection-has name (err e) s s' h = cc

  ensure_connected-has :
      (config : ConnectionConfig) (s s' : Session W)
      → ensure_connected backend config s ≡ (ok tt, s')
      → has config.name s'.manager.connected_ids ≡ true
  unfolding ensure_connected
  ensure_connected-has config s s' h = elim (Bool-cases (has config.name s.manager.connected_ids)) [
    | inl old ↦ ground arith
    | inr fresh ↦
        let (r, s1) = perform (backend.connect config.name config.dsn) s in
        record_connection-has config.name r s1 s' (rw fresh at h)
  ]

  module _ (on_schema_fetched : Text → SchemaInfo → W → W) where
    get_schema_cached :
        (config : ConnectionConfig) (s : Session W) (schema : SchemaInfo)
        → has config.name s.manager.connected_ids ≡ true
        → lookup config.name s.manager.schema_cache ≡ some schema
        → get_schema backend on_schema_fetched config false none s ≡ (ok schema, s)
    unfolding get_schema ensure_connected
    get_schema_cached config s schema connected found = rw connected (rw (found, answer) refl)

    fetch_schema_stores :
        (config : ConnectionConfig) (exact : Option Bool) (s s' : Session W) (schema : SchemaInfo)
        → has config.name s.manager.connected_ids ≡ true
        → fetch_schema backend on_schema_fetched config exact s ≡ (ok schema, s')
        → (has config.name s'.manager.connected_ids ≡ true)
          × (lookup config.name s'.manager.schema_cache ≡ some schema)
    unfolding fetch_schema
    fetch_schema_stores config exact s s' schema connected h = ground (
      arith,
      lookup-insert config.name config.name schema s.manager.schema_cache,
      text_eq_refl config.name,
    )

    answer_stores :
        (config : ConnectionConfig) (exact : Option Bool) (found : Option SchemaInfo)
        (s s' : Session W) (schema : SchemaInfo)
        → ((known : SchemaInfo)
            → found ≡ some known
            → lookup config.name s.manager.schema_cache ≡ some known)
        → has config.name s.manager.connected_ids ≡ true
        → answer backend on_schema_fetched config exact found s ≡ (ok schema, s')
        → (has config.name s'.manager.connected_ids ≡ true)
          × (lookup config.name s'.manager.schema_cache ≡ some schema)
    answer_stores config exact none s s' schema hit connected h =
        fetch_schema_stores config exact s s' schema connected h
    answer_stores config exact (some known) s s' schema hit connected h =
        ground (arith, hit known refl)

    cached_hit :
        (force : Bool) (exact : Option Bool) (found : Option SchemaInfo) (known : SchemaInfo)
        → cached force exact found ≡ some known
        → found ≡ some known
    cached_hit false none found known h = h
    cached_hit false (some _) found known h = cc
    cached_hit true _ found known h = cc

    -- After a `getSchema` that returned, however it was asked, a plain `getSchema` of the same
    -- connection returns the same schema, asks the database nothing and changes nothing.
    pub get_schema_twice :
        (config : ConnectionConfig) (force : Bool) (exact : Option Bool) (s s' : Session W)
        (schema : SchemaInfo)
        → get_schema backend on_schema_fetched config force exact s ≡ (ok schema, s')
        → get_schema backend on_schema_fetched config false none s' ≡ (ok schema, s')
    unfolding get_schema
    get_schema_twice config force exact s s' schema h =
        let (_, t, connecting, rest) =
          >>=-eq-ok (ensure_connected backend config)
            (λ _. from_cache backend on_schema_fetched config force exact) s s' schema h in
        let (connected, stored) =
          answer_stores config exact
            (cached force exact (lookup config.name t.manager.schema_cache)) t s' schema
            (λ known e. cached_hit force exact _ known e)
            (ensure_connected-has config s t connecting) rest in
        get_schema_cached config s' schema connected stored

    -- Once the cache is invalidated, a plain `getSchema` of an established connection fetches from
    -- the database.
    pub get_schema-invalidate :
        (config : ConnectionConfig) (s : Session W)
        → has config.name s.manager.connected_ids ≡ true
        → let s' = on_manager (invalidate_schema_cache config.name) s in
          get_schema backend on_schema_fetched config false none s'
          ≡ fetch_schema backend on_schema_fetched config none s'
    unfolding get_schema ensure_connected invalidate_schema_cache
    get_schema-invalidate config s connected = rw connected (
        rw (lookup-delete config.name config.name s.manager.schema_cache)
          (rw (text_eq_refl config.name) refl))
