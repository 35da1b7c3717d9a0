-- ===== src/Manager/Status.antt =====
-- The status that a connection shows agrees with the set of established connections.
use omnibase.Prelude.{
  ◌≡◌, refl, Bool, true, false, Option, none, some, List, [], ◌∷◌, arith, or_else, Bool-cases, inl,
  inr,
}
use omnibase.Text.{Text}
use omnibase.Values.{Value}
use omnibase.Text.Laws.{text_eq_iff}
use omnibase.Collections.{Map, lookup, has}
use omnibase.Collections.Laws.{lookup-insert, has-add, has-remove}
use omnibase.Types.{
  ConnectionConfig, ConnectionStatus, available, connected, error, SchemaInfo, ExecuteOptions,
}
use omnibase.Exec.{Result, ok, err, Exec, pure}
use omnibase.Exec.Keeps.{Keeps, Keeps-pure, Keeps-bind, Keeps-modify, Keeps-catch}
use omnibase.Session.{Backend, Manager, Session, perform, new_manager, new_session, on_manager}
use omnibase.Manager.{
  get_status, answer, cached, from_cache, add_connection, drop_connection, set_status,
  all_available, handle_sidecar_crash, invalidate_schema_cache, record_connection, ensure_connected,
  execute, explain_query, validate_query, ping, disconnect, disconnect_all, fetch_schema,
  get_schema,
}

abbrev pub is_connected : ConnectionStatus → Bool
is_connected connected = true
is_connected _ = false

-- A connection shows "connected" exactly when it is established.
pub record IsCoherent (m : Manager) : Type 0 where
  pub agrees : (n : Text) → has n m.connected_ids ≡ is_connected (get_status m n)

pub new-IsCoherent : IsCoherent new_manager
new-IsCoherent = record { agrees = λ n. unfold has lookup in refl }

add-IsCoherent :
    (name driver : Text) (m : Manager) → IsCoherent m → IsCoherent (add_connection name driver m)
add-IsCoherent name driver m h = record {
  agrees = λ n. ground (
    arith,
    h.agrees n,
    has-add name n m.connected_ids,
    lookup-insert name n connected m.status_map,
  );
}

error-IsCoherent :
    (name : Text) (m : Manager)
    → has name m.connected_ids ≡ false
    → IsCoherent m
    → IsCoherent (set_status name error m)
error-IsCoherent name m fresh h = record {
  agrees =
      λ n. ground (arith, h.agrees n, text_eq_iff name n, lookup-insert name n error m.status_map);
}

drop-IsCoherent : (name : Text) (m : Manager) → IsCoherent m → IsCoherent (drop_connection name m)
drop-IsCoherent name m h = record {
  agrees = λ n. ground (
    arith,
    h.agrees n,
    has-remove name n m.connected_ids,
    lookup-insert name n available m.status_map,
  );
}

lookup-all_available :
    (n : Text) (m : Map ConnectionStatus)
    → or_else (lookup n (all_available m)) available ≡ available
unfolding lookup all_available
lookup-all_available n [] = refl
lookup-all_available n ((j, s) ∷ m) = ground (arith, lookup-all_available n m)

pub crash-IsCoherent : (m : Manager) → IsCoherent (handle_sidecar_crash m)
unfolding handle_sidecar_crash
crash-IsCoherent m = record {
  agrees = λ n. unfold has in rw (lookup-all_available n m.status_map) refl;
}

module _ {W : Type 0} (backend : Backend W) (on_schema_fetched : Text → SchemaInfo → W → W) where
  abbrev IsCoherentIn : Session W → Type 0
  IsCoherentIn s = IsCoherent s.manager

  Keeps-perform : {A : Type 0} (m : Exec W A) → Keeps IsCoherentIn (perform m)
  Keeps-perform m = record { at = λ s h. h }

  record_connection-IsCoherent :
      (name : Text) (r : Result Text) (s : Session W)
      → has name s.manager.connected_ids ≡ false
      → IsCoherentIn s
      → IsCoherentIn (record_connection backend name r s).1
  record_connection-IsCoherent name (ok driver) s fresh h = add-IsCoherent name driver s.manager h
  record_connection-IsCoherent name (err e) s fresh h = error-IsCoherent name s.manager fresh h

  Keeps-ensure_connected :
      (config : ConnectionConfig) → Keeps IsCoherentIn (ensure_connected backend config)
  unfolding ensure_connected
  Keeps-ensure_connected config = record {
    at = λ s h. elim (Bool-cases (has config.name s.manager.connected_ids)) [
      | inl old ↦ rw old h
      | inr fresh ↦
          let (r, s') = perform (backend.connect config.name config.dsn) s in
          rw fresh (record_connection-IsCoherent config.name r s' fresh h)
    ];
  }

  Keeps-disconnect : (config : ConnectionConfig) → Keeps IsCoherentIn (disconnect backend config)
  unfolding disconnect
  Keeps-disconnect config =
      Keeps-bind _ _ (Keeps-perform _)
        (λ _. Keeps-modify _ (λ s h. drop-IsCoherent config.name s.manager h))

  Keeps-disconnect_all :
      (configs : List ConnectionConfig) → Keeps IsCoherentIn (disconnect_all backend configs)
  unfolding disconnect_all
  Keeps-disconnect_all [] = record { at = λ s h. h }
  Keeps-disconnect_all (config ∷ configs) = record {
    at = λ s h.
        (Keeps-disconnect_all configs).at _
          (elim (Bool-cases (has config.name s.manager.connected_ids)) [
            | inl old ↦ rw old (
                (Keeps-catch (disconnect backend config) (λ _. pure tt) (Keeps-disconnect config)
                    (λ e. Keeps-pure tt)).at
                  s h)
            | inr gone ↦ rw gone h
          ]);
  }

  Keeps-fetch_schema :
      (config : ConnectionConfig) (exact : Option Bool)
      → Keeps IsCoherentIn (fetch_schema backend on_schema_fetched config exact)
  unfolding fetch_schema
  Keeps-fetch_schema config exact = Keeps-bind _ _ (Keeps-perform _) (λ schema.
      Keeps-bind _ _ (Keeps-modify _ (λ s h. record { agrees = h.agrees }))
        (λ _. Keeps-pure schema))

  Keeps-answer :
      (config : ConnectionConfig) (exact : Option Bool) (found : Option SchemaInfo)
      → Keeps IsCoherentIn (answer backend on_schema_fetched config exact found)
  Keeps-answer config exact none = Keeps-fetch_schema config exact
  Keeps-answer config exact (some schema) = Keeps-pure schema

  Keeps-from_cache :
      (config : ConnectionConfig) (force : Bool) (exact : Option Bool)
      → Keeps IsCoherentIn (from_cache backend on_schema_fetched config force exact)
  unfolding from_cache
  Keeps-from_cache config force exact = record {
    at = λ s h.
        (Keeps-answer config exact
            (cached force exact (lookup config.name s.manager.schema_cache))).at
          s h;
  }

  -- What the server and the handlers ask of the manager.
  pub data Operation : Type 0 where
    run_execute : ConnectionConfig → Text → Option (List Value) → Option ExecuteOptions → Operation
    run_get_schema : ConnectionConfig → Bool → Option Bool → Operation
    run_explain_query : ConnectionConfig → Text → Option Bool → Operation
    run_validate_query : ConnectionConfig → Text → Operation
    run_ping run_disconnect : ConnectionConfig → Operation
    run_disconnect_all : List ConnectionConfig → Operation
    run_invalidate : Text → Operation
    sidecar_crash : Operation

  -- The session after an operation, whether it returned or threw.
  unfoldable pub after : Operation → Session W → Session W
  after (run_execute config query params options) s =
      (execute backend config query params options s).1
  after (run_get_schema config force exact) s =
      (get_schema backend on_schema_fetched config force exact s).1
  after (run_explain_query config query analyze) s =
      (explain_query backend config query analyze s).1
  after (run_validate_query config query) s = (validate_query backend config query s).1
  after (run_ping config) s = (ping backend config s).1
  after (run_disconnect config) s = (disconnect backend config s).1
  after (run_disconnect_all configs) s = (disconnect_all backend configs s).1
  after (run_invalidate name) s = on_manager (invalidate_schema_cache name) s
  after sidecar_crash s = on_manager handle_sidecar_crash s

  after-IsCoherent : (o : Operation) (s : Session W) → IsCoherentIn s → IsCoherentIn (after o s)
  unfolding after execute explain_query validate_query ping get_schema invalidate_schema_cache
  after-IsCoherent (run_execute config query params options) s h =
      (Keeps-bind _ _ (Keeps-ensure_connected config) (λ _. Keeps-perform _)).at s h
  after-IsCoherent (run_get_schema config force exact) s h =
      (Keeps-bind _ _ (Keeps-ensure_connected config) (λ _. Keeps-from_cache config force exact)).at
        s h
  after-IsCoherent (run_explain_query config query analyze) s h =
      (Keeps-bind _ _ (Keeps-ensure_connected config) (λ _. Keeps-perform _)).at s h
  after-IsCoherent (run_validate_query config query) s h =
      (Keeps-bind _ _ (Keeps-ensure_connected config) (λ _. Keeps-perform _)).at s h
  after-IsCoherent (run_ping config) s h =
      (Keeps-bind _ _ (Keeps-ensure_connected config) (λ _. Keeps-perform _)).at s h
  after-IsCoherent (run_disconnect config) s h = (Keeps-disconnect config).at s h
  after-IsCoherent (run_disconnect_all configs) s h = (Keeps-disconnect_all configs).at s h
  after-IsCoherent (run_invalidate name) s h = record { agrees = h.agrees }
  after-IsCoherent sidecar_crash s h = crash-IsCoherent s.manager

  unfoldable pub after_all : List Operation → Session W → Session W
  after_all [] s = s
  after_all (o ∷ os) s = after_all os (after o s)

  after_all-IsCoherent :
      (os : List Operation) (s : Session W) → IsCoherentIn s → IsCoherentIn (after_all os s)
  unfolding after_all
  after_all-IsCoherent [] s h = h
  after_all-IsCoherent (o ∷ os) s h = after_all-IsCoherent os (after o s) (after-IsCoherent o s h)

  -- From a new manager, after any operations, successful or failed, and any crashes of the sidecar,
  -- a connection shows the status "connected" exactly when its identifier is among the established
  -- ones.
  pub status_agrees :
      (os : List Operation) (world : W) (n : Text)
      → let m = (after_all os (new_session world)).manager in
        has n m.connected_ids ≡ is_connected (get_status m n)
  status_agrees os world n = (after_all-IsCoherent os (new_session world) new-IsCoherent).agrees n
