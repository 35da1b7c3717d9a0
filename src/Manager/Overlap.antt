-- ===== src/Manager/Overlap.antt =====
-- src/connection-manager.ts: `ensureConnected` of several callers that overlap. A caller looks whether
-- the connection is established, and where it is not, the answer of the sidecar comes later.
use omnibase.Prelude.{
  ◌≡◌, refl, true, false, inl, inr, some, List, [], ◌∷◌, ◌++◌, arith, if◌then◌else◌,
}
use omnibase.Text.{Text}
use omnibase.Text.Laws.{text_eq_refl}
use omnibase.Collections.{lookup, insert, has}
use omnibase.Collections.Laws.{has-add, lookup-insert}
use omnibase.Types.{ConnectionConfig, connected, error, Error}
use omnibase.Exec.{Result, ok, err}
use omnibase.Exec.Laws.{Result-cases}
use omnibase.Session.{Backend, Session, Manager}
use omnibase.Manager.{add_connection, set_status, ensure_connected}

-- The manager, and the callers that wait for the answer to their `connect`.
pub record Overlap : Type 0 where
  pub manager : Manager
  pub waiting : List Text

-- Up to the `await`.
unfoldable pub ask : Text → Overlap → Overlap
ask name o =
    let asked = record o { waiting = o.waiting ++ name ∷ [] } in
    if has name o.manager.connected_ids then o else asked

-- Behind the `await`: `finished` is the answer.
unfoldable pub finish : Text → Result Text → Manager → Manager
finish name (ok driver) m = add_connection name driver m
finish name (err e) m = set_status name error m

-- The answer to the caller that waits longest.
unfoldable pub answer_first : Result Text → Overlap → Overlap
answer_first r o = elim o.waiting [
  | [] ↦ o
  | name ∷ names ↦ record { manager = finish name r o.manager; waiting = names }
]

-- Where no callers overlap, asking and finishing are what `ensure_connected` does in one step.
pub finish-ensure_connected :
    {W : Type 0} (backend : Backend W) (conn : ConnectionConfig) (s : Session W)
    → has conn.name s.manager.connected_ids ≡ false
    → (ensure_connected backend conn s).1.manager
      ≡ finish conn.name (backend.connect conn.name conn.dsn s.world).0 s.manager
unfolding ensure_connected finish
finish-ensure_connected backend conn s fresh =
    elim (Result-cases (backend.connect conn.name conn.dsn s.world).0) [
      | inl (driver, connects) ↦ rw (fresh, connects) refl
      | inr (e, fails) ↦ rw (fresh, fails) refl
    ]

-- Two first uses of a connection overlap; the sidecar answers the first and fails the second. Then the
-- connection is established, and its status is nevertheless "error".
pub overlapping_uses-disagree :
    (name driver : Text) (e : Error) (m : Manager)
    → has name m.connected_ids ≡ false
    → let asked = ask name (ask name (record { manager = m; waiting = [] })) in
      let m' = (answer_first (err e) (answer_first (ok driver) asked)).manager in
      (has name m'.connected_ids ≡ true) × (lookup name m'.status_map ≡ some error)
unfolding ask finish answer_first
overlapping_uses-disagree name driver e m fresh =
    rw (fresh, fresh)
      (
        ground (arith, has-add name name m.connected_ids, text_eq_refl name),
        ground (
          arith,
          lookup-insert name name error (insert name connected m.status_map),
          text_eq_refl name,
        ),
      )
