-- ===== src/Tests/Clients.antt =====
-- The connection manager, the sidecar client, the schema tools and the formatters at concrete inputs.
use Prim.Native.Nat.{◌≤◌}
use omnibase.Prelude.{
  ◌-◌, ◌⊎◌, ℕ, ◌≡◌, refl, true, false, Option, none, some, List, [], ◌∷◌, length, All,
}
use omnibase.Text.{Text, codes}
use omnibase.Values.{str}
use omnibase.Collections.{has, lookup}
use omnibase.Types.{SchemaInfo, read_only, error, invalid_query}
use omnibase.Exec.{ok, err}
use omnibase.Manager.Overlap.{ask, answer_first, overlapping_uses-disagree}
use omnibase.Session.{Session, new_session}
use omnibase.Manager.{get_status, get_schema, manager_runs}
use omnibase.Manager.Status.{
  Operation, run_execute, sidecar_crash, after_all, is_connected, status_agrees,
}
use omnibase.Manager.Cache.{get_schema_twice}
use omnibase.Sidecar.{JsonRpcResponse, Client, new_client, start, send, on_exit, handle_response}
use omnibase.Sidecar.Requests.{
  starts, sends, reads, Steps, none_yet, then_step, settlements, was_sent, IsBalanced,
  Steps-IsBalanced, on_exit-settles,
}
use omnibase.Watcher.{Watcher, new_watcher, on_event, Reach, later, notes, stops}
use omnibase.Watcher
use omnibase.Watcher.Delivered.{IsValidated, Reach-quiet_and_valid}
use omnibase.Updates.{newer, same, compare_versions, is_major_change, updates_run}
use omnibase.Sidecar.Answers.{query_result}
use omnibase.Tests.Fixtures.{counting, conn_of, fresh, schema_of_db}

abbrev keeps_world : Text → SchemaInfo → ℕ → ℕ
keeps_world name schema world = world

abbrev crash_after_query : List (Operation counting keeps_world)
crash_after_query =
    run_execute (conn_of read_only) (codes "select 1") none none ∷ sidecar_crash ∷ []

status_agrees_example :
    has
      (codes "db")
      (after_all counting keeps_world crash_after_query (new_session 0)).manager.connected_ids
    ≡ is_connected (
        get_status
          (after_all counting keeps_world crash_after_query (new_session 0)).manager
          (codes "db"))
status_agrees_example = status_agrees counting keeps_world crash_after_query 0 (codes "db")

abbrev fetched : Session ℕ
fetched = (get_schema counting keeps_world (conn_of read_only) true (some true) fresh).1

get_schema_twice_example :
    get_schema counting keeps_world (conn_of read_only) false none fetched
    ≡ (ok schema_of_db, fetched)
unfolding manager_runs
get_schema_twice_example =
    get_schema_twice counting keeps_world (conn_of read_only) true (some true) fresh fetched
      schema_of_db refl

-- Two requests, the first of them answered.
abbrev parse : Text → Option JsonRpcResponse
parse line = some (record { id = some 1; result = str line; error = none })

abbrev two_sent : Client
two_sent = send (send (start new_client))

abbrev one_answered : Client
one_answered = handle_response parse (codes "hi") two_sent

one_answered-Steps : Steps parse new_client one_answered
one_answered-Steps =
    then_step two_sent one_answered
      (then_step (send (start new_client)) two_sent
        (then_step (start new_client) (send (start new_client))
          (then_step new_client (start new_client) none_yet (starts new_client))
          (sends (start new_client)))
        (sends (send (start new_client))))
      (reads (codes "hi") two_sent)

Steps-IsBalanced_example : IsBalanced one_answered
Steps-IsBalanced_example = Steps-IsBalanced parse one_answered one_answered-Steps

on_exit-settles_example :
    settlements 2 (on_exit one_answered).settled ≡ was_sent 2 one_answered.request_id
on_exit-settles_example = on_exit-settles parse one_answered one_answered-Steps 2

-- A file changes twice before the timer fires, and is then no longer watched.
abbrev noticed : Watcher
noticed = on_event (on_event (Watcher.start new_watcher))

stopped-Reach : Reach (Watcher.stop noticed)
unfolding Watcher.start on_event
stopped-Reach =
    later {w = noticed}
      (later {w = on_event (Watcher.start new_watcher)}
        (later {w = Watcher.start new_watcher} (later Watcher.fresh (Watcher.starts refl))
          (notes refl))
        (notes refl))
      stops

Reach-quiet_and_valid_example :
    (length (Watcher.stop noticed).armed ≤ 1)
    × (((Watcher.stop noticed).watching ≡ true) ⊎ ((Watcher.stop noticed).armed ≡ []))
    × All IsValidated (Watcher.stop noticed).notices
Reach-quiet_and_valid_example = Reach-quiet_and_valid (Watcher.stop noticed) stopped-Reach

-- A version with a suffix has no number as its last part.
abbrev digit_of : Text → Option ℕ
digit_of (c ∷ []) = some (c - 48)
digit_of _ = none

version_tests :
    (compare_versions digit_of (codes "1.3.0") (codes "1.2.9") ≡ newer)
    × (compare_versions digit_of (codes "1.2.0-beta") (codes "1.2.9") ≡ same)
    × (is_major_change digit_of (codes "1.2.9") (codes "2.0.0") ≡ true)
unfolding updates_run
version_tests = (refl, refl, refl)

answer_tests :
    (query_result (record {
      columns = none;
      rows = none;
      row_count = 0;
      has_more = false;
      affected_rows = some 3;
      last_insert_id = none;
    })).affected_rows
    ≡ some 3
unfolding query_result
answer_tests = refl

overlapping_uses-disagree_example :
    let asked =
      ask (codes "db") (ask (codes "db") (record { manager = fresh.manager; waiting = [] })) in
    let m' =
      (answer_first (err invalid_query) (answer_first (ok (codes "sqlite")) asked)).manager in
    (has (codes "db") m'.connected_ids ≡ true) × (lookup (codes "db") m'.status_map ≡ some error)
unfolding manager_runs
overlapping_uses-disagree_example =
    overlapping_uses-disagree (codes "db") (codes "sqlite") invalid_query fresh.manager refl
