-- ===== src/Tests/Sql.antt =====
-- `execute_sql` at concrete requests.
use Prim.Native.Nat.{◌≤◌}
use omnibase.Prelude.{ℕ, ◌≡◌, refl, ◌⊎◌, true, none, some, [], ◌∷◌, length, arith}
use omnibase.Text.{codes}
use omnibase.Types.{ConnectionConfig, QueryCategory, FormattedQueryResult, Error, read_only}
use omnibase.Exec.{ok, err}
use omnibase.Config.{get_connection}
use omnibase.Values.{num}
use omnibase.Session.{Session, failed, audit}
use omnibase.ExecuteSql.{Request, entry, handle_execute_sql, execute_sql_runs}
use omnibase.ExecuteSql.Guards.{IsAuthorized, database_is_guarded, level_protects_database}
use omnibase.ExecuteSql.Paging.{IsRun, handle_execute_sql-IsRun, answer_within_limit}
use omnibase.Tests.Fixtures.{rejects, conn_of, counting, fresh, config_with, request}

abbrev drop_request : Request
drop_request = request (codes "drop table users")

database_is_guarded_example :
    ((conn : ConnectionConfig) × (category : QueryCategory) × (get_connection
          (config_with read_only none)
          drop_request.connection
        ≡ ok conn)
      × IsAuthorized rejects conn drop_request.query category)
    ⊎ (((handle_execute_sql rejects counting
            (config_with read_only none)
            drop_request
            fresh).1.world
          ≡ fresh.world)
        × ((handle_execute_sql rejects counting
              (config_with read_only none)
              drop_request
              fresh).1.manager
            ≡ fresh.manager))
database_is_guarded_example =
    database_is_guarded rejects counting (config_with read_only none) drop_request fresh

level_protects_database_example :
    (e : Error) × (handle_execute_sql rejects counting
        (config_with read_only none)
        drop_request
        fresh
      ≡ (err e, audit (entry (conn_of read_only) drop_request 0 failed (some e)) fresh))
unfolding execute_sql_runs
level_protects_database_example =
    level_protects_database rejects counting (config_with read_only none) (conn_of read_only)
      drop_request fresh refl (omega arith)

abbrev page_request : Request
page_request = request (codes "select id from users")

-- The answer of the small database to the request for the second row.
abbrev second_row : FormattedQueryResult
second_row = record {
  columns = codes "id" ∷ [];
  rows = (num (codes "2") ∷ []) ∷ [];
  row_count = 1;
  truncated = true;
  affected_rows = none;
  last_insert_id = none;
  page_offset = some 1;
}

abbrev paged : Session ℕ
paged = (handle_execute_sql rejects counting (config_with read_only none) page_request fresh).1

handle_execute_sql-IsRun_example :
    IsRun rejects counting (config_with read_only none) page_request fresh paged second_row
unfolding execute_sql_runs
handle_execute_sql-IsRun_example =
    handle_execute_sql-IsRun rejects counting (config_with read_only none) page_request fresh paged
      second_row refl

answer_within_limit_example : (length second_row.rows ≤ 1) × (second_row.row_count ≡ 1)
unfolding execute_sql_runs
answer_within_limit_example =
    answer_within_limit counting rejects (config_with read_only none) page_request fresh paged
      second_row (conn_of read_only) refl (omega arith) refl
