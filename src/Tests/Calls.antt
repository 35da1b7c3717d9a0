-- ===== src/Tests/Calls.antt =====
-- The audited calls of the server at concrete inputs.
use omnibase.Prelude.{ℕ, true, false, none, some}
use omnibase.Text.{Text, codes}
use omnibase.Types.{SchemaInfo, read_only}
use omnibase.Sampling.{pos}
use omnibase.Sampling.Stats.{Arithmetic}
use omnibase.Server.{call_get_sample, call_get_table_stats, call_get_distinct_values}
use omnibase.Server.Audited.{IsAudited, data_tools-IsAudited}
use omnibase.Tests.Fixtures.{host, counting, fresh, config_with}

abbrev stored : Text → SchemaInfo → ℕ → ℕ
stored name schema world = world

abbrev first_number : Arithmetic
first_number = record {
  gt = λ a b. false;
  ge = λ a b. true;
  min = λ a b. a;
  divide = λ a b. a;
  multiply = λ a b. a;
  round = λ a. a;
}

data_tools-IsAudited_example :
    IsAudited (codes "get_sample") (codes "db") fresh (
      call_get_sample counting stored
        (config_with read_only none)
        (codes "db")
        (codes "users")
        (some (pos 5))
        none
        none
        fresh)
    × IsAudited (codes "get_table_stats") (codes "db") fresh (
        call_get_table_stats counting stored host first_number
          (config_with read_only none)
          (codes "db")
          (codes "users")
          (some (pos 5))
          fresh)
    × IsAudited (codes "get_distinct_values") (codes "db") fresh (
        call_get_distinct_values counting stored host
          (config_with read_only none)
          (codes "db")
          (codes "users")
          (codes "id")
          (some (pos 5))
          fresh)
data_tools-IsAudited_example =
    data_tools-IsAudited counting stored host first_number (config_with read_only none) (codes "db")
      (codes "users") (codes "id") (some (pos 5)) none none fresh
