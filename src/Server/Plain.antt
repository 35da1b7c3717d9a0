-- ===== src/Server/Plain.antt =====
-- src/index.ts: the callbacks that answer with what their handlers return, or with the error, and
-- audit nothing themselves.
use omnibase.Prelude.{Bool, Option, List}
use omnibase.Text.{Text}
use omnibase.Values.{Value, Conversions}
use omnibase.Types.{SchemaInfo, OmnibaseConfig, QueryResult, FormattedQueryResult}
use omnibase.Exec.{Exec, pure, gets, catch, ◌>>=◌}
use omnibase.Session.{Backend, Session}
use omnibase.ExecuteSql.{Request, handle_execute_sql}
use omnibase.Formatter.{SearchResult}
use omnibase.Browse.{
  RowCount, SchemaView, IndexEntry, ConnectionInfo, TestResult, handle_list_connections,
  handle_test_connection, handle_get_schema, handle_list_tables, handle_search_schema,
  handle_get_indexes,
}
use omnibase.Relationships.{Relationship, TableNode, handle_get_relationships}
use omnibase.Explain.{handle_explain_query}
use omnibase.Validator.{Report, handle_validate_query}
use omnibase.Server.{Response, answered, error_response}

module _ {W : Type 0} where
  -- The shape of a callback: the handler, and the response.
  unfoldable pub plain_call : {A : Type 0} → Exec (Session W) A → Exec (Session W) (Response A)
  plain_call handler =
      catch (handler >>= λ result. pure (answered result)) (λ e. pure (error_response e))

  unfoldable pub call_list_connections :
      OmnibaseConfig → Exec (Session W) (Response (List ConnectionInfo))
  call_list_connections config = plain_call (gets (λ s. handle_list_connections config s.manager))

  module _ (backend : Backend W) where
    unfoldable pub call_test_connection :
        OmnibaseConfig → Text → Exec (Session W) (Response TestResult)
    call_test_connection config connection =
        plain_call (handle_test_connection backend config connection)

    unfoldable pub call_execute_sql :
        (Text → Option Value)
        → OmnibaseConfig
        → Request
        → Exec (Session W) (Response FormattedQueryResult)
    call_execute_sql astify config req = plain_call (handle_execute_sql astify backend config req)

    unfoldable pub call_explain_query :
        Conversions
        → OmnibaseConfig
        → Text
        → Text
        → Option Bool
        → Exec (Session W) (Response (List Text × QueryResult))
    call_explain_query host config connection query analyze =
        plain_call (handle_explain_query host backend config connection query analyze)

    module _ (on_schema_fetched : Text → SchemaInfo → W → W) where
      unfoldable pub call_get_schema :
          OmnibaseConfig
          → Text
          → Option (List Text)
          → Option Bool
          → Exec (Session W) (Response (SchemaView × List Text))
      call_get_schema config connection tables force_refresh =
          plain_call
            (handle_get_schema backend on_schema_fetched config connection tables force_refresh)

      unfoldable pub call_search_schema :
          OmnibaseConfig → Text → Text → Exec (Session W) (Response (List SearchResult))
      call_search_schema config connection query =
          plain_call (handle_search_schema backend on_schema_fetched config connection query)

      unfoldable pub call_list_tables :
          OmnibaseConfig
          → Text
          → Option Bool
          → Exec (Session W) (Response (List (Text × Text × RowCount)))
      call_list_tables config connection exact_counts =
          plain_call (handle_list_tables backend on_schema_fetched config connection exact_counts)

      unfoldable pub call_get_relationships :
          OmnibaseConfig
          → Text
          → Option Text
          → Exec (Session W) (Response (List Relationship × List TableNode))
      call_get_relationships config connection table =
          plain_call (handle_get_relationships backend on_schema_fetched config connection table)

      unfoldable pub call_get_indexes :
          OmnibaseConfig → Text → Option Text → Exec (Session W) (Response (List IndexEntry))
      call_get_indexes config connection table =
          plain_call (handle_get_indexes backend on_schema_fetched config connection table)

      unfoldable pub call_validate_query :
          (Text → Option Value)
          → Conversions
          → OmnibaseConfig
          → Text
          → Text
          → Exec (Session W) (Response Report)
      call_validate_query astify host config connection query =
          plain_call
            (handle_validate_query astify host backend on_schema_fetched config connection query)
