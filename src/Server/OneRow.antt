-- ===== src/Server/OneRow.antt =====
-- A client library that gives one row, and a pool with one connection, for runs of the handlers of
-- Src/Servers/HttpServer/HttpServer.cpp.
use game_project_demo.Common.{ℕ, true, false, none, some, List, [], ◌∷◌, codes, Bool}
use game_project_demo.Database.Columns.{MysqlType, long, var_string}
use game_project_demo.Database.Connection.{Library, Connection, sync}
use game_project_demo.Database.Connection.Query.{QueryLibrary}
use game_project_demo.Database.Pool.Calls.{TaskPool}
use game_project_demo.Database.Results.{MySqlField, Row, ResultLibrary}
use game_project_demo.Database.Results.Buffered.{
  Cell, fetched, StmtLibrary, PreparedResultSet, new_prepared_result_set,
}
use game_project_demo.Database.Statement.Bind.{MySqlPreparedStatement, new_statement}
use game_project_demo.Server.UserInfo.{email_statement}

abbrev pub column : MysqlType → MySqlField
column type = record {
  org_table = codes "account";
  table = codes "account";
  org_name = codes "a";
  name = codes "a";
  type = type;
  unsigned = false;
  max_length = 2;
}

abbrev cells : List Cell
cells =
    some (4, 7 ∷ 0 ∷ 0 ∷ 0 ∷ [])
    ∷ some (1, codes "n")
    ∷ some (1, codes "e")
    ∷ some (4, 20 ∷ 0 ∷ 0 ∷ 0 ∷ [])
    ∷ some (1, codes "i")
    ∷ []

-- The state is the number of calls; a text query succeeds or fails.
abbrev pub client : Bool → Library ℕ
client succeeds = record {
  mysql_init = λ w. (true, w);
  mysql_real_connect = λ w. (true, w);
  mysql_setup = λ w. w;
  mysql_close = λ w. w;
  mysql_errno = λ h w. 0;
  mysql_query = λ sql w. (succeeds, w);
  mysql_stmt_init = λ w. (true, w);
  mysql_stmt_prepare = λ sql w. (true, w);
  mysql_stmt_param_count = λ sql w. 1;
  mysql_stmt_bind_param = λ sql params w. (true, w);
  mysql_stmt_execute = λ sql w. (true, w);
}

abbrev statements : StmtLibrary ℕ Row
statements = record {
  mysql_time = 40;
  mysql_fetch_fields = λ r.
      column long ∷ column var_string ∷ column var_string ∷ column long ∷ column var_string ∷ [];
  mysql_stmt_store_result = λ sql w. (true, w);
  mysql_stmt_num_rows = λ sql w. 1;
  mysql_stmt_bind_result = λ sql w. (true, w);
  mysql_stmt_fetch = λ sql w. (fetched cells, w);
  mysql_stmt_free_result = λ sql w. w;
}

abbrev second_row : Row
second_row =
    some (codes "7")
    ∷ some (codes "n")
    ∷ some (codes "e")
    ∷ some (codes "20")
    ∷ some (codes "i")
    ∷ []

abbrev pub queries : QueryLibrary ℕ Row
queries = record {
  statements = statements;
  mysql_store_result = λ w. (some second_row, w);
  mysql_affected_rows = λ w. 1;
  mysql_field_count = λ w. 5;
  mysql_free_result = λ r w. w;
  mysql_stmt_result_metadata = λ sql w. (some [], w);
  mysql_stmt_field_count = λ sql w. 5;
  mysql_more_results = λ w. false;
  mysql_next_result = λ w. w;
  mysql_ping = λ w. w;
}

abbrev pub library : ResultLibrary Row
library = record {
  mysql_fetch_row = λ r. (some second_row, r);
  mysql_fetch_lengths = λ r. some (1 ∷ 1 ∷ 1 ∷ 2 ∷ 1 ∷ []);
}

abbrev connection : Connection ℕ
connection = record {
  mysql = true;
  reconnecting = false;
  prepare_error = false;
  connect_type = sync;
  stmts = some (new_statement 1 (codes "?")) ∷ [];
  world = 0;
}

abbrev pub pool : TaskPool ℕ Row
pool = record {
  pool = record { async_connections = []; sync_connections = connection ∷ []; world = 0 };
  queue = record { queue = []; shutdown = false };
  tasks = [];
  locks = false ∷ [];
  prepared_stmt_param_count = 1 ∷ [];
}

abbrev pub rows : PreparedResultSet
rows = (new_prepared_result_set statements (codes "?") (λ x. 9) (some []) 1 5 0).0

abbrev used_statement : MySqlPreparedStatement
used_statement = record {
  param_count = 1;
  param_assign_flag = false ∷ [];
  bind =
      record {
        buffer_type = var_string;
        buffer = none;
        buffer_length = 13;
        is_null_value = false;
        length_of = none;
        is_unsigned = false;
      }
      ∷ [];
  sql_string = codes "?";
  stmt = some email_statement;
}

abbrev pub used_pool : TaskPool ℕ Row
used_pool = record pool {
  pool = record pool.pool {
    sync_connections = record connection { stmts = some used_statement ∷ [] } ∷ [];
  };
}
