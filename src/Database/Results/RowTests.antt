-- ===== src/Database/Results/RowTests.antt =====
-- A run of a `PreparedResultSet`, Src/Common/Database/QueryResult.cpp: the state of the client library is the
-- rows that are left.
use game_project_demo.Common.{
  ℕ, ◌≡◌, refl, true, false, none, some, List, [], ◌∷◌, codes, map, length, arith,
}
use game_project_demo.Database.{finished}
use game_project_demo.Database.Columns.{MysqlType, var_string, long, size_for_type}
use game_project_demo.Database.Results.{MySqlField}
use game_project_demo.Database.Results.Buffered.{
  Cell, Fetched, fetched, no_row, StmtLibrary, columns_from, row_size, new_prepared_result_set,
}
use game_project_demo.Database.Results.Kept.{cell_value}
use game_project_demo.Database.Results.Walk.{walk, prepared_rows}

abbrev column : MysqlType → MySqlField
column type = record {
  org_table = codes "t";
  table = codes "t";
  org_name = codes "a";
  name = codes "a";
  type = type;
  unsigned = false;
  max_length = 2;
}

abbrev World : Type 0
World = List (List Cell)

fetch_next : World → Fetched × World
fetch_next [] = (no_row, [])
fetch_next (cells ∷ rest) = (fetched cells, rest)

abbrev library : StmtLibrary World ℕ
library = record {
  mysql_time = 40;
  mysql_fetch_fields = λ r. column var_string ∷ column long ∷ [];
  mysql_stmt_store_result = λ stmt w. (true, w);
  mysql_stmt_num_rows = λ stmt w. length w;
  mysql_stmt_bind_result = λ stmt w. (true, w);
  mysql_stmt_fetch = λ stmt w. fetch_next w;
  mysql_stmt_free_result = λ stmt w. w;
}

abbrev first : List Cell
first = some (2, codes "ab") ∷ none ∷ []

abbrev second : List Cell
second = some (1, codes "c") ∷ some (4, 7 ∷ 0 ∷ 0 ∷ 0 ∷ []) ∷ []

prepared_rows_example :
    walk 2 (
      (new_prepared_result_set library
        (codes "SELECT")
        (λ x. 9)
        (some 0)
        0
        2
        (first ∷ second ∷ [])).0)
    ≡ finished (map (map cell_value) (first ∷ second ∷ []))
unfolding columns_from row_size size_for_type fetch_next
prepared_rows_example =
    prepared_rows library (codes "SELECT") (λ x. 9) 0 0 2 (first ∷ second ∷ [])
      (first ∷ second ∷ []) (first ∷ second ∷ []) first (second ∷ []) refl refl refl (omega arith)
      (omega arith)
      (
        ((refl, omega arith, omega arith), (tt, tt)),
        (((refl, omega arith, omega arith), ((refl, omega arith, omega arith), tt)), tt),
      )
      (second ∷ [], refl, ([], refl, tt))
