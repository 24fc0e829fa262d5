-- ===== src/Database/Connection/Rows.antt =====
-- The rows of a query: `Query` of Src/Common/Database/MysqlConnection.cpp with the `ResultSet` of
-- Src/Common/Database/QueryResult.cpp.
use game_project_demo.Common.{
  ℕ, suc, ◌==◌, ◌≤◌, ◌≡◌, ◌≢◌, refl, sym, ap, ◌∙◌, true, if-true, if-false, Option, none, some,
  List, [], ◌∷◌, map, All, Bytes, length, not_equal, arith,
}
use game_project_demo.Database.{Run, finished, ◌>>=◌}
use game_project_demo.Database.Connection.{Library, Connection, ConnectionType}
use game_project_demo.Database.Connection.Errors.{checked}
use game_project_demo.Database.Connection.Query.{
  QueryLibrary, no_result, stored, query_text, result_set, query,
}
use game_project_demo.Database.Results.{ResultLibrary, ResultSet, Row, new_result_set}
use game_project_demo.Database.Results.Read.{Gives, IsRow, collect, collect_all}

module _ {W R : Type 0} (c : Library W) (q : QueryLibrary W R) (lib : ResultLibrary R) (max : ℕ)
    (stmts : List (ℕ × Bytes × ConnectionType)) where
  -- All the rows of a result set, by its number of rows.
  abbrev pub rows_of : Option (ResultSet R) → Run (List (Option Row))
  rows_of none = finished []
  rows_of (some rows) = collect lib (suc rows.row_count) rows

  query_text-some :
      (n : ℕ) (sql : Bytes) (s : Connection W) (w w' : W) (r : R)
      → s.mysql ≡ true
      → c.mysql_query sql s.world ≡ (true, w)
      → q.mysql_store_result w ≡ (some r, w')
      → q.mysql_affected_rows w' ≢ 0
      → query_text c q max stmts (suc n) sql s
        ≡ finished (
          some (record {
            result = r;
            row_count = q.mysql_affected_rows w';
            field_count = q.mysql_field_count w';
          }),
          record s { world = w' },
        )
  unfolding query_text checked stored
  query_text-some n sql s w w' r open_now accepted kept any =
      if-true s.mysql _ _ open_now
      ∙ ap
          (λ p.
            checked c max stmts (query_text c q max stmts n sql) (no_result c q max stmts)
              (λ v. stored c q max stmts (q.mysql_store_result v) s) p s)
          accepted
      ∙ ap (λ p. stored c q max stmts p s) kept
      ∙ if-false (q.mysql_affected_rows w' == 0) _ _ (not_equal (q.mysql_affected_rows w') 0 any)

  -- A query by a text that is not empty, on an open connection, which the server accepts with a result
  -- of at least one row: the rows that a loop over the result set sees are those of the result, all of
  -- them and in order. The library counts the rows and the fields as they are, and each value is
  -- shorter than 2 ^ 32 bytes.
  pub query_rows :
      (n b : ℕ) (sql : Bytes) (s : Connection W) (w w' : W) (r : R) (rows : List Row)
      → s.mysql ≡ true
      → c.mysql_query (b ∷ sql) s.world ≡ (true, w)
      → q.mysql_store_result w ≡ (some r, w')
      → q.mysql_affected_rows w' ≡ length rows
      → rows ≢ []
      → q.mysql_field_count w' ≤ length (q.statements.mysql_fetch_fields r)
      → All (IsRow (q.mysql_field_count w')) rows
      → Gives lib rows r
      → (query c q max stmts (suc n) (b ∷ sql) s >>= λ p. rows_of (p.0)) ≡ finished (map some rows)
  unfolding query result_set ◌>>=◌ collect new_result_set
  query_rows n b sql s w w' r rows open_now accepted kept counted any enough wide gives =
      ap (λ k. (k >>= result_set c q max stmts) >>= (λ p. rows_of (p.0)))
        (query_text-some n (b ∷ sql) s w w' r open_now accepted kept
          (λ z. any (no_rows rows (sym counted ∙ z))))
      ∙ ap
          (λ k. collect lib (suc k) (
            new_result_set r (q.statements.mysql_fetch_fields r) (q.mysql_affected_rows w')
              (q.mysql_field_count w')))
          counted
      ∙ collect_all lib rows r (q.statements.mysql_fetch_fields r) (q.mysql_affected_rows w')
          (q.mysql_field_count w') enough wide gives
    where
      no_rows : (rs : List Row) → length rs ≡ 0 → rs ≡ []
      no_rows [] e = refl
      no_rows (r' ∷ rs) e = absurd (omega arith)
