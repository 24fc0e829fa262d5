-- ===== src/Server/HandlerTests.antt =====
-- Runs of the handlers of Src/Servers/HttpServer/HttpServer.cpp on a client library that gives one row.
use game_project_demo.Common.{
  ℕ, ◌≡◌, refl, true, false, none, some, List, [], ◌∷◌, codes, pos, Bool, arith,
}
use game_project_demo.Util.{
  to_chars, decimal, digits_from, from_string, from_chars, scan_value, from_prefixed, limited, scan,
  whole_value, digit_in, signed_value,
}
use game_project_demo.Http.{ok}
use game_project_demo.Http.Response.{new_response, set_status_code, set_content}
use game_project_demo.Database.{stopped, finished, ◌>>=◌}
use game_project_demo.Database.Columns.{
  MysqlType, mysql_type_to_field_type, size_for_type, long, var_string,
}
use game_project_demo.Database.Connection.Query.{
  query, no_result, query_text, result_set, stored, query_prepared, query_stmt, queried, described,
  prepared_result_set, next_result, with_world,
}
use game_project_demo.Database.Pool.Calls.{
  sync_query, sync_query_prepared, with_free_connection, connection_or_stop,
}
use game_project_demo.Database.Pool.{get_free_connection_and_lock, choose, try_lock, unlock}
use game_project_demo.Database.Tasks.{prepared_given_on, given_on, first_row}
use game_project_demo.Database.Connection.Execute.{
  execute_stmt, send_stmt, with_stmt, cleared, clear_stmt, executed, not_executed,
}
use game_project_demo.Database.Connection.Errors.{
  checked, if_handled, handle_mysql_errcode, handle_kind, kind_of,
}
use game_project_demo.Database.Field.{
  set_value, get_cstring, string_of, get_int, get_from, source_type, source_value, reinterpret,
  little_endian, of_residue, check_type, checked_cast, common_type, static_cast, same_int, asserted,
}
use game_project_demo.Database.Results.{
  new_result_set, metadata_from, fields_with, field_with, next_row, next_of, with_row, with_lengths,
  set_values, fields_or_stop, element, initialize_metadata,
}
use game_project_demo.Database.Results.Buffered.{
  RowField, new_prepared_result_set, result_stored, result_bound, with_rows, row_or_stop, fetch,
  fetch_rows, row_fetched, take_row, fields_of, columns_from, terminate_cells, terminated, is_text,
  write_byte, write_cells, write_at,
}
use game_project_demo.Database.Statement.Bind.{
  new_statement, bind_parameters, bind_from, set_parameter, write_bind, bound_data, bind_value,
  bind_bytes, bytes_of, mysql_type, clear_parameters, clear_binds, clear_bind, clear_flags,
}
use game_project_demo.Server.Handlers.{
  get_user_info, read_again, account_text, login_query_prepared, Account, read_account, read_u32,
  field_u32, read_column, read_field, read_pointer, pointer_of, start_of, metadata_or_stop, or_stop,
  string_at, c_string,
}
use game_project_demo.Server.UserInfo.{email_statement, IsRow, second_query_lost, account_shown}
use game_project_demo.Server.OneRow.{column, client, queries, library, pool, rows, used_pool}

first_query :
    (succeeds : Bool)
    → login_query_prepared
        (λ t f. none)
        9
        (client succeeds)
        queries
        library
        2
        2
        (λ x. 9)
        email_statement
        pool
      ≡ finished (some rows, used_pool)
unfolding sync_query_prepared with_free_connection get_free_connection_and_lock choose try_lock
    connection_or_stop query_prepared query_stmt queried described prepared_result_set next_result
    with_world execute_stmt send_stmt with_stmt cleared clear_stmt checked if_handled executed
    not_executed bind_parameters bind_from set_parameter write_bind bound_data bind_value bind_bytes
    bytes_of mysql_type clear_parameters clear_binds clear_bind clear_flags new_statement
    new_prepared_result_set result_stored result_bound with_rows prepared_given_on unlock ◌>>=◌
    fetch_rows row_fetched take_row
first_query succeeds = refl

abbrev account : Account
account = record { id = pos 7; name = some 4; email = some 7; age = pos 20; intro = codes "i" }

account_read : read_account (λ t f. none) 9 rows ≡ finished account
unfolding read_account read_u32 field_u32 read_column read_field read_pointer pointer_of start_of
    metadata_or_stop or_stop string_at c_string fetch row_or_stop get_int get_from source_type
    source_value reinterpret little_endian of_residue check_type checked_cast common_type
    static_cast same_int asserted mysql_type_to_field_type new_prepared_result_set result_stored
    result_bound with_rows ◌>>=◌ fetch_rows row_fetched take_row fields_of columns_from
    initialize_metadata terminate_cells terminated is_text size_for_type write_byte write_cells
    write_at
account_read = refl

no_second_row_stops :
    get_user_info (λ t f. none) 9 (client false) queries library 2 2 (λ x. 9) new_response pool
    ≡ stopped
unfolding sync_query with_free_connection get_free_connection_and_lock choose try_lock
    connection_or_stop query no_result query_text checked if_handled handle_mysql_errcode
    handle_kind kind_of given_on unlock ◌>>=◌ result_set
no_second_row_stops =
    second_query_lost (λ t f. none) 9 (client false) queries library 2 2 (λ x. 9) new_response pool
      used_pool used_pool rows account refl (first_query false) account_read refl

abbrev row_field : ℕ → ℕ → ℕ → MysqlType → RowField
row_field i a n type = record {
  value = some (a, n);
  metadata = some (initialize_metadata (column type) i true);
}

abbrev row : List RowField
row =
    row_field 0 0 4 long
    ∷ row_field 1 4 1 var_string
    ∷ row_field 2 7 1 var_string
    ∷ row_field 3 10 4 long
    ∷ row_field 4 14 1 var_string
    ∷ []

row-IsRow :
    IsRow
      (λ t f. none)
      9
      (client true)
      queries
      library
      2
      2
      rows.memory
      row
      (pos 7)
      (pos 20)
      (codes "n")
      (codes "e")
      (codes "i")
unfolding field_u32 read_field metadata_or_stop or_stop get_int get_from source_type source_value
    reinterpret little_endian of_residue check_type checked_cast common_type static_cast same_int
    asserted mysql_type_to_field_type new_prepared_result_set result_stored result_bound with_rows
    ◌>>=◌ fetch_rows row_fetched take_row fields_of columns_from initialize_metadata terminate_cells
    terminated is_text size_for_type write_byte write_cells write_at
row-IsRow = record {
  id_field = row_field 0 0 4 long;
  name_field = row_field 1 4 1 var_string;
  email_field = row_field 2 7 1 var_string;
  age_field = row_field 3 10 4 long;
  intro_field = row_field 4 14 1 var_string;
  row_is = refl;
  id_is = refl;
  name_is = record {
    meta = initialize_metadata (column var_string) 1 true;
    from_offset = 4;
    size = 1;
    field_is = refl;
    type_is = refl;
    holds = (refl, omega arith, refl);
  };
  email_is = record {
    meta = initialize_metadata (column var_string) 2 true;
    from_offset = 7;
    size = 1;
    field_is = refl;
    type_is = refl;
    holds = (refl, omega arith, refl);
  };
  age_is = refl;
  intro_is = record {
    meta = initialize_metadata (column var_string) 4 true;
    from_offset = 14;
    size = 1;
    field_is = refl;
    type_is = refl;
    holds = (refl, omega arith, refl);
  };
  fits = (omega arith, omega arith, omega arith);
}

row_fetched_lem : fetch rows ≡ finished row
unfolding fetch row_or_stop new_prepared_result_set result_stored result_bound with_rows ◌>>=◌
    fetch_rows row_fetched take_row fields_of columns_from initialize_metadata size_for_type
row_fetched_lem = refl

one_account :
    get_user_info (λ t f. none) 9 (client true) queries library 2 2 (λ x. 9) new_response pool
    ≡ finished (
      set_status_code ok
          (set_content (codes "id:7, email:e, name:n, age:20, intro:i") new_response),
      used_pool,
    )
unfolding sync_query with_free_connection get_free_connection_and_lock choose try_lock
    connection_or_stop query query_text checked if_handled result_set stored given_on unlock
    new_result_set metadata_from fields_with field_with next_row next_of with_row with_lengths
    set_values fields_or_stop first_row initialize_metadata mysql_type_to_field_type read_again
    element or_stop get_cstring string_of from_string from_chars scan_value from_prefixed limited
    scan whole_value digit_in signed_value get_int get_from source_type source_value check_type
    checked_cast common_type static_cast of_residue same_int asserted ◌>>=◌ set_value account_text
    to_chars decimal digits_from
one_account =
    account_shown (λ t f. none) 9 (client true) queries library 2 2 (λ x. 9) new_response pool
      used_pool used_pool rows row (pos 7) (pos 20) (codes "n") (codes "e") (codes "i") _ _ refl
      (first_query true) row_fetched_lem row-IsRow refl refl
