-- ===== src/Server/Handlers.antt =====
-- The handlers of Src/Servers/HttpServer/HttpServer.cpp that use the database: `GetUserInfo`. The pool that they share is handed through them.
use game_project_demo.Common.{
  ℕ, zero, suc, ◌%◌, ◌^◌, ◌==◌, Option, none, some, List, [], ◌∷◌, ◌++◌, Bytes, codes, get_elem?,
  if◌then◌else◌, ℤ,
}
use game_project_demo.Util.{IntType, unsigned_of, to_chars}
use game_project_demo.Http.{ok, internal_server_error}
use game_project_demo.Http.Response.{HttpResponse, set_status_code, set_content}
use game_project_demo.Database.{Run, stopped, unfinished, finished, ◌>>=◌}
use game_project_demo.Database.Connection.{Library}
use game_project_demo.Database.Connection.Query.{QueryLibrary}
use game_project_demo.Database.Field.{DatabaseFieldType, binary, Field, get_int, get_cstring}
use game_project_demo.Database.LoginDatabase.{
  login_sel_account_by_email, login_database_enum_max, login_database_stmt_map, SqlStmtData,
  find_statement, statements_of,
}
use game_project_demo.Database.Pool.Calls.{
  TaskPool, get_prepared_statement, sync_query, sync_query_prepared,
}
use game_project_demo.Database.Results.{
  ResultLibrary, ResultSet, fields_or_stop, element, QueryResultFieldMetadata,
}
use game_project_demo.Database.Results.Buffered.{Memory, RowField, PreparedResultSet, fetch}
use game_project_demo.Database.Results.Shown.{shown}
use game_project_demo.Database.Statement.{SqlArgType, PreparedStatement, text, typed, set_value}

unfoldable pub or_stop : {A : Type 0} → Option A → Run A
or_stop none = stopped
or_stop (some a) = finished a

-- A C string in the memory, byte by byte to its NUL; each byte costs one of the fuel.
unfoldable pub c_string : ℕ → Memory → ℕ → Run Bytes
c_string zero m a = unfinished
c_string (suc fuel) m a =
    let rest = c_string fuel m (suc a) in
    if m a == 0 then finished [] else (do bytes ← rest; finished (m a ∷ bytes))

unfoldable pub metadata_or_stop : RowField → Run QueryResultFieldMetadata
metadata_or_stop f = or_stop f.metadata

-- A field of a prepared result as the getters of the integers read it.
unfoldable pub read_field : Memory → RowField → Run Field
read_field m f = do
  meta ← metadata_or_stop f
  finished
      (record { value = shown m f.value; field_type = meta.field_type; is_binary = meta.is_binary })

unfoldable pub start_of : Option (ℕ × ℕ) → Option ℕ
start_of none = none
start_of (some (a, n)) = some a

unfoldable pub pointer_of : DatabaseFieldType → Option (ℕ × ℕ) → Option (Option ℕ)
pointer_of binary value = some (start_of value)
pointer_of _ value = none

-- The pointer of `GetCString`; for a column of another type an `Assert` fails.
unfoldable pub read_pointer : RowField → Run (Option ℕ)
read_pointer f = do meta ← metadata_or_stop f; or_stop (pointer_of meta.field_type f.value)

-- `std::format` of a `const char *`, which is not null.
unfoldable pub format_pointer : ℕ → Memory → Option ℕ → Run Bytes
format_pointer fuel m none = stopped
format_pointer fuel m (some a) = c_string fuel m a

-- The conversion to `std::string`.
unfoldable pub string_at : ℕ → Memory → Option ℕ → Run Bytes
string_at fuel m none = finished []
string_at fuel m (some a) = c_string fuel m a

abbrev pub email_text : Bytes
email_text = codes "123456@qq.com"

-- The loop over the types of the arguments; its index is cut to 8 bits.
unfoldable pub set_emails : ℕ → List SqlArgType → PreparedStatement → Run PreparedStatement
set_emails i [] p = finished p
set_emails i (type ∷ types) p = do
  p' ← set_value (i % 2 ^ 8) type (typed (text email_text)) p
  set_emails (suc i) types p'

-- What is read of the first result.
pub record Account : Type 0 where
  pub id : ℤ
  pub name : Option ℕ
  pub email : Option ℕ
  pub age : ℤ
  pub intro : Bytes

abbrev pub account_query : Bytes
account_query = codes "select id, name, email, age, intro from account where email= '123456@qq.com'"

-- "id:{}, email:{}, name:{}, age:{}, intro:{}"
unfoldable pub account_text : ℤ → Bytes → Bytes → ℤ → Bytes → Bytes
account_text id email name age intro =
    codes "id:"
    ++ (to_chars id
        ++ (codes ", email:"
            ++ (email
                ++ (codes ", name:"
                    ++ (name
                        ++ (codes ", age:" ++ (to_chars age ++ (codes ", intro:" ++ intro))))))))

unfoldable pub read_column : ℕ → List RowField → Run (Option ℕ)
read_column i row = do f ← or_stop (get_elem? row i); read_pointer f

module _ (from_floating : IntType → Field → Option ℤ) (chars : ℕ) where
  -- The conversion of a field to `uint32_t`.
  unfoldable pub field_u32 : Memory → RowField → Run ℤ
  field_u32 m f = do field ← read_field m f; or_stop (get_int from_floating (unsigned_of 4) field)

  unfoldable pub read_u32 : Memory → ℕ → List RowField → Run ℤ
  read_u32 m i row = do f ← or_stop (get_elem? row i); field_u32 m f

  unfoldable pub read_account : PreparedResultSet → Run Account
  read_account rows = do
    row ← fetch rows
    id ← read_u32 rows.memory 0 row
    name ← read_column 1 row
    email ← read_column 2 row
    age ← read_u32 rows.memory 3 row
    pointer ← read_column 4 row
    intro ← string_at chars rows.memory pointer
    finished (record { id = id; name = name; email = email; age = age; intro = intro })

  -- The two fields of the second result that are read; their values are not used.
  unfoldable pub read_again : {R : Type 0} → Option (ResultSet R) → Run (ℤ × Option Bytes)
  read_again result = do
    rows ← or_stop result
    fields ← fields_or_stop rows.current_row
    first ← element (get_elem? fields 0)
    id ← or_stop (get_int from_floating (unsigned_of 4) first)
    second ← element (get_elem? fields 1)
    name ← or_stop (get_cstring second)
    finished (id, name)

  unfoldable pub show_account : Memory → Account → Run Bytes
  show_account m a = do
    email ← format_pointer chars m a.email
    name ← format_pointer chars m a.name
    finished (account_text a.id email name a.age a.intro)

  module _ {W R : Type 0} (c : Library W) (q : QueryLibrary W R) (lib : ResultLibrary R)
      (fuel turns : ℕ) where
    -- `SyncQuery` on the login database.
    abbrev pub login_query : Bytes → TaskPool W R → Run (Option (ResultSet R) × TaskPool W R)
    login_query =
        sync_query c q lib login_database_enum_max (statements_of login_database_stmt_map) fuel
          turns

    abbrev pub login_query_prepared :
        Memory → PreparedStatement → TaskPool W R → Run (Option PreparedResultSet × TaskPool W R)
    login_query_prepared =
        sync_query_prepared c q lib login_database_enum_max (statements_of login_database_stmt_map)
          fuel turns

    unfoldable pub account_found :
        Option PreparedResultSet → HttpResponse → TaskPool W R → Run (HttpResponse × TaskPool W R)
    account_found none resp p = finished (set_status_code internal_server_error resp, p)
    account_found (some rows) resp p = do
      account ← read_account rows
      r ← login_query account_query p
      again ← read_again (r.0)
      content ← show_account rows.memory account
      finished (set_status_code ok (set_content content resp), r.1)

    unfoldable pub statement_found :
        Option SqlStmtData
        → Memory
        → HttpResponse
        → TaskPool W R
        → Run (HttpResponse × TaskPool W R)
    statement_found none m resp p = finished (set_status_code internal_server_error resp, p)
    statement_found (some d) m resp p = do
      new ← get_prepared_statement login_sel_account_by_email p
      stmt ← set_emails 0 d.arg_types new
      r ← login_query_prepared m stmt p
      account_found (r.0) resp (r.1)

    -- `GetUserInfo`.
    unfoldable pub get_user_info :
        Memory → HttpResponse → TaskPool W R → Run (HttpResponse × TaskPool W R)
    get_user_info m resp p =
        statement_found (find_statement login_sel_account_by_email login_database_stmt_map) m resp p
