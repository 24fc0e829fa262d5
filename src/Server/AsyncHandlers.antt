-- ===== src/Server/AsyncHandlers.antt =====
-- The handlers of "/test" and "/testAsync" of Src/Servers/HttpServer/HttpServer.cpp, and what the function of
-- the callback makes of the response.
use game_project_demo.Common.{
  ℕ, false, Option, none, some, List, [], ◌∷◌, ◌++◌, Bytes, codes, get_elem?, ℤ,
}
use game_project_demo.Util.{IntType, unsigned_of, to_chars}
use game_project_demo.Async.{QueryCallback, query_then}
use game_project_demo.Http.{ok, internal_server_error}
use game_project_demo.Http.Response.{HttpResponse, set_status_code, set_content}
use game_project_demo.Database.{Run, finished, ◌>>=◌}
use game_project_demo.Database.Field.{Field, get_int, get_string}
use game_project_demo.Database.Pool.Calls.{TaskPool, QueryResult, async_execute, async_query}
use game_project_demo.Database.Results.{ResultSet, fields_or_stop, element}
use game_project_demo.Server.Handlers.{or_stop}

abbrev pub insert_account : Bytes
insert_account = codes "insert into account(email, name, age) values('123@qq.com', 'tom', 20)"

-- The handler of "/test".
unfoldable pub test_handler :
    {W R : Type 0} → HttpResponse → TaskPool W R → HttpResponse × TaskPool W R
test_handler resp p = (resp, async_execute insert_account p)

abbrev pub select_account : Bytes
select_account = codes "select id, name, age, intro from account where email='123@qq.com'"

-- The handler of "/testAsync", with the callback that the processor gets, and the task whose future it
-- holds; the function of the callback is known by its number.
unfoldable pub test_async_handler :
    {W R : Type 0}
    → ℕ
    → HttpResponse
    → TaskPool W R
    → List (ℕ × QueryCallback (QueryResult R))
    → Run (HttpResponse × TaskPool W R × List (ℕ × QueryCallback (QueryResult R)))
test_async_handler function resp p processor = do
  let r = async_query select_account p
  callback ← or_stop (query_then false function (r.0.1))
  finished (resp, r.1, processor ++ (r.0.0, callback) ∷ [])

-- "结果出错！！！" in the UTF-8 of the file.
abbrev pub wrong_result : Bytes
wrong_result =
    231 ∷ 187 ∷ 147 ∷ 230 ∷ 158 ∷ 156 ∷ 229 ∷ 135 ∷ 186 ∷ 233 ∷ 148 ∷ 153 ∷ 239 ∷ 188 ∷ 129 ∷ 239
    ∷ 188 ∷ 129 ∷ 239 ∷ 188 ∷ 129 ∷ []

-- "id:{}, name:{}, age:{}, intro = {}"
unfoldable pub row_text : ℤ → Bytes → ℤ → Bytes → Bytes
row_text id name age intro =
    codes "id:"
    ++ (to_chars id
        ++ (codes ", name:"
            ++ (name ++ (codes ", age:" ++ (to_chars age ++ (codes ", intro = " ++ intro))))))

module _ (from_floating : IntType → Field → Option ℤ) where
  unfoldable pub row_content : List Field → Run Bytes
  row_content fields = do
    first ← element (get_elem? fields 0)
    id ← or_stop (get_int from_floating (unsigned_of 4) first)
    second ← element (get_elem? fields 1)
    name ← or_stop (get_string second)
    third ← element (get_elem? fields 2)
    age ← or_stop (get_int from_floating (unsigned_of 4) third)
    fourth ← element (get_elem? fields 3)
    intro ← or_stop (get_string fourth)
    finished (row_text id name age intro)

  -- The function of the callback, on the response that it refers to.
  unfoldable pub test_async_answer :
      {R : Type 0} → Option (ResultSet R) → HttpResponse → Run HttpResponse
  test_async_answer none resp =
      finished (set_content wrong_result (set_status_code internal_server_error resp))
  test_async_answer (some rows) resp = do
    fields ← fields_or_stop rows.current_row
    content ← row_content fields
    finished (set_content content (set_status_code ok resp))
