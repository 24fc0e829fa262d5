-- ===== src/Server/UserInfo.antt =====
-- `HttpServer::GetUserInfo` of Src/Servers/HttpServer/HttpServer.cpp: the answers that it comes to.
use game_project_demo.Common.{
  ℕ, zero, suc, ◌<◌, ◌==◌, ◌≡◌, ◌≢◌, refl, ◌∙◌, false, Option, none, some, List, [], ◌∷◌, Bytes,
  get_elem?, length, if-false, ℤ, arith,
}
use game_project_demo.Util.{IntType}
use game_project_demo.Http.{ok, internal_server_error}
use game_project_demo.Http.Response.{HttpResponse, set_status_code, set_content}
use game_project_demo.Database.{stopped, finished, ◌>>=◌}
use game_project_demo.Database.Connection.{Library}
use game_project_demo.Database.Connection.Query.{QueryLibrary}
use game_project_demo.Database.Field.{Field, binary}
use game_project_demo.Database.LoginDatabase.{find_statement}
use game_project_demo.Database.Pool.Calls.{TaskPool, get_prepared_statement, count_or_stop}
use game_project_demo.Database.Results.{ResultLibrary, ResultSet, QueryResultFieldMetadata}
use game_project_demo.Database.Results.Buffered.{Memory, RowField, PreparedResultSet, fetch}
use game_project_demo.Database.Statement.{
  PreparedStatement, text, new_prepared, set_value, emplaced,
}
use game_project_demo.Server.Handlers.{
  or_stop, c_string, metadata_or_stop, start_of, pointer_of, read_pointer, read_column,
  format_pointer, string_at, email_text, set_emails, Account, account_query, account_text,
  field_u32, read_u32, read_account, read_again, show_account, login_query, login_query_prepared,
  account_found, statement_found, get_user_info,
}

-- A text with its NUL stands in the memory.
abbrev pub HoldsText : Memory → ℕ → Bytes → Type 0
HoldsText m a [] = m a ≡ 0
HoldsText m a (b ∷ bs) = (m a ≡ b) × (b ≢ 0) × HoldsText m (suc a) bs

no_fuel : {n : ℕ} → n < 0 → ⊥
no_fuel below = omega arith

is_false : (a b : ℕ) → a ≡ b → b ≢ 0 → (a == 0) ≡ false
is_false a b here not_nul = ground arith

c_string-HoldsText :
    (t : Bytes) (fuel : ℕ) (m : Memory) (a : ℕ)
    → length t < fuel
    → HoldsText m a t
    → c_string fuel m a ≡ finished t
unfolding c_string ◌>>=◌
c_string-HoldsText t zero m a enough holds = absurd (no_fuel enough)
c_string-HoldsText [] (suc fuel) m a enough holds = rw holds refl
c_string-HoldsText (b ∷ bs) (suc fuel) m a enough (here, not_nul, rest) =
    if-false _ _ _ (is_false (m a) b here not_nul)
    ∙ rw (c_string-HoldsText bs fuel m (suc a) (omega arith) rest, here) refl

-- A field of a text column.
pub record HasText (m : Memory) (f : RowField) (t : Bytes) : Type 0 where
  pub meta : QueryResultFieldMetadata
  pub from_offset : ℕ
  pub size : ℕ
  pub field_is : f ≡ record { value = some (from_offset, size); metadata = some meta }
  pub type_is : meta.field_type ≡ binary
  pub holds : HoldsText m from_offset t

HasText-pointer :
    {m : Memory} {f : RowField} {t : Bytes} (h : HasText m f t)
    → read_pointer f ≡ finished (some h.from_offset)
unfolding read_pointer metadata_or_stop or_stop pointer_of start_of ◌>>=◌
HasText-pointer h = rw (h.field_is, h.type_is) refl

-- The statement that is executed: the one parameter is the email.
abbrev pub email_statement : PreparedStatement
email_statement = record { index = 0; statement_data = text email_text ∷ [] }

bound_email :
    {W R : Type 0} (p : TaskPool W R)
    → get_elem? p.prepared_stmt_param_count 0 ≡ some 1
    → get_prepared_statement 0 p ≡ finished (new_prepared 0 1)
unfolding get_prepared_statement count_or_stop ◌>>=◌
bound_email p counted = rw counted refl

module _ {W R : Type 0} (from_floating : IntType → Field → Option ℤ) (chars : ℕ) (c : Library W)
    (q : QueryLibrary W R) (lib : ResultLibrary R) (fuel turns : ℕ) where
  to_account :
      (m : Memory) (resp : HttpResponse) (p : TaskPool W R)
      → get_elem? p.prepared_stmt_param_count 0 ≡ some 1
      → get_user_info from_floating chars c q lib fuel turns m resp p ≡ (
          login_query_prepared from_floating chars c q lib fuel turns m email_statement p >>= λ r.
          account_found from_floating chars c q lib fuel turns (r.0) resp (r.1))
  unfolding get_user_info statement_found find_statement set_emails set_value emplaced new_prepared
      ◌>>=◌
  to_account m resp p counted = rw (bound_email p counted) refl

  not_found :
      (m : Memory) (resp : HttpResponse) (p p' : TaskPool W R)
      → get_elem? p.prepared_stmt_param_count 0 ≡ some 1
      → login_query_prepared from_floating chars c q lib fuel turns m email_statement p
        ≡ finished (none, p')
      → get_user_info from_floating chars c q lib fuel turns m resp p
        ≡ finished (set_status_code internal_server_error resp, p')
  unfolding account_found ◌>>=◌
  not_found m resp p p' counted first = to_account m resp p counted ∙ rw first refl

  -- When one parameter is counted for the statement, the prepared query gives rows whose first one can be read, and
  -- the second query gives no result, the program ends: the null pointer of the result is used.
  pub second_query_lost :
      (m : Memory) (resp : HttpResponse) (p p' p'' : TaskPool W R) (rows : PreparedResultSet)
      (account : Account)
      → get_elem? p.prepared_stmt_param_count 0 ≡ some 1
      → login_query_prepared from_floating chars c q lib fuel turns m email_statement p
        ≡ finished (some rows, p')
      → read_account from_floating chars rows ≡ finished account
      → login_query from_floating chars c q lib fuel turns account_query p' ≡ finished (none, p'')
      → get_user_info from_floating chars c q lib fuel turns m resp p ≡ stopped
  unfolding account_found read_again or_stop ◌>>=◌
  second_query_lost m resp p p' p'' rows account counted first read second =
      to_account m resp p counted ∙ rw (first, read, second) refl

  -- The texts of a row can be read, and its numbers are given.
  pub record IsRow (m : Memory) (row : List RowField) (id age : ℤ) (name email intro : Bytes)
      : Type 0 where
    pub id_field : RowField
    pub name_field : RowField
    pub email_field : RowField
    pub age_field : RowField
    pub intro_field : RowField
    pub row_is : row ≡ (id_field ∷ name_field ∷ email_field ∷ age_field ∷ intro_field ∷ [])
    pub id_is : field_u32 from_floating chars m id_field ≡ finished id
    pub name_is : HasText m name_field name
    pub email_is : HasText m email_field email
    pub age_is : field_u32 from_floating chars m age_field ≡ finished age
    pub intro_is : HasText m intro_field intro
    pub fits : (length name < chars) × (length email < chars) × (length intro < chars)

  read_account-IsRow :
      (rows : PreparedResultSet) (row : List RowField) (id age : ℤ) (name email intro : Bytes)
      (h : IsRow rows.memory row id age name email intro)
      → fetch rows ≡ finished row
      → read_account from_floating chars rows
        ≡ finished (record {
          id = id;
          name = some h.name_is.from_offset;
          email = some h.email_is.from_offset;
          age = age;
          intro = intro;
        })
  unfolding read_account read_u32 read_column or_stop string_at ◌>>=◌
  read_account-IsRow rows row id age name email intro h fetched =
      let shown =
        c_string-HoldsText intro chars rows.memory h.intro_is.from_offset (h.fits.2)
          h.intro_is.holds in
      rw (fetched, h.row_is)
        (rw
          (
            h.id_is,
            HasText-pointer h.name_is,
            HasText-pointer h.email_is,
            h.age_is,
            HasText-pointer h.intro_is,
            shown,
          )
          refl)

  -- When one parameter is counted for the statement, the first query, with the email in place of the parameter,
  -- gives rows, the first of them has an id and an age that are converted to 32 bits and three texts with their NUL,
  -- each shorter than the fuel for a text, and the second query gives a row with the two fields that are read: the
  -- answer has the status 200 and a content of the five values of the first query, and the pool is as the second
  -- query left it.
  pub account_shown :
      (m : Memory) (resp : HttpResponse) (p p' p'' : TaskPool W R) (rows : PreparedResultSet)
      (row : List RowField) (id age : ℤ) (name email intro : Bytes) (again : Option (ResultSet R))
      (two : ℤ × Option Bytes)
      → get_elem? p.prepared_stmt_param_count 0 ≡ some 1
      → login_query_prepared from_floating chars c q lib fuel turns m email_statement p
        ≡ finished (some rows, p')
      → fetch rows ≡ finished row
      → IsRow rows.memory row id age name email intro
      → login_query from_floating chars c q lib fuel turns account_query p' ≡ finished (again, p'')
      → read_again from_floating chars again ≡ finished two
      → get_user_info from_floating chars c q lib fuel turns m resp p
        ≡ finished
            (set_status_code ok (set_content (account_text id email name age intro) resp), p'')
  unfolding account_found show_account format_pointer ◌>>=◌
  account_shown m resp p p' p'' rows row id age name email intro again two counted first fetched h
        second reads =
      let account = read_account-IsRow rows row id age name email intro h fetched in
      let shown_email =
        c_string-HoldsText email chars rows.memory h.email_is.from_offset (h.fits.1)
          h.email_is.holds in
      let shown_name =
        c_string-HoldsText name chars rows.memory h.name_is.from_offset (h.fits.0)
          h.name_is.holds in
      to_account m resp p counted
      ∙ rw (first, account, second) (rw (reads, shown_email, shown_name) refl)
