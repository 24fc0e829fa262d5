-- ===== src/Database/LoginDatabase.antt =====
-- Src/Common/Database/DatabaseImpl/LoginDatabase.h: the statements of the login database.
use game_project_demo.Common.{
  ℕ, ◌==◌, Option, none, some, List, [], ◌∷◌, Bytes, codes, if◌then◌else◌,
}
use game_project_demo.Database.Connection.{ConnectionType, sync}
use game_project_demo.Database.Statement.{SqlArgType, string}

-- `LoginDatabaseEnum`.
abbrev pub login_sel_account_by_email : ℕ
login_sel_account_by_email = 0

abbrev pub login_ins_account : ℕ
login_ins_account = 1

abbrev pub login_database_enum_max : ℕ
login_database_enum_max = 2

pub record SqlStmtData : Type 0 where
  pub sql : Bytes
  pub arg_types : List SqlArgType
  pub join_connection_type : ConnectionType

-- `g_LoginDatabaseStmtMap`.
abbrev pub login_database_stmt_map : List (ℕ × SqlStmtData)
login_database_stmt_map =
    (
      login_sel_account_by_email,
      record {
        sql = codes "select id, name, email, age, intro from account where email= ?";
        arg_types = string ∷ [];
        join_connection_type = sync;
      },
    )
    ∷ []

-- `find` of the map.
unfoldable pub find_statement : ℕ → List (ℕ × SqlStmtData) → Option SqlStmtData
find_statement key [] = none
find_statement key ((k, d) ∷ items) = if k == key then some d else find_statement key items

-- What `DoPrepareStatements` hands to `PrepareStatement`, for each entry.
unfoldable pub statements_of : List (ℕ × SqlStmtData) → List (ℕ × Bytes × ConnectionType)
statements_of [] = []
statements_of ((k, d) ∷ items) = (k, d.sql, d.join_connection_type) ∷ statements_of items
