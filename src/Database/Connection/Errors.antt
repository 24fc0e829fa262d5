-- ===== src/Database/Connection/Errors.antt =====
-- Src/Common/Database/MysqlConnection.cpp: `HandleMysqlErrcode` and what follows a call of the client
-- library that fails. The waits between attempts are left out.
use game_project_demo.Common.{
  ℕ, zero, suc, Bool, true, false, ◌||◌, ◌==◌, if◌then◌else◌, List, Bytes,
}
use game_project_demo.Database.{Run, stopped, finished, ◌>>=◌}
use game_project_demo.Database.Connection.{
  Library, Connection, ConnectionType, open_connection, prepare_statements,
}

-- The cases of the `switch` of `HandleMysqlErrcode`.
pub data ErrorKind : Type 0 where
  server_lost host_error skipped fatal unhandled : ErrorKind

unfoldable pub kind_of : ℕ → ErrorKind
kind_of e =
    if (e == 2006) || ((e == 2013) || (e == 2055))
    then server_lost
    else if e == 2003
    then host_error
    else if (e == 1213) || ((e == 1058) || (e == 1062))
    then skipped
    else if (e == 1054) || ((e == 1146) || (e == 1064))
    then fatal
    else unhandled

-- A `bool` where an error code is asked for.
abbrev pub code_of : Bool → ℕ
code_of true = 1
code_of false = 0

module _ {W : Type 0} (c : Library W) (max : ℕ) (stmts : List (ℕ × Bytes × ConnectionType)) where
  -- What follows `PrepareStatements` in a reconnection.
  unfoldable pub reprepared : Bool × Connection W → Run (Bool × Connection W)
  reprepared (false, s) = stopped
  reprepared (true, s) = finished (true, record s { reconnecting = false })

  -- What follows `Open` in a reconnection; `again` handles what comes after the wait.
  unfoldable pub reopened :
      (Connection W → Run (Bool × Connection W)) → ℕ × Connection W → Run (Bool × Connection W)
  reopened again (zero, s) = again s
  reopened again (suc errcode, s) = prepare_statements c max stmts s >>= reprepared

  unfoldable pub reconnect :
      (Connection W → Run (Bool × Connection W)) → Connection W → Run (Bool × Connection W)
  reconnect again s = reopened again (open_connection c (record s { reconnecting = true }))

  unfoldable pub drop_handle : Connection W → Connection W
  drop_handle s = if s.mysql then record s { mysql = false; world = c.mysql_close s.world } else s

  unfoldable pub handle_kind :
      ErrorKind
      → (Connection W → Run (Bool × Connection W))
      → Connection W
      → Run (Bool × Connection W)
  handle_kind server_lost again s = reconnect again (drop_handle s)
  handle_kind host_error again s = reconnect again s
  handle_kind skipped again s = finished (false, s)
  handle_kind fatal again s = stopped
  handle_kind unhandled again s = finished (false, s)

  -- A count that has come to 0 ends the program.
  unfoldable pub handle_mysql_errcode : ℕ → ℕ → Connection W → Run (Bool × Connection W)
  handle_mysql_errcode zero errcode s = stopped
  handle_mysql_errcode (suc tries) errcode s =
      handle_kind (kind_of errcode) (λ s'. handle_mysql_errcode tries (code_of s'.prepare_error) s')
        s

  -- Tries again when an error was handled.
  unfoldable pub if_handled :
      {R : Type 0} → (Connection W → Run R) → (Connection W → Run R) → Bool × Connection W → Run R
  if_handled again failed (false, s) = failed s
  if_handled again failed (true, s) = again s

  -- The result of a call of the client, with its error handled.
  unfoldable pub checked :
      {R : Type 0}
      → (Connection W → Run R)
      → (Connection W → Run R)
      → (W → Run R)
      → Bool × W
      → Connection W
      → Run R
  checked again failed next (true, w) s = next w
  checked again failed next (false, w) s =
      handle_mysql_errcode 5 (c.mysql_errno s.mysql w) (record s { world = w })
      >>= if_handled again failed
