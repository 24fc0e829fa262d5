-- ===== src/Database.antt =====
-- Src/Common/Database: what its parts share. The MySQL client library is not under the program's own
-- code: `Client` holds its functions, over a state `W` that stands for the library and the server.
pub mod Connection
pub mod Transaction
pub mod Tasks
pub mod Pool
pub mod Field
pub mod Columns
pub mod Statement
pub mod Results
pub mod LoginDatabase
mod Tests
use game_project_demo.Common.{ℕ, Bool, true, false, List, Bytes, Option}

-- What a call comes to: a result, the end of the program (`std::abort`, a failed `Assert` or
-- undefined behaviour), or nothing within the fuel.
pub data Run (A : Type 0) : Type 0 where
  stopped unfinished : Run A
  finished : A → Run A

infixl 15 ◌>>=◌
unfoldable pub ◌>>=◌ : {A B : Type 0} → Run A → (A → Run B) → Run B
stopped >>= f = stopped
unfinished >>= f = unfinished
finished a >>= f = f a

-- The functions of the client library; a result true is a success. `mysql_errno` is told whether its
-- handle is there, and not a null pointer. `Params` are the arguments of a prepared statement, which is known by its
-- text.
pub record Client (W Params : Type 0) : Type 0 where
  pub mysql_init : W → Bool × W
  pub mysql_real_connect : W → Bool × W
  pub mysql_setup : W → W
  pub mysql_close : W → W
  pub mysql_errno : Bool → W → ℕ
  pub mysql_query : Bytes → W → Bool × W
  pub mysql_stmt_init : W → Bool × W
  pub mysql_stmt_prepare : Bytes → W → Bool × W
  pub mysql_stmt_param_count : Bytes → W → ℕ
  pub mysql_stmt_bind_param : Bytes → Params → W → Bool × W
  pub mysql_stmt_execute : Bytes → W → Bool × W
