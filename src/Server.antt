-- ===== src/Server.antt =====
-- Src/Common/Net/Server.h and Server.cpp: the update of `net::IServer`; and the routes of
-- Src/Servers/HttpServer/HttpServer.cpp. Accept has the accepts and Thread the loop of the server's thread; the timer
-- that calls the update is asio's. The handlers that use the database are arguments here; Handlers, UserInfo and
-- AsyncHandlers have them.
pub mod Sessions
pub mod Routes
pub mod Handlers
pub mod AsyncHandlers
pub mod Accept
pub mod UserInfo
pub mod Thread
mod Tests
mod HandlerTests
mod AcceptTests
mod OneRow
use game_project_demo.Common.{
  ℕ, Bool, true, false, Option, none, some, ◌>>=◌, List, [], ◌∷◌, ◌++◌, if◌then◌else◌, Bytes, codes,
}
use game_project_demo.Session.{Session, update, close_session}
use game_project_demo.Async.{QueryCallback, query_callbacks, process_ready_callbacks, Effects}
use game_project_demo.Http.{ok, get}
use game_project_demo.Http.Response.{set_status_code, set_content}
use game_project_demo.Http.Router.{HttpHandlerFunc, returned}
use game_project_demo.Http.Connection.{HttpSession, add_router}

pub record IServer (R : Type 0) : Type 0 where
  pub sessions : List Session
  pub processor : List (QueryCallback R)

-- What `std::remove_if` keeps of the sessions, and those that it closed.
pub record Swept : Type 0 where
  pub kept : List Session
  pub ended : List Session

unfoldable pub sweep : List Session → Swept
sweep [] = record { kept = []; ended = [] }
sweep (s ∷ ss) =
    let rest = sweep ss in
    if update s
    then record rest { kept = s ∷ rest.kept }
    else record rest { ended = close_session s ∷ rest.ended }

-- `Update`, for functions of callbacks that leave the sessions alone.
unfoldable pub server_update :
    {R : Type 0} → Effects (QueryCallback R) R → IServer R → Option (IServer R)
server_update run server = do
  callbacks ← process_ready_callbacks (query_callbacks run) server.processor
  some (record { sessions = (sweep server.sessions).kept; processor = callbacks })

-- "Hello 你好!" in the UTF-8 of the file.
abbrev pub greeting : Bytes
greeting = codes "Hello " ++ (228 ∷ 189 ∷ 160 ∷ 229 ∷ 165 ∷ 189 ∷ codes "!")

-- The handler of "/".
unfoldable pub greet : HttpHandlerFunc
greet request resp = returned (set_content greeting (set_status_code ok resp))

-- `InitHttpRouter`, with the handlers of its other routes.
unfoldable pub init_http_router :
    HttpHandlerFunc → HttpHandlerFunc → HttpHandlerFunc → HttpSession → HttpSession
init_http_router user_info test test_async s = add_router get (codes "/testAsync") test_async (
    add_router get (codes "/test") test
      (add_router get (codes "/userInfo") user_info (add_router get (codes "/") greet s)))
