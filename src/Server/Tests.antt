-- ===== src/Server/Tests.antt =====
-- Runs of the update of Src/Common/Net/Server.cpp and of the routes of
-- Src/Servers/HttpServer/HttpServer.cpp.
use game_project_demo.Server.Thread.{Ran, returned, exception, turn_over, net_thread}
use game_project_demo.Common.{ℕ, zero, suc, some, none, ◌≡◌, refl, codes, same_text}
use game_project_demo.Http.{ok, http_method_to_string}
use game_project_demo.Http.Request.{HttpRequest}
use game_project_demo.Http.Router.Routes.{first_of}
use game_project_demo.Server.Routes.{routes}
use game_project_demo.Http.Parser.{fresh}
use game_project_demo.Http.Response.{new_response, set_status_code, set_content}
use game_project_demo.Http.Router.{HttpHandlerFunc, threw, call_handler, outcome_response}
use game_project_demo.Server.{greet, greeting}

abbrev failing : HttpHandlerFunc
failing req resp = threw resp

abbrev root_request : HttpRequest
root_request = record { parser = record fresh { method = codes "GET"; path = codes "/" } }

greeted :
    call_handler
      (first_of (codes "GET") (codes "/") (routes failing failing failing))
      root_request
      new_response
    ≡ set_content greeting (set_status_code ok new_response)
unfolding call_handler first_of http_method_to_string same_text greet outcome_response
greeted = refl

-- A context that throws as often as its number says.
unfoldable throwing : ℕ → Ran × ℕ
throwing zero = (returned, 0)
throwing (suc n) = (exception, n)

third_run_ends : net_thread throwing 3 2 ≡ some 0
unfolding net_thread turn_over throwing
third_run_ends = refl

two_runs_throw : net_thread throwing 2 2 ≡ none
unfolding net_thread turn_over throwing
two_runs_throw = refl
