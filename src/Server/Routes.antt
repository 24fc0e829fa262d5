-- ===== src/Server/Routes.antt =====
-- `HttpServer::InitHttpRouter` of Src/Servers/HttpServer/HttpServer.cpp: which handler answers.
use game_project_demo.Common.{◌≡◌, List, [], ◌∷◌, All, codes}
use game_project_demo.Http.{get}
use game_project_demo.Http.Request.{HttpRequest, get_method, get_path}
use game_project_demo.Http.Response.{HttpResponse}
use game_project_demo.Http.Router.{HttpHandlerFunc, route, call_handler}
use game_project_demo.Http.Router.Routes.{NotSpace, Registration, add_all, first_of, route-add_all}
use game_project_demo.Http.Connection.{new_session, add_router}
use game_project_demo.Server.{greet, init_http_router}

abbrev pub routes : HttpHandlerFunc → HttpHandlerFunc → HttpHandlerFunc → List Registration
routes user_info test test_async =
    (get, codes "/", greet)
    ∷ (get, codes "/userInfo", user_info)
    ∷ (get, codes "/test", test)
    ∷ (get, codes "/testAsync", test_async)
    ∷ []

-- In a session that the HTTP server has set up, a request is answered by the handler of the four
-- routes that has its method and its path, and with 404 if none has. A request's method has no space
-- in it.
pub init_http_router_lem :
    (user_info test test_async : HttpHandlerFunc) (req : HttpRequest) (resp : HttpResponse)
    → All NotSpace (get_method req)
    → route (init_http_router user_info test test_async new_session).router req resp
      ≡ call_handler
          (first_of (get_method req) (get_path req) (routes user_info test test_async))
          req
          resp
unfolding init_http_router add_router new_session add_all
init_http_router_lem user_info test test_async req resp h =
    route-add_all (routes user_info test test_async) req resp h
