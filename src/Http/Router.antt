-- ===== src/Http/Router.antt =====
-- Src/Common/Http/HttpRouter.h and HttpRouter.cpp: `Http::HttpRouter`. A handler is any function of
-- the request and the response; it returns or throws, and either way the changes that it made to the
-- response stay.
pub mod Routes
use game_project_demo.Common.{
  Bool, true, false, Bytes, codes, Option, none, some, List, [], ◌∷◌, ◌++◌, if◌then◌else◌,
  same_text,
}
use game_project_demo.Http.{
  Status, not_found, service_unavailable, HttpMethod, http_method_to_string,
}
use game_project_demo.Http.Request.{HttpRequest, get_method, get_path}
use game_project_demo.Http.Response.{HttpResponse, set_status_code}

pub data Outcome : Type 0 where
  returned threw : HttpResponse → Outcome

abbrev pub HttpHandlerFunc : Type 0
HttpHandlerFunc = HttpRequest → HttpResponse → Outcome

-- `_httpHandlers`, whose keys are views of the texts of `_pathKeys`.
pub record HttpRouter : Type 0 where
  pub http_handlers : List (Bytes × HttpHandlerFunc)
  pub path_keys : List Bytes

unfoldable pub new_router : HttpRouter
new_router = record { http_handlers = []; path_keys = [] }

unfoldable pub find_handler : Bytes → List (Bytes × HttpHandlerFunc) → Option HttpHandlerFunc
find_handler key [] = none
find_handler key ((k, h) ∷ hs) = if same_text k key then some h else find_handler key hs

unfoldable pub has_key : Bytes → List Bytes → Bool
has_key key [] = false
has_key key (k ∷ ks) = if same_text k key then true else has_key key ks

-- `std::format("{} {}", method, path)`.
unfoldable pub whole_name : Bytes → Bytes → Bytes
whole_name method path = method ++ (b' ' ∷ path)

unfoldable pub emplace_handler : Bytes → HttpHandlerFunc → HttpRouter → HttpRouter
emplace_handler key handler r = if has_key key r.path_keys then r else record {
  http_handlers = r.http_handlers ++ (key, handler) ∷ [];
  path_keys = r.path_keys ++ key ∷ [];
}

unfoldable pub add_http_handler : HttpMethod → Bytes → HttpHandlerFunc → HttpRouter → HttpRouter
add_http_handler method path handler r =
    emplace_handler (whole_name (http_method_to_string method) path) handler r

unfoldable pub outcome_response : Outcome → HttpResponse
outcome_response (returned resp) = resp
outcome_response (threw resp) = set_status_code service_unavailable resp

unfoldable pub call_handler : Option HttpHandlerFunc → HttpRequest → HttpResponse → HttpResponse
call_handler none req resp = set_status_code not_found resp
call_handler (some handler) req resp = outcome_response (handler req resp)

unfoldable pub route : HttpRouter → HttpRequest → HttpResponse → HttpResponse
route r req resp =
    call_handler (find_handler (whole_name (get_method req) (get_path req)) r.http_handlers) req
      resp
