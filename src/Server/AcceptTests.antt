-- ===== src/Server/AcceptTests.antt =====
-- Runs of `DoAccept` of Src/Servers/HttpServer/HttpServer.cpp.
use game_project_demo.Common.{
  ◌≡◌, ◌≤◌, refl, some, [], ◌∷◌, All, Bytes, codes, same_text, length, arith, pos,
}
use game_project_demo.Util.{digits_from, decimal}
use game_project_demo.Buffer.{writable_bytes}
use game_project_demo.Buffer.Invariant.{contents}
use game_project_demo.Session.{done}
use game_project_demo.Session.Stream.{InStep, stream}
use game_project_demo.Http.{
  http_method_to_string, content_type_string, status_to_response_head, to_underlying, status_name,
}
use game_project_demo.Http.Parser.{
  PhrRequest, fresh, parse_request, request_result, store_request, take_query, split_url,
}
use game_project_demo.Http.Request.{HttpRequest, new_request, parse, get_method, get_path}
use game_project_demo.Http.Response.{
  new_response, get_payload, build_response_head, head_of, with_host, has_header, with_page,
  content_length_text, header_lines, set_status_code, set_content,
}
use game_project_demo.Http.Router.{
  HttpHandlerFunc, threw, call_handler, outcome_response, route, find_handler, add_http_handler,
  emplace_handler, has_key, new_router, whole_name,
}
use game_project_demo.Http.Router.Routes.{NotSpace, first_of}
use game_project_demo.Http.Connection.{HttpSession, new_session, add_router}
use game_project_demo.Http.Connection.Answers.{request_for, payload_for}
use game_project_demo.Http.Connection.Reading.{http_on_read}
use game_project_demo.Server.{init_http_router, greet}
use game_project_demo.Server.Routes.{routes}
use game_project_demo.Server.Accept.{
  HttpServer, start, do_accept, on_accept, waiting_session, accepted_client_is_answered,
}

abbrev failing : HttpHandlerFunc
failing req resp = threw resp

abbrev root : Bytes → PhrRequest
root text = record {
  result = pos 18;
  method = codes "GET";
  url = codes "/";
  minor_version = pos 1;
  headers = [];
}

abbrev started : HttpServer
started = record { sessions = []; accepts = 1; timers = 1 }

start_lem : start (record { sessions = []; accepts = 0; timers = 0 }) ≡ started
unfolding start do_accept
start_lem = refl

abbrev client : HttpSession
client = waiting_session failing failing failing

abbrev wanted : HttpRequest
wanted = request_for root (codes "GET / HTTP/1.1") client

method_free : All NotSpace (get_method wanted)
unfolding init_http_router add_router new_session new_request parse parse_request fresh
    request_result store_request take_query split_url
method_free = omega arith

payload-length : length ((payload_for root (codes "now") (codes "GET / HTTP/1.1") client).0) ≡ 115
unfolding get_payload build_response_head head_of route call_handler find_handler init_http_router
    add_router add_http_handler emplace_handler has_key new_session new_request new_response
    new_router parse parse_request fresh request_result store_request take_query split_url
    http_method_to_string whole_name same_text outcome_response greet with_host has_header with_page
    content_length_text header_lines content_type_string status_to_response_head decimal digits_from
    to_underlying status_name set_status_code set_content
payload-length = refl

accepted_client_is_answered_example :
    (t : HttpSession) × (on_accept failing failing failing (done tt) started
      ≡ some (record started { sessions = client ∷ [] }))
    × (http_on_read root (codes "now") (done (codes "GET / HTTP/1.1")) client ≡ some t)
    × InStep t.base
    × (stream t.base
        ≡ (get_payload (codes "now") (
            call_handler
              (first_of (get_method wanted) (get_path wanted) (routes failing failing failing))
              wanted
              new_response)).0)
    × (contents t.base.read_buffer ≡ [])
    × (t.base.pending_reads ≡ writable_bytes t.base.read_buffer ∷ [])
    × (2304 ≤ writable_bytes t.base.read_buffer)
accepted_client_is_answered_example =
    accepted_client_is_answered failing failing failing root (codes "now") (codes "GET / HTTP/1.1")
      started 0 refl (omega arith) (omega arith) method_free (omega (arith, payload-length))
