-- ===== src/Http/Connection.antt =====
-- Src/Common/Http/HttpSession.h and HttpSession.cpp: `Http::HttpSession`, the handler of the bytes
-- that a connection has read.
pub mod Answers
pub mod Reading
pub mod Repeats
pub mod Refused
use game_project_demo.Common.{
  ℕ, Bool, Bytes, Option, none, some, ◌>>=◌, List, [], ◌∷◌, if◌then◌else◌, leb, length,
}
use game_project_demo.Buffer.{Buffer, init, write, readable_bytes, read_all_as_string}
use game_project_demo.Session.{Session, open_session, send_msg}
use game_project_demo.Http.{HttpMethod}
use game_project_demo.Http.Parser.{PhrRequest}
use game_project_demo.Http.Request.{HttpRequest, new_request, parse}
use game_project_demo.Http.Response.{HttpResponse, new_response, get_payload}
use game_project_demo.Http.Router.{HttpRouter, HttpHandlerFunc, new_router, add_http_handler, route}

pub record HttpSession : Type 0 where
  pub base : Session
  pub req : HttpRequest
  pub rep : HttpResponse
  pub router : HttpRouter

unfoldable pub new_session : HttpSession
new_session = record {
  base = open_session;
  req = new_request;
  rep = new_response;
  router = new_router;
}

unfoldable pub add_router : HttpMethod → Bytes → HttpHandlerFunc → HttpSession → HttpSession
add_router method path handler s = record s {
  router = add_http_handler method path handler s.router;
}

-- Sends a payload in a buffer of its size.
unfoldable pub send_payload : Bytes → Session → Option Session
send_payload response base = do
  packet ← write response (init (length response))
  send_msg packet base

-- The status that `Parse` returns is dropped.
unfoldable pub answer : (Bytes → PhrRequest) → Bytes → Bytes → HttpSession → Option HttpSession
answer phr date [] s = some s
answer phr date (c ∷ cs) s =
    let req = (parse phr (c ∷ cs) s.req).1 in
    let payload = get_payload date (route s.router req s.rep) in
    do
      sent ← send_payload (payload.0) s.base
      some (record s { base = sent; req = req; rep = payload.1 })

unfoldable pub read_handler : (Bytes → PhrRequest) → Bytes → HttpSession → Option HttpSession
read_handler phr date s = if leb (readable_bytes s.base.read_buffer) 0 then some s else (do
  packet ← read_all_as_string s.base.read_buffer
  answer phr date (packet.0) (record s { base = record s.base { read_buffer = packet.1 } }))
