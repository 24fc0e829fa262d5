-- ===== src/Http/Connection/Repeats.antt =====
-- What a session of Src/Common/Http/HttpSession.cpp answers to its second request: its `HttpResponse` is not made anew.
use game_project_demo.Common.{
  ◌<◌, ◌≡◌, refl, sym, ◌∙◌, ap, Bool-cases, inl, inr, some, List, [], ◌∷◌, ◌++◌, length, All, Bytes,
  same_text,
}
use game_project_demo.Buffer.{size_mod, readable_bytes}
use game_project_demo.Buffer.Invariant.{IsValid, contents}
use game_project_demo.Session.Stream.{InStep, stream}
use game_project_demo.Http.Parser.{PhrRequest}
use game_project_demo.Http.Request.{HttpRequest}
use game_project_demo.Http.Response.{HttpResponse, set_status_code}
use game_project_demo.Http.Response.Payload.{get_payload-prefix, get_payload-head}
use game_project_demo.Http.Router.{
  HttpHandlerFunc, HttpRouter, find_handler, call_handler, outcome_response, route,
}
use game_project_demo.Http.Connection.{HttpSession, read_handler}
use game_project_demo.Http.Connection.Answers.{request_for, payload_for, read_handler_answers}

-- A handler leaves the head as it is, which is private to the response.
abbrev pub KeepsHead : Bytes × HttpHandlerFunc → Type 0
KeepsHead (key, handler) =
    (req : HttpRequest) (resp : HttpResponse)
    → (outcome_response (handler req resp)).head ≡ resp.head

call_found-head :
    (key : Bytes) (handlers : List (Bytes × HttpHandlerFunc)) (req : HttpRequest)
    (resp : HttpResponse)
    → All KeepsHead handlers
    → (call_handler (find_handler key handlers) req resp).head ≡ resp.head
unfolding find_handler call_handler set_status_code
call_found-head key [] req resp keep = refl
call_found-head key ((k, handler) ∷ handlers) req resp (keep, keeps) =
    elim (Bool-cases (same_text k key)) [
      | inl same ↦ rw same (keep req resp)
      | inr other ↦ rw other (call_found-head key handlers req resp keeps)
    ]

route-head :
    (router : HttpRouter) (req : HttpRequest) (resp : HttpResponse)
    → All KeepsHead router.http_handlers
    → (route router req resp).head ≡ resp.head
unfolding route
route-head router req resp keep = call_found-head _ router.http_handlers req resp keep

-- A session is ready for a request: it has bytes to read, nothing to send, and its payload will fit in a buffer.
pub record IsReady (phr : Bytes → PhrRequest) (date : Bytes) (s : HttpSession) : Type 0 where
  pub valid : IsValid s.base.read_buffer
  pub filled : 0 < readable_bytes s.base.read_buffer
  pub in_step : InStep s.base
  pub idle : s.base.write_queue ≡ []
  pub fits : length ((payload_for phr date (contents s.base.read_buffer) s).0) < size_mod

-- A session that answers a request, and then, with the response that it has kept, is ready for another one: what it
-- sends for the second request begins with the whole payload of the first. The handlers do what a handler can, which
-- leaves the head of the response alone.
pub second_answer_repeats :
    (phr : Bytes → PhrRequest) (date later : Bytes) (s t u : HttpSession)
    → IsReady phr date s
    → read_handler phr date s ≡ some t
    → IsReady phr later u
    → u.rep ≡ t.rep
    → All KeepsHead u.router.http_handlers
    → (v : HttpSession) × (rest : Bytes) × (read_handler phr later u ≡ some v)
      × (stream v.base
          ≡ stream u.base ++ ((payload_for phr date (contents s.base.read_buffer) s).0 ++ rest))
second_answer_repeats phr date later s t u ready ran ready' kept keep =
    let (t', ran', _, _, _, _, rep) =
      read_handler_answers phr date s ready.valid ready.filled ready.in_step ready.idle
        ready.fits in
    let (v, next, _, streamed, _, _, _) =
      read_handler_answers phr later u ready'.valid ready'.filled ready'.in_step ready'.idle
        ready'.fits in
    let first = payload_for phr date (contents s.base.read_buffer) s in
    let routed = route u.router (request_for phr (contents u.base.read_buffer) u) u.rep in
    let (rest, whole) = get_payload-prefix later routed in
    let same : t' ≡ t = cc in
    let head : routed.head ≡ first.0 =
      route-head u.router (request_for phr (contents u.base.read_buffer) u) u.rep keep
      ∙ ap (λ (r : HttpResponse). r.head) (kept ∙ ap (λ (x : HttpSession). x.rep) (sym same) ∙ rep)
      ∙ get_payload-head date
          (route s.router (request_for phr (contents s.base.read_buffer) s) s.rep) in
    (v, rest, next, streamed ∙ ap (λ p. stream u.base ++ p) (whole ∙ ap (λ h. h ++ rest) head))
