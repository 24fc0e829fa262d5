-- ===== src/Http/Connection/Refused.antt =====
-- What `HttpSession::ReadHandler` of Src/Common/Http/HttpSession.cpp answers to a text that the header parser refuses.
use game_project_demo.Common.{
  ℕ, ◌<◌, ◌≡◌, ◌≢◌, refl, sym, ◌∙◌, ap, subst, false, none, some, List, [], ◌∷◌, ◌++◌, length, All,
  Bytes, same_text, negsuc,
}
use game_project_demo.Buffer.{size_mod, readable_bytes}
use game_project_demo.Buffer.Invariant.{IsValid, contents}
use game_project_demo.Session.Stream.{InStep, stream}
use game_project_demo.Http.{
  HttpMethod, unknown, delete, get, head, post, put, patch, connect, options, http_method_to_string,
  internal_server_error, not_found,
}
use game_project_demo.Http.Parser.{PhrRequest, fresh}
use game_project_demo.Http.Parser.Requests.{parse_request-failed}
use game_project_demo.Http.Request.{
  HttpRequest, new_request, parse, parse_status, get_method, get_path,
}
use game_project_demo.Http.Response.{HttpResponse, set_status_code, get_payload}
use game_project_demo.Http.Router.{route, new_router, call_handler}
use game_project_demo.Http.Router.Routes.{NotSpace, Registration, add_all, first_of, route-add_all}
use game_project_demo.Http.Connection.{HttpSession, read_handler}
use game_project_demo.Http.Connection.Answers.{
  request_for, payload_for, some_bytes, read_handler_answers,
}

named : (m : HttpMethod) → same_text (http_method_to_string m) [] ≡ false
unfolding same_text http_method_to_string
named unknown = refl
named delete = refl
named get = refl
named head = refl
named post = refl
named put = refl
named patch = refl
named connect = refl
named options = refl

-- No handler is registered for an empty method.
none_for_empty : (path : Bytes) (regs : List Registration) → first_of [] path regs ≡ none
unfolding first_of
none_for_empty path [] = refl
none_for_empty path ((m, p, h) ∷ regs) = rw (named m) (none_for_empty path regs)

-- A refused text leaves the method as it was.
refused_lem :
    (phr : Bytes → PhrRequest) (text : Bytes) (n : ℕ) (req : HttpRequest)
    → text ≢ []
    → (phr text).result ≡ negsuc n
    → ((parse phr text req).0 ≡ internal_server_error)
      × (get_method ((parse phr text req).1) ≡ get_method req)
unfolding parse parse_status
refused_lem phr [] n req nonempty refuses = absurd (nonempty refl)
refused_lem phr (c ∷ cs) n req nonempty refuses =
    let (zero_length, method, _, _, _) =
      parse_request-failed phr (c ∷ cs) n req.parser nonempty refuses in
    (ap parse_status zero_length, method)

unnamed_request : get_method new_request ≡ []
unfolding new_request fresh
unnamed_request = refl

routed_lem :
    (regs : List Registration) (req : HttpRequest) (resp : HttpResponse)
    → get_method req ≡ []
    → route (add_all regs new_router) req resp ≡ set_status_code not_found resp
unfolding call_handler
routed_lem regs req resp unnamed =
    route-add_all regs req resp (subst (All NotSpace) (sym unnamed) tt)
    ∙ rw (unnamed, none_for_empty (get_path req) regs) refl

-- The first text that a session reads, when the header parser refuses it, as it does a request that is malformed and
-- one of which a part is still to come: `Parse` gives the status 500, and `ReadHandler` drops it. Whatever handlers are
-- registered, none is called, the bytes are taken as a whole request, and the client is sent, once, the payload
-- for the status 404, if it fits in a buffer. The session is in step, with an empty read buffer.
pub refused_text_is_answered :
    (phr : Bytes → PhrRequest) (date : Bytes) (n : ℕ) (regs : List Registration) (s : HttpSession)
    → IsValid s.base.read_buffer
    → 0 < readable_bytes s.base.read_buffer
    → InStep s.base
    → s.base.write_queue ≡ []
    → s.req ≡ new_request
    → s.router ≡ add_all regs new_router
    → (phr (contents s.base.read_buffer)).result ≡ negsuc n
    → length ((get_payload date (set_status_code not_found s.rep)).0) < size_mod
    → ((parse phr (contents s.base.read_buffer) s.req).0 ≡ internal_server_error)
      × ((t : HttpSession) × (read_handler phr date s ≡ some t)
          × InStep t.base
          × (stream t.base
              ≡ stream s.base ++ (get_payload date (set_status_code not_found s.rep)).0)
          × (contents t.base.read_buffer ≡ []))
refused_text_is_answered phr date n regs s valid filled step idle new registered refuses fits =
    let text = contents s.base.read_buffer in
    let (status, same) =
      refused_lem phr text n s.req (some_bytes s.base.read_buffer valid filled) refuses in
    let routed : route s.router (request_for phr text s) s.rep ≡ set_status_code not_found s.rep =
      ap (λ r. route r (request_for phr text s) s.rep) registered
      ∙ routed_lem regs (request_for phr text s) s.rep
          (same ∙ ap get_method new ∙ unnamed_request) in
    let payload : (payload_for phr date text s).0
        ≡ (get_payload date (set_status_code not_found s.rep)).0 =
      ap (λ r. (get_payload date r).0) routed in
    let (t, ran, in_step, streamed, emptied, _, _) =
      read_handler_answers phr date s valid filled step idle
        (subst (λ (p : Bytes). length p < size_mod) (sym payload) fits) in
    (status, (t, ran, in_step, streamed ∙ ap (λ p. stream s.base ++ p) payload, emptied))
