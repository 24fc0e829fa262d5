-- ===== src/Http/Connection/Answers.antt =====
-- `HttpSession::ReadHandler` of Src/Common/Http/HttpSession.cpp: what a client gets for its bytes.
use game_project_demo.Common.{
  ℕ, ◌+◌, ◌<◌, ◌≡◌, ◌≢◌, refl, ◌∙◌, ap, some, lt→leb_false, [], ◌∷◌, ◌++◌, length, Bytes, arith,
}
use game_project_demo.Buffer.{adjustment_all, Buffer, size_mod, readable_bytes, init}
use game_project_demo.Buffer.Invariant.{IsValid, contents, length-contents, init-IsValid}
use game_project_demo.Buffer.Fifo.{write_lem}
use game_project_demo.Buffer.Reads.{read_all-exact}
use game_project_demo.Session.{Session}
use game_project_demo.Session.Stream.{InStep, stream, send_msg-stream}
use game_project_demo.Session.Kept.{send_msg-keeps}
use game_project_demo.Http.Parser.{PhrRequest}
use game_project_demo.Http.Request.{HttpRequest, parse}
use game_project_demo.Http.Response.{HttpResponse, get_payload}
use game_project_demo.Http.Router.{route}
use game_project_demo.Http.Connection.{HttpSession, send_payload, answer, read_handler}

-- The request and the payload for a text.
abbrev pub request_for : (Bytes → PhrRequest) → Bytes → HttpSession → HttpRequest
request_for phr text s = (parse phr text s.req).1

abbrev pub payload_for : (Bytes → PhrRequest) → Bytes → Bytes → HttpSession → Bytes × HttpResponse
payload_for phr date text s = get_payload date (route s.router (request_for phr text s) s.rep)

contents-init : (n : ℕ) → n < size_mod → contents (init n) ≡ []
unfolding init
contents-init n h = refl

init-room : (n : ℕ) → n < size_mod → (init n).write_index + n < size_mod
unfolding init
init-room n h = omega arith

pub some_bytes : (b : Buffer) → IsValid b → 0 < readable_bytes b → contents b ≢ []
some_bytes b v h e = omega (arith, length-contents v, ap length e)

send_payload_lem :
    (response : Bytes) (s : Session)
    → InStep s
    → s.write_queue ≡ []
    → length response < size_mod
    → (t : Session) × (send_payload response s ≡ some t)
      × InStep t
      × (stream t ≡ stream s ++ response)
      × (t.read_buffer ≡ s.read_buffer)
      × (t.pending_reads ≡ s.pending_reads)
unfolding send_payload
send_payload_lem response s step idle h =
    let (packet, written, valid, held, _) =
      write_lem response (init (length response)) (init-IsValid (length response) h)
        (init-room (length response) h) in
    let (t, sent, step', streamed) = send_msg-stream packet s valid step idle in
    (
      t,
      rw written sent,
      step',
      streamed
          ∙ ap (◌++◌ (stream s))
              (held ∙ ap (λ c. c ++ response) (contents-init (length response) h)),
      send_msg-keeps (λ u. u.read_buffer) packet s t (λ u q r. refl) sent,
      send_msg-keeps (λ u. u.pending_reads) packet s t (λ u q r. refl) sent,
    )

answer_lem :
    (phr : Bytes → PhrRequest) (date text : Bytes) (s : HttpSession)
    → text ≢ []
    → InStep s.base
    → s.base.write_queue ≡ []
    → length ((payload_for phr date text s).0) < size_mod
    → (t : HttpSession) × (answer phr date text s ≡ some t)
      × InStep t.base
      × (stream t.base ≡ stream s.base ++ (payload_for phr date text s).0)
      × (t.base.read_buffer ≡ s.base.read_buffer)
      × (t.base.pending_reads ≡ s.base.pending_reads)
      × (t.req ≡ request_for phr text s)
      × (t.rep ≡ (payload_for phr date text s).1)
unfolding answer
answer_lem phr date [] s nonempty step idle h = absurd (nonempty refl)
answer_lem phr date (c ∷ cs) s nonempty step idle h =
    let payload = payload_for phr date (c ∷ cs) s in
    let (base, sent, step', streamed, kept, requests) =
      send_payload_lem (payload.0) s.base step idle h in
    (
      record s { base = base; req = request_for phr (c ∷ cs) s; rep = payload.1 },
      rw sent refl,
      step',
      streamed,
      kept,
      requests,
      refl,
      refl,
    )

-- What a handled text leaves behind.
pub record IsAnswered (phr : Bytes → PhrRequest) (date : Bytes) (s t : HttpSession) : Type 0 where
  pub in_step : InStep t.base
  pub streamed :
      stream t.base ≡ stream s.base ++ (payload_for phr date (contents s.base.read_buffer) s).0
  pub emptied : t.base.read_buffer ≡ adjustment_all s.base.read_buffer
  pub requests : t.base.pending_reads ≡ s.base.pending_reads
  pub parsed : t.req ≡ request_for phr (contents s.base.read_buffer) s
  pub responded : t.rep ≡ (payload_for phr date (contents s.base.read_buffer) s).1

pub read_handler-IsAnswered :
    (phr : Bytes → PhrRequest) (date : Bytes) (s : HttpSession)
    → IsValid s.base.read_buffer
    → 0 < readable_bytes s.base.read_buffer
    → InStep s.base
    → s.base.write_queue ≡ []
    → length ((payload_for phr date (contents s.base.read_buffer) s).0) < size_mod
    → (t : HttpSession) × (read_handler phr date s ≡ some t) × IsAnswered phr date s t
unfolding read_handler
read_handler-IsAnswered phr date s valid nonempty step idle h =
    let text = contents s.base.read_buffer in
    let s' : HttpSession = record s {
      base = record s.base { read_buffer = adjustment_all s.base.read_buffer };
    } in
    let step' : InStep s'.base = record { waiting = step.waiting; request = step.request } in
    let (t, ran, in_step, streamed, kept, requests, req, rep) =
      answer_lem phr date text s' (some_bytes s.base.read_buffer valid nonempty) step' idle h in
    (
      t,
      rw
          (
            lt→leb_false (readable_bytes s.base.read_buffer) 0 nonempty,
            read_all-exact s.base.read_buffer valid,
          )
          ran,
      record {
        in_step = in_step;
        streamed = streamed;
        emptied = kept;
        requests = requests;
        parsed = req;
        responded = rep;
      },
    )

-- A session in step that has bytes to read and nothing to send takes all the bytes as one request, hands
-- them to the parser and the router, and what its client is sent grows by the payload of the
-- response, whole and in order. The read buffer is empty afterwards. The payload has to fit in a
-- buffer.
pub read_handler_answers :
    (phr : Bytes → PhrRequest) (date : Bytes) (s : HttpSession)
    → IsValid s.base.read_buffer
    → 0 < readable_bytes s.base.read_buffer
    → InStep s.base
    → s.base.write_queue ≡ []
    → length ((payload_for phr date (contents s.base.read_buffer) s).0) < size_mod
    → (t : HttpSession) × (read_handler phr date s ≡ some t)
      × InStep t.base
      × (stream t.base ≡ stream s.base ++ (payload_for phr date (contents s.base.read_buffer) s).0)
      × (contents t.base.read_buffer ≡ [])
      × (t.req ≡ request_for phr (contents s.base.read_buffer) s)
      × (t.rep ≡ (payload_for phr date (contents s.base.read_buffer) s).1)
read_handler_answers phr date s valid nonempty step idle h =
    let (t, ran, a) = read_handler-IsAnswered phr date s valid nonempty step idle h in
    (t, ran, a.in_step, a.streamed, ap contents a.emptied, a.parsed, a.responded)
