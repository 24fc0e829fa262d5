-- ===== src/Server/Accept.antt =====
-- `DoAccept` of Src/Servers/HttpServer/HttpServer.cpp, `Start` and the handler of the timer of
-- Src/Common/Net/Server.cpp: the connections that are accepted, and what the first request on one of them gets.
use game_project_demo.Common.{
  ℕ, zero, suc, ◌<◌, ◌≤◌, ◌≡◌, refl, sym, ◌∙◌, ap, Option, none, some, ◌>>=◌, List, [], ◌∷◌, ◌++◌,
  All, length, Bytes, arith, length-replicate,
}
use game_project_demo.Buffer.{size_mod, init, initial_buffer_size, writable_bytes}
use game_project_demo.Buffer.Invariant.{contents, init-IsValid}
use game_project_demo.Buffer.Growth.{grown, ensure_free_space_grows}
use game_project_demo.Session.{Completion, failed, done, async_read, open_session}
use game_project_demo.Session.Stream.{InStep, stream}
use game_project_demo.Http.Parser.{PhrRequest}
use game_project_demo.Http.Request.{get_method, get_path}
use game_project_demo.Http.Response.{new_response, get_payload}
use game_project_demo.Http.Router.{HttpHandlerFunc, call_handler}
use game_project_demo.Http.Router.Routes.{NotSpace, first_of}
use game_project_demo.Http.Connection.{HttpSession, new_session, add_router}
use game_project_demo.Http.Connection.Answers.{request_for, payload_for}
use game_project_demo.Http.Connection.Reading.{
  http_on_read, http_read_over, async_read_lem, http_received-IsReadOn,
}
use game_project_demo.Server.{init_http_router}
use game_project_demo.Server.Routes.{routes, init_http_router_lem}

-- The sessions of a server, and the requests that its socket and its timer have.
pub record HttpServer : Type 0 where
  pub sessions : List HttpSession
  pub accepts : ℕ
  pub timers : ℕ

unfoldable pub do_accept : HttpServer → HttpServer
do_accept server = record server { accepts = suc server.accepts }

-- `Start`: the first accept and the first wait of the timer.
unfoldable pub start : HttpServer → HttpServer
start server =
    let accepting = do_accept server in record accepting { timers = suc accepting.timers }

module _ (user_info test test_async : HttpHandlerFunc) where
  -- The session for a socket that was accepted, with its first read.
  unfoldable pub session_started : Option HttpSession
  session_started = do
    let s = init_http_router user_info test test_async new_session
    base ← async_read s.base
    some (record s { base = base })

  -- The handler of `async_accept`, which gives a socket or an error.
  unfoldable pub accepted : ℕ → Completion Unit → HttpServer → Option HttpServer
  accepted zero c server = none
  accepted (suc others) failed server = some (record server { accepts = others })
  accepted (suc others) (done socket) server = do
    s ← session_started
    some (do_accept (record server { sessions = server.sessions ++ s ∷ []; accepts = others }))

  unfoldable pub on_accept : Completion Unit → HttpServer → Option HttpServer
  on_accept c server = accepted server.accepts c server

  -- A run of the handler, for the completions that come.
  unfoldable pub accept_each : List (Completion Unit) → HttpServer → Option HttpServer
  accept_each [] server = some server
  accept_each (c ∷ cs) server = do server' ← on_accept c server; accept_each cs server'

  -- The session that waits for its first request.
  abbrev pub waiting_session : HttpSession
  waiting_session = record (init_http_router user_info test test_async new_session) {
    base = record open_session {
      read_buffer = grown (init initial_buffer_size);
      pending_reads = writable_bytes (grown (init initial_buffer_size)) ∷ [];
    };
  }

  session_started_lem : session_started ≡ some waiting_session
  unfolding session_started init_http_router add_router new_session open_session init
  session_started_lem =
      let long = length-replicate {A = ℕ} initial_buffer_size 0 in
      rw
        (async_read_lem open_session (init-IsValid initial_buffer_size (omega arith))
          (omega (arith, long)) (omega (arith, long)))
        refl

  -- An accepted socket gets a session that waits for its first request, and the next one is waited for.
  accepts_client :
      (server : HttpServer) (others : ℕ)
      → server.accepts ≡ suc others
      → on_accept (done tt) server
        ≡ some (record server { sessions = server.sessions ++ waiting_session ∷ [] })
  unfolding on_accept accepted do_accept
  accepts_client server others under_way =
      ap (λ n. accepted n (done tt) server) under_way
      ∙ rw session_started_lem (
          ap
            (λ n.
              some
                (record server { sessions = server.sessions ++ waiting_session ∷ []; accepts = n }))
            (sym under_way))

  -- When the only accept under way ends with an error, no other one is asked for: the handler cannot run again, so
  -- no later client is accepted. The sessions and the timer stay.
  pub accept_error_lem :
      (server : HttpServer) (later : List (Completion Unit)) (c : Completion Unit)
      → server.accepts ≡ 1
      → (on_accept failed server ≡ some (record server { accepts = 0 }))
        × (accept_each (failed ∷ c ∷ later) server ≡ none)
  unfolding on_accept accepted accept_each
  accept_error_lem server later c one =
      let stopped : on_accept failed server ≡ some (record server { accepts = 0 }) =
        ap (λ n. accepted n failed server) one in
      (stopped, rw stopped refl)

  -- While an accept is under way, a client that is accepted gets a session that waits for up to 1536 bytes, and the
  -- next accept is under way. The first bytes that the client sends, as many at most, are taken as one request: it is
  -- answered by the handler of the four routes that has its method and its path, or with 404, and the session, its
  -- read buffer empty, waits for 2304 bytes or more. A request's method has no space in it, and the payload fits in a
  -- buffer.
  pub accepted_client_is_answered :
      (phr : Bytes → PhrRequest) (date bytes : Bytes) (server : HttpServer) (others : ℕ)
      → server.accepts ≡ suc others
      → 0 < length bytes
      → length bytes ≤ 1536
      → All NotSpace (get_method (request_for phr bytes waiting_session))
      → length ((payload_for phr date bytes waiting_session).0) < size_mod
      → (t : HttpSession) × (on_accept (done tt) server
          ≡ some (record server { sessions = server.sessions ++ waiting_session ∷ [] }))
        × (http_on_read phr date (done bytes) waiting_session ≡ some t)
        × InStep t.base
        × (stream t.base
            ≡ (get_payload date (
                call_handler
                  (first_of
                    (get_method (request_for phr bytes waiting_session))
                    (get_path (request_for phr bytes waiting_session))
                    (routes user_info test test_async))
                  (request_for phr bytes waiting_session)
                  new_response)).0)
        × (contents t.base.read_buffer ≡ [])
        × (t.base.pending_reads ≡ writable_bytes t.base.read_buffer ∷ [])
        × (2304 ≤ writable_bytes t.base.read_buffer)
  unfolding http_on_read http_read_over init_http_router add_router new_session open_session init
  accepted_client_is_answered phr date bytes server others under_way some_bytes fits free payload =
      let long = length-replicate {A = ℕ} initial_buffer_size 0 in
      let (_, grown_long, valid) =
        ensure_free_space_grows (init initial_buffer_size)
          (init-IsValid initial_buffer_size (omega arith)) (omega (arith, long))
          (omega (arith, long)) in
      let ready : HttpSession = record waiting_session {
        base = record waiting_session.base { pending_reads = [] };
      } in
      let (t, ran, r) =
        http_received-IsReadOn phr date bytes ready some_bytes valid refl
          (omega (arith, grown_long, long)) (omega (arith, grown_long, long))
          (omega (arith, grown_long, long)) (record { waiting = tt; request = refl }) refl
          payload in
      (
        t,
        accepts_client server others under_way,
        ran,
        r.in_step,
        r.streamed
            ∙ ap (λ x. (get_payload date x).0)
                (init_http_router_lem user_info test test_async
                  (request_for phr bytes waiting_session) new_response free),
        r.emptied,
        r.requests,
        omega (arith, r.room, grown_long, long),
      )
