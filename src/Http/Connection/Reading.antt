-- ===== src/Http/Connection/Reading.antt =====
-- The handler of `async_read_some` in Src/Common/Net/Session.cpp, when the session is an `Http::HttpSession`.
use game_project_demo.Common.{
  ℕ, ◌+◌, ◌*◌, ◌/◌, ◌<◌, ◌≤◌, ◌≡◌, refl, sym, ◌∙◌, ap, subst, Option, none, some, ◌>>=◌, List, [],
  ◌∷◌, ◌++◌, length, Bytes, arith, le→leb,
}
use game_project_demo.Buffer.{Buffer, size_mod, writable_bytes, copy_in, write_done, adjustment_all}
use game_project_demo.Buffer.Invariant.{
  IsValid, contents, length-contents, length-overwrite, writable_lem,
}
use game_project_demo.Buffer.Fifo.{filled, filled_lem}
use game_project_demo.Buffer.Growth.{grown, ensure_free_space_grows}
use game_project_demo.Session.{Session, Completion, failed, done, async_read, close_session}
use game_project_demo.Session.Stream.{InStep, stream}
use game_project_demo.Http.Parser.{PhrRequest}
use game_project_demo.Http.Connection.{HttpSession, read_handler}
use game_project_demo.Http.Connection.Answers.{payload_for, read_handler-IsAnswered}

-- What the socket wrote to the buffer, and `WriteDone`.
unfoldable pub filled_by : Bytes → Buffer → Option Buffer
filled_by bytes b = do
  filled ← copy_in b.write_index bytes b.buffer
  some (write_done (length bytes) (record b { buffer = filled }))

-- After the handling of what was read, the next read.
unfoldable pub http_received :
    (Bytes → PhrRequest) → Bytes → Bytes → HttpSession → Option HttpSession
http_received phr date bytes s = do
  buffer ← filled_by bytes s.base.read_buffer
  handled ← read_handler phr date (record s { base = record s.base { read_buffer = buffer } })
  next ← async_read handled.base
  some (record handled { base = next })

-- The handler for the oldest of these requests.
unfoldable pub http_read_over :
    (Bytes → PhrRequest) → Bytes → List ℕ → Completion Bytes → HttpSession → Option HttpSession
http_read_over phr date [] c s = none
http_read_over phr date (room ∷ others) failed s =
    some (record s { base = close_session (record s.base { pending_reads = others }) })
http_read_over phr date (room ∷ others) (done bytes) s =
    http_received phr date bytes (record s { base = record s.base { pending_reads = others } })

unfoldable pub http_on_read :
    (Bytes → PhrRequest) → Bytes → Completion Bytes → HttpSession → Option HttpSession
http_on_read phr date c s = http_read_over phr date s.base.pending_reads c s

-- The read buffer is as it was, with the bytes in it.
filled_by_lem :
    (bytes : Bytes) (b : Buffer)
    → IsValid b
    → contents b ≡ []
    → length bytes ≤ writable_bytes b
    → (filled_by bytes b ≡ some (filled bytes b))
      × IsValid (filled bytes b)
      × (contents (filled bytes b) ≡ bytes)
      × (length (filled bytes b).buffer ≡ length b.buffer)
unfolding filled_by copy_in write_done filled
filled_by_lem bytes b valid empty room =
    let fits : b.write_index + length bytes ≤ length b.buffer =
      omega (arith, writable_lem valid, valid.within) in
    let (valid', held, _) =
      filled_lem bytes b b
        (record { valid = valid; room = fits; written = refl; unread = refl; same = refl }) in
    (
      rw (le→leb _ _ fits) refl,
      valid',
      held ∙ ap (λ xs. xs ++ bytes) empty,
      length-overwrite b.write_index bytes b.buffer fits,
    )

pub async_read_lem :
    (s : Session)
    → IsValid s.read_buffer
    → 2 ≤ length s.read_buffer.buffer
    → s.read_buffer.write_index + length s.read_buffer.buffer * 3 < size_mod
    → async_read s
      ≡ some (record s {
        read_buffer = grown s.read_buffer;
        pending_reads = s.pending_reads ++ writable_bytes (grown s.read_buffer) ∷ [];
      })
unfolding async_read
async_read_lem s valid two fits = rw ((ensure_free_space_grows s.read_buffer valid two fits).0) refl

-- A buffer that has been read to its end.
emptied-IsValid :
    (c r : Buffer)
    → r ≡ adjustment_all c
    → IsValid c
    → IsValid r × (r.write_index ≡ 0) × (length r.buffer ≡ length c.buffer)
emptied-IsValid c r same valid =
    subst (λ x. IsValid x × (x.write_index ≡ 0) × (length x.buffer ≡ length c.buffer)) (sym same)
      (
        record { ordered = omega arith; within = omega arith; addressable = valid.addressable },
        refl,
        refl,
      )

-- The session after its reads: what `IsAnswered` says, and the next read.
pub record IsReadOn (phr : Bytes → PhrRequest) (date bytes : Bytes) (s t : HttpSession)
    : Type 0 where
  pub in_step : InStep t.base
  pub streamed : stream t.base ≡ stream s.base ++ (payload_for phr date bytes s).0
  pub valid : IsValid t.base.read_buffer
  pub emptied : contents t.base.read_buffer ≡ []
  pub room : length s.base.read_buffer.buffer * 3 / 2 ≤ writable_bytes t.base.read_buffer
  pub requests :
      t.base.pending_reads ≡ s.base.pending_reads ++ writable_bytes t.base.read_buffer ∷ []

pub http_received-IsReadOn :
    (phr : Bytes → PhrRequest) (date bytes : Bytes) (s : HttpSession)
    → 0 < length bytes
    → IsValid s.base.read_buffer
    → contents s.base.read_buffer ≡ []
    → length bytes ≤ writable_bytes s.base.read_buffer
    → 2 ≤ length s.base.read_buffer.buffer
    → length s.base.read_buffer.buffer * 3 < size_mod
    → InStep s.base
    → s.base.write_queue ≡ []
    → length ((payload_for phr date bytes s).0) < size_mod
    → (t : HttpSession) × (http_received phr date bytes s ≡ some t) × IsReadOn phr date bytes s t
unfolding http_received
http_received-IsReadOn phr date bytes s some_bytes valid empty room two fits step idle payload =
    let b = s.base.read_buffer in
    let (stored, valid', held, long) = filled_by_lem bytes b valid empty room in
    let s' : HttpSession = record s { base = record s.base { read_buffer = filled bytes b } } in
    let step' : InStep s'.base = record { waiting = step.waiting; request = step.request } in
    let (t, ran, a) =
      read_handler-IsAnswered phr date s' valid'
        (omega (arith, length-contents valid', ap length held)) step' idle
        (subst (λ xs. length ((payload_for phr date xs s).0) < size_mod) (sym held) payload) in
    let (free, start, same_long) =
      emptied-IsValid (filled bytes b) t.base.read_buffer a.emptied valid' in
    let (_, grown_long, grown_valid) =
      ensure_free_space_grows t.base.read_buffer free (omega (arith, same_long, long))
        (omega (arith, same_long, long, start)) in
    let next =
      async_read_lem t.base free (omega (arith, same_long, long))
        (omega (arith, same_long, long, start)) in
    (
      record t {
        base = record t.base {
          read_buffer = grown t.base.read_buffer;
          pending_reads = t.base.pending_reads ++ writable_bytes (grown t.base.read_buffer) ∷ [];
        };
      },
      rw (stored, ran, next) refl,
      record {
        in_step = record { waiting = a.in_step.waiting; request = a.in_step.request };
        streamed = a.streamed ∙ ap (λ xs. stream s.base ++ (payload_for phr date xs s).0) held;
        valid = grown_valid;
        emptied = ap (λ x. contents (grown x)) a.emptied;
        room = omega (arith, writable_lem grown_valid, grown_long, start, same_long, long);
        requests = ap (λ rs. rs ++ writable_bytes (grown t.base.read_buffer) ∷ []) a.requests;
      },
    )
