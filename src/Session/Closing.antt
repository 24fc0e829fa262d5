-- ===== src/Session/Closing.antt =====
-- Src/Common/Net/Session.cpp: a session is shut down once, and stays closed.
use game_project_demo.Common.{
  ℕ, ◌≡◌, refl, true, Option, some, List, [], ◌∷◌, ◌++◌, if◌then◌else◌, leb, Bytes, arith,
  Bool-cases, inl, inr, >>=-eq-some, ◌>>=◌, take, subst,
}
use game_project_demo.Buffer.{Buffer, readable_bytes, copy_in, ensure_free_space}
use game_project_demo.Session.{
  Session, Completion, failed, done, open_session, async_write, async_read, write_front, send_msg,
  on_write, on_read, received, read_over, write_over, wrote, after_write, close_session,
  delayed_close_session,
}

-- Shut down once if closed, and not at all if open.
abbrev pub IsShutOnce : Session → Type 0
IsShutOnce s = s.shutdowns ≡ (if s.closed then 1 else 0)

-- What a step keeps of one session in the next.
pub record Keeps (s t : Session) : Type 0 where
  pub once : IsShutOnce s → IsShutOnce t
  pub closed : s.closed ≡ true → t.closed ≡ true

Keeps-refl : (s : Session) → Keeps s s
Keeps-refl s = record { once = λ h. h; closed = λ h. h }

Keeps-trans : {s t u : Session} → Keeps s t → Keeps t u → Keeps s u
Keeps-trans p q = record { once = λ h. q.once (p.once h); closed = λ h. q.closed (p.closed h) }

close_session-Keeps : (s : Session) → Keeps s (close_session s)
unfolding close_session
close_session-Keeps s = record { once = λ h. ground arith; closed = λ h. ground arith }

write_front-Keeps : (q : List Buffer) (s t : Session) → write_front q s ≡ some t → Keeps s t
unfolding write_front
write_front-Keeps [] s t e = record { once = λ h. ground arith; closed = λ h. ground arith }
write_front-Keeps (b ∷ bs) s t e = record { once = λ h. ground arith; closed = λ h. ground arith }

send_msg-Keeps : (m : Buffer) (s t : Session) → send_msg m s ≡ some t → Keeps s t
unfolding send_msg async_write
send_msg-Keeps m s t e = elim (Bool-cases (leb (readable_bytes m) 0)) [
  | inl empty ↦ record { once = λ h. ground arith; closed = λ h. ground arith }
  | inr bytes ↦
      Keeps-trans {t = record s { write_queue = s.write_queue ++ m ∷ [] }}
        (record { once = λ h. h; closed = λ h. h })
        (write_front-Keeps (s.write_queue ++ m ∷ []) _ t (rw bytes at e))
]

after_write-Keeps : (q : List Buffer) (s t : Session) → after_write q s ≡ some t → Keeps s t
unfolding after_write async_write close_session
after_write-Keeps [] s t e = record { once = λ h. ground arith; closed = λ h. ground arith }
after_write-Keeps (b ∷ bs) s t e =
    Keeps-trans {t = record s { write_queue = b ∷ bs }} (record { once = λ h. h; closed = λ h. h })
      (write_front-Keeps (b ∷ bs) _ t e)

wrote-Keeps : (q : List Buffer) (count : ℕ) (s t : Session) → wrote q count s ≡ some t → Keeps s t
unfolding wrote
wrote-Keeps [] count s t e = cc
wrote-Keeps (b ∷ bs) count s t e = after_write-Keeps _ s t e

write_over-Keeps :
    (ps : List Bytes) (c : Completion ℕ) (s t : Session) → write_over ps c s ≡ some t → Keeps s t
unfolding write_over close_session
write_over-Keeps [] c s t e = cc
write_over-Keeps (p ∷ ps) failed s t e = record {
  once = λ h. ground arith;
  closed = λ h. ground arith;
}
write_over-Keeps (p ∷ ps) (done count) s t e =
    Keeps-trans (record { once = λ h. h; closed = λ h. h })
      (wrote-Keeps s.write_queue count
        (record s { pending_writes = ps; peer = s.peer ++ take count p }) t e)

async_read-Keeps : (s t : Session) → async_read s ≡ some t → Keeps s t
unfolding async_read
async_read-Keeps s t e =
    let (b, _, e') = >>=-eq-some (ensure_free_space s.read_buffer) _ e in
    record { once = λ h. ground arith; closed = λ h. ground arith }

-- What the virtual `ReadHandler` does to a session, in the terms above.
abbrev pub HandlerKeeps : (Session → Option Session) → Type 0
HandlerKeeps handler = (s t : Session) → handler s ≡ some t → Keeps s t

module _ (handler : Session → Option Session) (handler_keeps : HandlerKeeps handler) where
  received-Keeps : (bs : Bytes) (s t : Session) → received handler bs s ≡ some t → Keeps s t
  unfolding received
  received-Keeps bs s t e =
      let (filled, _, e') =
        >>=-eq-some (copy_in s.read_buffer.write_index bs s.read_buffer.buffer) _ e in
      let (u, handled, e'') = >>=-eq-some (handler _) _ e' in
      Keeps-trans (record { once = λ h. h; closed = λ h. h })
        (Keeps-trans (handler_keeps _ u handled) (async_read-Keeps u t e''))

  read_over-Keeps :
      (ps : List ℕ) (c : Completion Bytes) (s t : Session)
      → read_over handler ps c s ≡ some t
      → Keeps s t
  unfolding read_over close_session
  read_over-Keeps [] c s t e = cc
  read_over-Keeps (p ∷ ps) failed s t e = record {
    once = λ h. ground arith;
    closed = λ h. ground arith;
  }
  read_over-Keeps (p ∷ ps) (done bs) s t e =
      Keeps-trans (record { once = λ h. h; closed = λ h. h })
        (received-Keeps bs (record s { pending_reads = ps }) t e)

-- What can happen to a session, in any order.
pub data Event : Type 0 where
  sends : Buffer → Event
  reads : Completion Bytes → Event
  writes : Completion ℕ → Event
  closes delays starts : Event

unfoldable pub step : (Session → Option Session) → Event → Session → Option Session
step handler (sends m) s = send_msg m s
step handler (reads c) s = on_read handler c s
step handler (writes c) s = on_write c s
step handler closes s = some (close_session s)
step handler delays s = some (delayed_close_session s)
step handler starts s = async_read s

unfoldable pub run : (Session → Option Session) → List Event → Session → Option Session
run handler [] s = some s
run handler (e ∷ es) s = step handler e s >>= run handler es

module _ (handler : Session → Option Session) (handler_keeps : HandlerKeeps handler) where
  step-Keeps : (e : Event) (s t : Session) → step handler e s ≡ some t → Keeps s t
  unfolding step on_read on_write delayed_close_session
  step-Keeps (sends m) s t e = send_msg-Keeps m s t e
  step-Keeps (reads c) s t e = read_over-Keeps handler handler_keeps s.pending_reads c s t e
  step-Keeps (writes c) s t e = write_over-Keeps s.pending_writes c s t e
  step-Keeps closes s t e =
      let same : close_session s ≡ t = cc in subst (Keeps s) same (close_session-Keeps s)
  step-Keeps delays s t e = record { once = λ h. ground arith; closed = λ h. ground arith }
  step-Keeps starts s t e = async_read-Keeps s t e

  run-Keeps : (es : List Event) (s t : Session) → run handler es s ≡ some t → Keeps s t
  unfolding run
  run-Keeps [] s t e = let same : s ≡ t = cc in subst (Keeps s) same (Keeps-refl s)
  run-Keeps (e ∷ es) s t ran =
      let (u, first, rest) = >>=-eq-some (step handler e s) _ ran in
      Keeps-trans (step-Keeps e s u first) (run-Keeps es u t rest)

  -- Whatever sends, completions, errors and closings come, in any order, a new session shuts its
  -- socket down at most once: once if it has been closed, and never if it is still open; and from
  -- a closed session only closed ones are reached. The read handler is any that keeps both.
  pub shut_down_once :
      (es fs : List Event) (t u : Session)
      → run handler es open_session ≡ some t
      → run handler fs t ≡ some u
      → IsShutOnce t × IsShutOnce u × (t.closed ≡ true → u.closed ≡ true)
  unfolding open_session
  shut_down_once es fs t u first rest =
      let k = run-Keeps es open_session t first in
      let l = run-Keeps fs t u rest in (k.once refl, l.once (k.once refl), l.closed)
