-- ===== src/Session/Stream.antt =====
-- Src/Common/Net/Session.cpp: what the peer of a session receives, as long as a message is handed
-- over only when no write is under way.
use game_project_demo.Common.{
  ℕ, ◌≤◌, ◌<◌, ◌≡◌, refl, sym, ◌∙◌, ap, ap₂, true, some, List, [], ◌∷◌, ◌++◌, leb, ◌==◌, ==_iff,
  if◌then◌else◌, length, take, drop, Bytes, arith, All, Bool-cases, inl, inr, tests, append_assoc,
  append-nil, take-append-drop, take_all, subst,
}
use game_project_demo.Buffer.{Buffer, readable_bytes, read_done}
use game_project_demo.Buffer.Invariant.{IsValid, contents, length-contents}
use game_project_demo.Buffer.Reads.{read_done_lem, copy_out_lem}
use game_project_demo.Session.{
  Session, done, write_front, async_write, send_msg, on_write, write_over, wrote, after_write,
  close_session,
}

-- A buffer of the write queue: valid, with something left to send.
pub record IsWaiting (b : Buffer) : Type 0 where
  pub valid : IsValid b
  pub nonempty : 0 < readable_bytes b

abbrev pub unsent : List Buffer → Bytes
unsent [] = []
unsent (b ∷ bs) = contents b ++ unsent bs

-- The one request that belongs to a queue: the bytes of its first buffer.
abbrev pub request_of : List Buffer → List Bytes
request_of [] = []
request_of (b ∷ bs) = contents b ∷ []

pub record InStep (s : Session) : Type 0 where
  pub waiting : All IsWaiting s.write_queue
  pub request : s.pending_writes ≡ request_of s.write_queue

-- What the peer has, then what is still to come.
abbrev pub stream : Session → Bytes
stream s = s.peer ++ unsent s.write_queue

pub write_front_lem :
    (b : Buffer) (bs : List Buffer) (s : Session)
    → IsValid b
    → write_front (b ∷ bs) s
      ≡ some (record s { pending_writes = s.pending_writes ++ contents b ∷ [] })
unfolding write_front
write_front_lem b bs s v =
    rw
      (
        copy_out_lem (readable_bytes b) b v (omega arith),
        take_all (readable_bytes b) (contents b) (omega (arith, length-contents v)),
      )
      refl

no_contents : (b : Buffer) → IsValid b → leb (readable_bytes b) 0 ≡ true → contents b ≡ []
no_contents b v h = length_zero (contents b) (omega (tests, length-contents v))
  where
    length_zero : (xs : Bytes) → length xs ≡ 0 → xs ≡ []
    length_zero [] e = refl
    length_zero (x ∷ xs) e = absurd (omega arith)

-- A message that is handed to an idle session joins the stream, and the session stays in step.
pub send_msg-stream :
    (m : Buffer) (s : Session)
    → IsValid m
    → InStep s
    → s.write_queue ≡ []
    → (t : Session) × (send_msg m s ≡ some t) × InStep t × (stream t ≡ stream s ++ contents m)
unfolding send_msg async_write
send_msg-stream m s v h idle = elim (Bool-cases (leb (readable_bytes m) 0)) [
  | inl empty ↦ (
    s,
    rw empty refl,
    h,
    sym (ap (◌++◌ (stream s)) (no_contents m v empty) ∙ append-nil (stream s)),
  )
  | inr some_bytes ↦ (
    record s { write_queue = m ∷ []; pending_writes = contents m ∷ [] },
    rw some_bytes (
        ap (λ q. write_front (q ++ m ∷ []) (record s { write_queue = q ++ m ∷ [] })) idle
        ∙ write_front_lem m [] (record s { write_queue = m ∷ [] }) v
        ∙ ap
            (λ (ps : List Bytes).
              some (record s { write_queue = m ∷ []; pending_writes = ps ++ contents m ∷ [] }))
            (h.request ∙ ap request_of idle)),
    record { waiting = (record { valid = v; nonempty = omega tests }, tt); request = refl },
    ap (◌++◌ s.peer) (append-nil (contents m))
        ∙ sym (
            ap (λ q. (s.peer ++ unsent q) ++ contents m) idle
            ∙ ap (λ zs. zs ++ contents m) (append-nil s.peer)),
  )
]

-- What is left of a queue when `count` bytes of its first buffer have gone out.
unfoldable pub rest_of : ℕ → Buffer → List Buffer → List Buffer
rest_of count b bs = if readable_bytes (read_done count b) == 0 then bs else read_done count b ∷ bs

rest_of-unsent :
    (count : ℕ) (b : Buffer) (bs : List Buffer)
    → IsValid b
    → count ≤ readable_bytes b
    → take count (contents b) ++ unsent (rest_of count b bs) ≡ unsent (b ∷ bs)
unfolding rest_of
rest_of-unsent count b bs v h =
    let (valid, dropped, left) = read_done_lem count b v h in
    elim (Bool-cases (readable_bytes (read_done count b) == 0)) [
      | inl gone ↦ rw gone (
          ap (λ zs. zs ++ unsent bs)
            (take_all count (contents b)
              (omega (arith, (==_iff _ _).0 gone, left, length-contents v))))
      | inr more ↦
          rw (more, dropped)
            (sym (append_assoc (take count (contents b)) (drop count (contents b)) (unsent bs))
              ∙ ap (λ zs. zs ++ unsent bs) (take-append-drop count (contents b)))
    ]

pub rest_of-waiting :
    (count : ℕ) (b : Buffer) (bs : List Buffer)
    → IsValid b
    → count ≤ readable_bytes b
    → All IsWaiting bs
    → All IsWaiting (rest_of count b bs)
unfolding rest_of
rest_of-waiting count b bs v h w =
    let (valid, _, _) = read_done_lem count b v h in
    elim (Bool-cases (readable_bytes (read_done count b) == 0)) [
      | inl gone ↦ rw gone w
      | inr more ↦ rw more (record { valid = valid; nonempty = ground arith }, w)
    ]

-- What the end of the write handler leaves, with no other request under way.
record IsAfter (q : List Buffer) (s t : Session) : Type 0 where
  pub in_step : InStep t
  pub peer : t.peer ≡ s.peer
  pub queue : t.write_queue ≡ q
  ended : q ≡ [] → s.closing ≡ true → t.closed ≡ true

after_write_lem :
    (q : List Buffer) (s : Session)
    → All IsWaiting q
    → s.pending_writes ≡ []
    → (t : Session) × (after_write q s ≡ some t) × IsAfter q s t
unfolding after_write close_session async_write
after_write_lem [] s w e = (
  if s.closing then close_session next else next,
  refl,
  record {
    in_step = record { waiting = ground arith; request = ground arith };
    peer = ground arith;
    queue = ground arith;
    ended = λ _ c. ground arith;
  },
)
  where
    next : Session
    next = record s { write_queue = [] }
after_write_lem (b ∷ bs) s w e = (
  record s { write_queue = b ∷ bs; pending_writes = contents b ∷ [] },
  write_front_lem b bs (record s { write_queue = b ∷ bs }) w.0.valid
      ∙ ap
          (λ (ps : List Bytes).
            some (record s { write_queue = b ∷ bs; pending_writes = ps ++ contents b ∷ [] }))
          e,
  record {
    in_step = record { waiting = w; request = refl };
    peer = refl;
    queue = refl;
    ended = λ n c. cc;
  },
)

-- The socket takes some bytes of the request under way: they leave the queue and reach the peer, so
-- the stream is as it was and the session stays in step. A session that is closing is closed when
-- the queue is empty.
pub on_write-stream :
    (count : ℕ) (b : Buffer) (bs : List Buffer) (s : Session)
    → InStep s
    → s.write_queue ≡ b ∷ bs
    → count ≤ readable_bytes b
    → (t : Session) × (on_write (done count) s ≡ some t)
      × InStep t
      × (stream t ≡ stream s)
      × (t.write_queue ≡ [] → s.closing ≡ true → t.closed ≡ true)
unfolding on_write rest_of
on_write-stream count b bs s h e k =
    let first : All IsWaiting (b ∷ bs) = subst (All IsWaiting) e h.waiting in
    let v = first.0.valid in
    let sent = record s { pending_writes = []; peer = s.peer ++ take count (contents b) } in
    let (t, ran, after) =
      after_write_lem (rest_of count b bs) sent (rest_of-waiting count b bs v k first.1) refl in
    (
      t,
      ap (λ ps. write_over ps (done count) s) (h.request ∙ ap request_of e)
          ∙ ap (λ q. wrote q count sent) e
          ∙ ran,
      after.in_step,
      ap₂ (λ p q. p ++ unsent q) after.peer after.queue
          ∙ append_assoc s.peer (take count (contents b)) (unsent (rest_of count b bs))
          ∙ ap (◌++◌ s.peer) (rest_of-unsent count b bs v k ∙ sym (ap unsent e)),
      λ none_left c. after.ended (sym after.queue ∙ none_left) c,
    )
