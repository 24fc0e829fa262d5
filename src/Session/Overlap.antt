-- ===== src/Session/Overlap.antt =====
-- Src/Common/Net/Session.cpp, `ISession::SendMsg` while an earlier write is still under way, as when
-- two requests arrive on one connection before the first answer has gone out.
use game_project_demo.Common.{
  ◌≤◌, ◌≡◌, refl, sym, ◌∙◌, ap, some, List, [], ◌∷◌, ◌++◌, if◌then◌else◌, take, arith, All,
  append_assoc, take_all, subst, ==_iff, lt→leb_false,
}
use game_project_demo.Buffer.{Buffer, readable_bytes, read_done}
use game_project_demo.Buffer.Invariant.{IsValid, contents, length-contents}
use game_project_demo.Buffer.Reads.{read_done_lem}
use game_project_demo.Session.{
  Session, done, async_write, send_msg, on_write, after_write, close_session,
}
use game_project_demo.Session.Stream.{
  IsWaiting, InStep, request_of, rest_of, rest_of-waiting, write_front_lem,
}

after_write-some :
    (q : List Buffer) (s : Session)
    → All IsWaiting q
    → (t : Session) × (after_write q s ≡ some t) × (t.peer ≡ s.peer)
unfolding after_write close_session async_write
after_write-some [] s w = (if s.closing then close_session next else next, refl, ground arith)
  where
    next : Session
    next = record s { write_queue = [] }
after_write-some (b ∷ bs) s w = (
  record s { write_queue = b ∷ bs; pending_writes = s.pending_writes ++ contents b ∷ [] },
  write_front_lem b bs (record s { write_queue = b ∷ bs }) w.0.valid,
  refl,
)

-- `s` with the buffer `b` under way.
abbrev writing : Buffer → Session → Session
writing b s = record s { write_queue = b ∷ []; pending_writes = contents b ∷ [] }

-- What two full completions after a second `SendMsg` lead to.
abbrev pub Duplicates : Buffer → Buffer → Session → Type 0
Duplicates b m s =
    (t u w : Session) × (send_msg m s ≡ some t)
    × (on_write (done (readable_bytes b)) t ≡ some u)
    × (on_write (done (readable_bytes b)) u ≡ some w)
    × (w.peer ≡ s.peer ++ (contents b ++ contents b))

whole_gone : (b m : Buffer) → IsValid b → rest_of (readable_bytes b) b (m ∷ []) ≡ m ∷ []
unfolding rest_of
whole_gone b m v =
    let (_, _, left) = read_done_lem (readable_bytes b) b v (omega arith) in
    rw ((==_iff (readable_bytes (read_done (readable_bytes b) b)) 0).1 (omega (arith, left))) refl

writing-Duplicates :
    (b m : Buffer) (s : Session)
    → IsWaiting b
    → IsValid m
    → readable_bytes b ≤ readable_bytes m
    → Duplicates b m (writing b s)
unfolding send_msg async_write on_write rest_of
writing-Duplicates b m s wb vm h =
    let n = readable_bytes b in
    let whole = take_all n (contents b) (omega (arith, length-contents wb.valid)) in
    let wm : IsWaiting m = record { valid = vm; nonempty = omega (arith, wb.nonempty) } in
    let p = s.peer ++ take n (contents b) in
    let first = record s { write_queue = b ∷ m ∷ []; pending_writes = contents b ∷ []; peer = p } in
    let second = record s {
      write_queue = m ∷ [];
      pending_writes = contents m ∷ [];
      peer = p ++ take n (contents b);
    } in
    let (w, ran, peer) =
      after_write-some (rest_of n m []) second (rest_of-waiting n m [] vm h tt) in
    (
      record s { write_queue = b ∷ m ∷ []; pending_writes = contents b ∷ contents b ∷ [] },
      record s { write_queue = m ∷ []; pending_writes = contents b ∷ contents m ∷ []; peer = p },
      w,
      rw (lt→leb_false (readable_bytes m) 0 wm.nonempty)
          (write_front_lem b (m ∷ []) (record (writing b s) { write_queue = b ∷ m ∷ [] }) wb.valid),
      ap (λ q. after_write q first) (whole_gone b m wb.valid)
          ∙ write_front_lem m [] (record first { write_queue = m ∷ [] }) vm,
      ran,
      peer ∙ ap (λ z. (s.peer ++ z) ++ z) whole ∙ append_assoc s.peer (contents b) (contents b),
    )

-- A second message that is handed over while the first is under way asks the socket for the first
-- one's bytes once more: when both requests have gone through whole, the peer has the first message
-- twice and nothing of the second. (The second message is at least as long as the first.)
pub send_while_writing-Duplicates :
    (b m : Buffer) (s : Session)
    → InStep s
    → s.write_queue ≡ b ∷ []
    → IsValid m
    → readable_bytes b ≤ readable_bytes m
    → Duplicates b m s
send_while_writing-Duplicates b m s h e vm k =
    let first : All IsWaiting (b ∷ []) = subst (All IsWaiting) e h.waiting in
    let same : s ≡ writing b s =
      λ i. record s { write_queue = e i; pending_writes = (h.request ∙ ap request_of e) i } in
    subst (Duplicates b m) (sym same) (writing-Duplicates b m s first.0 vm k)
