-- ===== src/Session/Peer.antt =====
-- Src/Common/Net/Session.cpp: what the peer of a session has received after a run.
use game_project_demo.Common.{
  ℕ, ◌≤◌, ◌≡◌, sym, ◌∙◌, ap, Option, some, List, [], ◌∷◌, ◌++◌, Bytes, append_assoc, append-nil,
  subst,
}
use game_project_demo.Buffer.{Buffer, readable_bytes}
use game_project_demo.Buffer.Invariant.{IsValid, contents}
use game_project_demo.Session.{Session, done, send_msg, on_write}
use game_project_demo.Session.Stream.{InStep, on_write-stream, send_msg-stream, stream, unsent}

-- What the program and the socket may do in turn, with the bytes that were handed over so far: a
-- message is handed over only when the queue is empty, and the socket takes bytes of its request.
pub data Turns (s : Session) : Bytes → Session → Type 0 where
  start : (given : Bytes) → given ≡ [] → Turns s given s
  send :
      {before given : Bytes} {t u : Session} (m : Buffer)
      → Turns s before t
      → IsValid m
      → t.write_queue ≡ []
      → send_msg m t ≡ some u
      → given ≡ before ++ contents m
      → Turns s given u
  progress :
      {given : Bytes} {t u : Session} (count : ℕ) (b : Buffer) (bs : List Buffer)
      → Turns s given t
      → t.write_queue ≡ b ∷ bs
      → count ≤ readable_bytes b
      → on_write (done count) t ≡ some u
      → Turns s given u

same_result : {t u : Session} (o : Option Session) → o ≡ some t → o ≡ some u → t ≡ u
same_result o p q = cc

Turns-stream :
    {s t : Session} {given : Bytes}
    → InStep s
    → Turns s given t
    → InStep t × (stream t ≡ stream s ++ given)
Turns-stream {s} h (start given e) = (h, sym (ap (◌++◌ (stream s)) e ∙ append-nil (stream s)))
Turns-stream {s} {t} h (send {before = before} m r v idle ran e) =
    let (in_step, same) = Turns-stream h r in
    let (t', ran', in_step', joined) = send_msg-stream m _ v in_step idle in
    let eq = same_result _ ran' ran in
    (
      subst InStep eq in_step',
      sym (ap stream eq)
          ∙ joined
          ∙ ap (λ zs. zs ++ contents m) same
          ∙ append_assoc (stream s) before (contents m)
          ∙ ap (◌++◌ (stream s)) (sym e),
    )
Turns-stream h (progress count b bs r e k ran) =
    let (in_step, same) = Turns-stream h r in
    let (t', ran', in_step', kept, _) = on_write-stream count b bs _ in_step e k in
    let eq = same_result _ ran' ran in (subst InStep eq in_step', sym (ap stream eq) ∙ kept ∙ same)

-- When every message is handed over only to an idle session, the peer has received, once the queue
-- is empty again, exactly the bytes of the messages, each once and in the order of the calls.
pub peer_receives_messages :
    {s t : Session} (given : Bytes)
    → InStep s
    → Turns s given t
    → s.write_queue ≡ []
    → t.write_queue ≡ []
    → t.peer ≡ s.peer ++ given
peer_receives_messages {s} {t} given h r idle idle' =
    sym (ap (λ q. t.peer ++ unsent q) idle' ∙ append-nil t.peer)
    ∙ (Turns-stream h r).1
    ∙ ap (λ q. (s.peer ++ unsent q) ++ given) idle
    ∙ ap (λ zs. zs ++ given) (append-nil s.peer)
