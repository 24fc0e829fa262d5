-- ===== src/Session/Kept.antt =====
-- What `SendMsg` and the writes of Src/Common/Net/Session.cpp leave alone: all of a session but its queue and
-- its requests to write.
use game_project_demo.Common.{
  ◌≡◌, sym, ap, ◌∙◌, some, >>=-eq-some, if-true, if-false, Bool-cases, inl, inr, List, [], ◌∷◌,
  ◌++◌, Bytes, leb,
}
use game_project_demo.Buffer.{Buffer, readable_bytes, copy_out}
use game_project_demo.Session.{Session, send_msg, write_front, async_write}

-- A part of a session that does not depend on what is to be written.
abbrev pub IgnoresWrites : {A : Type 0} → (Session → A) → Type 0
IgnoresWrites part =
    (s : Session) (queue : List Buffer) (requests : List Bytes)
    → part (record s { write_queue = queue; pending_writes = requests }) ≡ part s

some-injective : {s t : Session} → some s ≡ some t → s ≡ t
some-injective same = cc

write_front-keeps :
    {A : Type 0} (part : Session → A) (queue : List Buffer) (s t : Session)
    → IgnoresWrites part
    → write_front queue s ≡ some t
    → part t ≡ part s
unfolding write_front
write_front-keeps part [] s t ignores ran = sym (ap part (some-injective ran))
write_front-keeps part (packet ∷ rest) s t ignores ran =
    let (bytes, _, ran') =
      >>=-eq-some (copy_out packet.read_index (readable_bytes packet) packet.buffer) _ ran in
    sym (ap part (some-injective ran')) ∙ ignores s s.write_queue (s.pending_writes ++ bytes ∷ [])

pub send_msg-keeps :
    {A : Type 0} (part : Session → A) (m : Buffer) (s t : Session)
    → IgnoresWrites part
    → send_msg m s ≡ some t
    → part t ≡ part s
unfolding send_msg async_write
send_msg-keeps part m s t ignores ran = elim (Bool-cases (leb (readable_bytes m) 0)) [
  | inl bare ↦ sym (ap part (some-injective (sym (if-true _ _ _ bare) ∙ ran)))
  | inr filled ↦
      write_front-keeps part (s.write_queue ++ m ∷ [])
        (record s { write_queue = s.write_queue ++ m ∷ [] }) t ignores
        (sym (if-false _ _ _ filled) ∙ ran)
      ∙ ignores s (s.write_queue ++ m ∷ []) s.pending_writes
]
