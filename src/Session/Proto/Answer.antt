-- ===== src/Session/Proto/Answer.antt =====
-- What `ReadHandler` of `net::Session`, Src/Common/Net/Session.cpp, answers.
use game_project_demo.Common.{
  ℕ, suc, ◌+◌, ◌-◌, ◌%◌, ◌^◌, ◌<◌, ◌≡◌, refl, sym, ap, if-false, if-true, ◌∙◌, subst, some, [], ◌∷◌,
  ◌++◌, Bytes, length, lt→ltb, le→ltb_false, le→leb, lt→leb_false, replicate, length-replicate,
  drop_all, take_all, append-nil, arith,
}
use game_project_demo.Buffer.{
  Buffer, init, readable_bytes, copy_in, read_done, write_done, add_size, size_mod,
}
use game_project_demo.Buffer.Invariant.{IsValid, contents, length-contents}
use game_project_demo.Buffer.Reads.{read_done_lem, copy_out_lem}
use game_project_demo.Session.{Session, async_write, send_msg}
use game_project_demo.Session.Stream.{InStep, stream, send_msg-stream}
use game_project_demo.Session.Kept.{send_msg-keeps}
use game_project_demo.Session.Proto.{
  ProtoLibrary, pushed, serialized, send_proto_message, parsed, proto_read_handler,
}

-- A buffer that holds some bytes and nothing else.
abbrev pub full : Bytes → Buffer
full bytes = record { read_index = 0; write_index = length bytes; buffer = bytes }

pub full-IsValid : (bytes : Bytes) → length bytes < size_mod → IsValid (full bytes)
full-IsValid bytes small = record {
  ordered = omega arith;
  within = omega arith;
  addressable = small;
}

pub full-contents : (bytes : Bytes) → contents (full bytes) ≡ bytes
full-contents bytes = take_all (length bytes - 0) bytes (omega arith)

-- A buffer that is made as long as the bytes is filled by them.
pub copied_whole : (bytes : Bytes) → copy_in 0 bytes (replicate (length bytes) 0) ≡ some bytes
unfolding copy_in
copied_whole bytes =
    let zeros = length-replicate {A = ℕ} (length bytes) 0 in
    rw
      (le→leb (0 + length bytes) (length (replicate {A = ℕ} (length bytes) 0))
        (omega (arith, zeros)))
      (ap some (
        ap (◌++◌ bytes)
          (drop_all (0 + length bytes) (replicate (length bytes) 0) (omega (arith, zeros)))
        ∙ append-nil bytes))

module _ (lib : ProtoLibrary) where
  -- What is serialized has the length that the library tells before.
  abbrev pub TellsLength : Type 0
  TellsLength =
      (header : ℕ) (message bytes : Bytes)
      → lib.serialize_to_array header message ≡ some bytes
      → lib.byte_size_long header message ≡ length bytes

  fills-send_msg :
      (bytes : Bytes) (s : Session)
      → 0 < length bytes
      → length bytes < size_mod
      → serialized lib (length bytes) (some bytes) s ≡ send_msg (full bytes) s
  unfolding serialized pushed init write_done send_msg
  fills-send_msg bytes s filled small =
      rw (copied_whole bytes) (
        ap
          (λ i. async_write (record s {
            write_queue =
                s.write_queue ++ record { read_index = 0; write_index = i; buffer = bytes } ∷ [];
          }))
          no_wrap)
      ∙ sym (if-false _ _ _ (lt→leb_false (readable_bytes (full bytes)) 0 (omega arith)))
    where
      no_wrap : add_size 0 (length bytes) ≡ length bytes
      no_wrap = omega arith

  serialized-send_msg :
      (size : ℕ) (bytes : Bytes) (s : Session)
      → size ≡ length bytes
      → 0 < length bytes
      → length bytes < size_mod
      → serialized lib size (some bytes) s ≡ send_msg (full bytes) s
  serialized-send_msg size bytes s told filled small =
      subst (λ (n : ℕ). serialized lib n (some bytes) s ≡ send_msg (full bytes) s) (sym told)
        (fills-send_msg bytes s filled small)

  -- A session whose read buffer is empty.
  abbrev drained : Session → Session
  drained s = record s { read_buffer = read_done (readable_bytes s.read_buffer) s.read_buffer }

  drained-empty : (s : Session) → IsValid s.read_buffer → readable_bytes (drained s).read_buffer ≡ 0
  drained-empty s valid =
      let (_, _, left) =
        read_done_lem (readable_bytes s.read_buffer) s.read_buffer valid (omega arith) in
      omega (arith, left)

  module _ (response : Bytes) where
    loop_ends :
        (fuel : ℕ) (s : Session)
        → readable_bytes s.read_buffer ≡ 0
        → proto_read_handler lib response (suc fuel) s ≡ some s
    unfolding proto_read_handler
    loop_ends fuel s empty =
        if-false _ _ _ (le→ltb_false 0 (readable_bytes s.read_buffer) (omega (arith, empty)))

    bytes_parsed :
        (fuel : ℕ) (s : Session)
        → IsValid s.read_buffer
        → 0 < readable_bytes s.read_buffer
        → proto_read_handler lib response (suc fuel) s
          ≡ parsed lib response
              (proto_read_handler lib response fuel)
              (lib.parse_from_array (contents s.read_buffer))
              s
    unfolding proto_read_handler
    bytes_parsed fuel s valid filled =
        if-true _ _ _ (lt→ltb 0 (readable_bytes s.read_buffer) filled)
        ∙ rw
            (
              copy_out_lem (readable_bytes s.read_buffer) s.read_buffer valid (omega arith),
              take_all (readable_bytes s.read_buffer) (contents s.read_buffer)
                  (omega (arith, length-contents valid)),
            )
            refl

    -- When the library parses the bytes of the read buffer as a message, one message or several, and serializes the
    -- answer to some bytes below 2 ^ 31, as many as it tells before, while no write is under way: `ReadHandler` ends
    -- after one answer, nothing is left to read, and that answer joins, once, what the peer gets.
    pub message_answered :
        (fuel : ℕ) (s : Session) (message : ℕ × Bytes) (bytes : Bytes)
        → TellsLength
        → IsValid s.read_buffer
        → 0 < readable_bytes s.read_buffer
        → lib.parse_from_array (contents s.read_buffer) ≡ some message
        → lib.serialize_to_array (length response % 2 ^ 32) response ≡ some bytes
        → 0 < length bytes
        → length bytes < 2 ^ 31
        → InStep s
        → s.write_queue ≡ []
        → (t : Session) × (proto_read_handler lib response (suc (suc fuel)) s ≡ some t)
          × InStep t
          × (readable_bytes t.read_buffer ≡ 0)
          × (stream t ≡ stream s ++ bytes)
    unfolding parsed send_proto_message
    message_answered fuel s message bytes tells valid filled parse serialize some_bytes small
          in_step idle =
        let s' = drained s in
        let (t, sent, still, joined) =
          send_msg-stream (full bytes) s' (full-IsValid bytes (omega arith))
            (record { waiting = in_step.waiting; request = in_step.request }) idle in
        let kept : t.read_buffer ≡ s'.read_buffer =
          send_msg-keeps (λ u. u.read_buffer) (full bytes) s' t (λ u q r. refl) sent in
        let empty : readable_bytes t.read_buffer ≡ 0 =
          ap readable_bytes kept ∙ drained-empty s valid in
        let cut : length response % 2 ^ 32 % 2 ^ 32 ≡ length response % 2 ^ 32 = omega arith in
        let answered : send_proto_message lib (length response % 2 ^ 32) response s' ≡ some t =
          rw (cut, serialize)
            (serialized-send_msg _ bytes s' (tells _ response bytes serialize) some_bytes
                (omega arith)
              ∙ sent) in
        (
          t,
          bytes_parsed (suc fuel) s valid filled ∙ rw (parse, answered) (loop_ends fuel t empty),
          still,
          empty,
          joined ∙ ap (◌++◌ (stream s)) (full-contents bytes),
        )
