-- ===== src/Session/Proto/RoundTrip.antt =====
-- `ProtoToBuffer` and `BufferToProto` of Src/Common/Net/Session.h.
use game_project_demo.Common.{
  ℕ, ◌^◌, ◌<◌, ◌≡◌, refl, ap, ◌∙◌, some, none, Bytes, length, take_all, arith,
}
use game_project_demo.Buffer.{
  Buffer, init, readable_bytes, read_done, write_done, add_size, size_mod,
}
use game_project_demo.Buffer.Invariant.{IsValid, contents, length-contents}
use game_project_demo.Buffer.Reads.{read_done_lem, copy_out_lem}
use game_project_demo.Session.Proto.{
  ProtoLibrary, buffer_of, proto_to_buffer, proto_of, buffer_to_proto,
}
use game_project_demo.Session.Proto.Answer.{
  TellsLength, full, full-IsValid, full-contents, copied_whole,
}

module _ (lib : ProtoLibrary) where
  -- What was serialized is parsed as the message that it was.
  abbrev pub ParsesBack : Type 0
  ParsesBack =
      (header : ℕ) (message bytes : Bytes)
      → lib.serialize_to_array header message ≡ some bytes
      → lib.parse_from_array bytes ≡ some (header, message)

  buffer_of-full :
      (bytes : Bytes)
      → length bytes < size_mod
      → buffer_of lib (length bytes) (some bytes) ≡ some (some (full bytes))
  unfolding buffer_of init write_done
  buffer_of-full bytes small =
      let no_wrap : add_size 0 (length bytes) ≡ length bytes = omega arith in
      rw (copied_whole bytes, no_wrap) refl

  -- The whole of what there is to read is parsed.
  parses_contents :
      (b : Buffer)
      → IsValid b
      → buffer_to_proto lib b ≡ some (proto_of lib (lib.parse_from_array (contents b)) b)
  unfolding buffer_to_proto
  parses_contents b valid =
      let n = readable_bytes b in
      let copied = copy_out_lem n b valid (omega arith) in
      let whole = take_all n (contents b) (omega (arith, length-contents valid)) in
      rw (copied, whole) refl

  -- For a library that tells the length of what it serializes and parses it back, and a message that it serializes
  -- to fewer than 2 ^ 31 bytes: `ProtoToBuffer` gives a valid buffer of exactly these bytes, from which
  -- `BufferToProto` gives the message back, and nothing is left to read. From a valid buffer whose bytes the
  -- library does not parse, `BufferToProto` gives nothing, and the buffer keeps them.
  pub buffer_to_proto-proto_to_buffer :
      (header : ℕ) (message bytes : Bytes) (other : Buffer)
      → TellsLength lib
      → ParsesBack
      → lib.serialize_to_array header message ≡ some bytes
      → length bytes < 2 ^ 31
      → IsValid other
      → lib.parse_from_array (contents other) ≡ none
      → ((b c : Buffer) × (proto_to_buffer lib header message ≡ some (some b))
          × IsValid b
          × (contents b ≡ bytes)
          × (buffer_to_proto lib b ≡ some (some (header, message), c))
          × IsValid c
          × (readable_bytes c ≡ 0))
        × (buffer_to_proto lib other ≡ some (none, other))
  unfolding proto_to_buffer proto_of
  buffer_to_proto-proto_to_buffer header message bytes other tells parses serialize small valid
        bad =
      let b = full bytes in
      let ok = full-IsValid bytes (omega arith) in
      let (valid', _, left) = read_done_lem (readable_bytes b) b ok (omega arith) in
      let parsed : lib.parse_from_array (contents b) ≡ some (header, message) =
        ap (λ s. lib.parse_from_array s) (full-contents bytes)
        ∙ parses header message bytes serialize in
      (
        (
          b,
          read_done (readable_bytes b) b,
          rw (serialize, tells header message bytes serialize) (buffer_of-full bytes (omega arith)),
          ok,
          full-contents bytes,
          parses_contents b ok ∙ rw parsed refl,
          valid',
          omega (arith, left),
        ),
        parses_contents other valid ∙ rw bad refl,
      )
