-- ===== src/Session/Proto.antt =====
-- Src/Common/Net/Session.cpp: `SendProtoMessage`, and the `ReadHandler` of `net::Session`. A message is its
-- header and its content; the functions of the protobuf library are those of `ProtoLibrary`. They are told
-- a size as an `int`, which is exact below 2 ^ 31.
pub mod Answer
pub mod RoundTrip
use game_project_demo.Common.{
  ℕ, zero, suc, ◌%◌, ◌^◌, Bool, true, false, Option, none, some, ◌∷◌, [], ◌++◌, Bytes, length, ltb,
  ◌>>=◌, if◌then◌else◌,
}
use game_project_demo.Buffer.{
  Buffer, init, readable_bytes, copy_in, copy_out, read_done, write_done,
}
use game_project_demo.Session.{Session, async_write}

pub record ProtoLibrary : Type 0 where
  pub byte_size_long : ℕ → Bytes → ℕ
  pub serialize_to_array : ℕ → Bytes → Option Bytes
  pub parse_from_array : Bytes → Option (ℕ × Bytes)

-- `Push` of the buffer that was filled, and `AsyncWrite`.
unfoldable pub pushed : Buffer → Session → Option Session
pushed content s = async_write (record s { write_queue = s.write_queue ++ content ∷ [] })

module _ (lib : ProtoLibrary) where
  unfoldable pub serialized : ℕ → Option Bytes → Session → Option Session
  serialized size none s = some s
  serialized size (some bytes) s = do
    let content = init size
    filled ← copy_in content.write_index bytes content.buffer
    pushed (write_done size (record content { buffer = filled })) s

  -- `SendProtoMessage`; the header is cut to 32 bits.
  unfoldable pub send_proto_message : ℕ → Bytes → Session → Option Session
  send_proto_message header message s =
      let cut = header % 2 ^ 32 in
      serialized (lib.byte_size_long cut message) (lib.serialize_to_array cut message) s

  unfoldable pub buffer_of : ℕ → Option Bytes → Option (Option Buffer)
  buffer_of size none = some none
  buffer_of size (some bytes) = do
    let message = init size
    filled ← copy_in message.write_index bytes message.buffer
    some (some (write_done size (record message { buffer = filled })))

  -- `ProtoToBuffer`.
  unfoldable pub proto_to_buffer : ℕ → Bytes → Option (Option Buffer)
  proto_to_buffer header message =
      buffer_of (lib.byte_size_long header message) (lib.serialize_to_array header message)

  -- `BufferToProto`, with what is left of the buffer.
  unfoldable pub proto_of : Option (ℕ × Bytes) → Buffer → Option (ℕ × Bytes) × Buffer
  proto_of none message = (none, message)
  proto_of (some proto) message = (some proto, read_done (readable_bytes message) message)

  unfoldable pub buffer_to_proto : Buffer → Option (Option (ℕ × Bytes) × Buffer)
  buffer_to_proto message = do
    bytes ← copy_out message.read_index (readable_bytes message) message.buffer
    some (proto_of (lib.parse_from_array bytes) message)

  module _ (response : Bytes) where
    -- The body of the loop after the parsing, for the text of its answer.
    unfoldable pub parsed :
        (Session → Option Session) → Option (ℕ × Bytes) → Session → Option Session
    parsed go_on none s = some s
    parsed go_on (some message) s = do
      let packet = s.read_buffer
      answered ←
          send_proto_message (length response % 2 ^ 32) response
            (record s { read_buffer = read_done (readable_bytes packet) packet })
      go_on answered

    -- `ReadHandler` of `net::Session`, each round of its loop for one of the fuel.
    unfoldable pub proto_read_handler : ℕ → Session → Option Session
    proto_read_handler zero s = none
    proto_read_handler (suc fuel) s =
        let packet = s.read_buffer in
        if ltb 0 (readable_bytes packet)
        then (do
          bytes ← copy_out packet.read_index (readable_bytes packet) packet.buffer
          parsed (proto_read_handler fuel) (lib.parse_from_array bytes) s)
        else some s
