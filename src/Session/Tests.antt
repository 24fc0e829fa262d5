-- ===== src/Session/Tests.antt =====
-- Runs of Src/Common/Net/Session.cpp on small inputs.
use game_project_demo.Common.{
  ◌*◌, ◌≤◌, ℕ, suc, sym, none, ◌≡◌, ap, length, Bytes, refl, some, [], ◌∷◌, arith, true, false,
  Option,
}
use game_project_demo.Buffer.{
  Buffer, readable_bytes, init, copy_out, make_space, ensure_free_space, read_done,
  initial_buffer_size,
}
use game_project_demo.Buffer.Invariant.{IsValid, contents}
use game_project_demo.Session.{
  Session, done, open_session, close_session, async_read, async_write, send_msg, on_write,
}
use game_project_demo.Session.Stream.{InStep, stream, on_write-stream}
use game_project_demo.Session.Peer.{Turns, start, send, progress, peer_receives_messages}
use game_project_demo.Session.Overlap.{Duplicates, send_while_writing-Duplicates}
use game_project_demo.Session.Closing.{IsShutOnce, Keeps, closes, step, run, shut_down_once}
use game_project_demo.Session.Proto.{
  ProtoLibrary, proto_read_handler, proto_to_buffer, buffer_to_proto,
}
use game_project_demo.Session.Proto.RoundTrip.{ParsesBack, buffer_to_proto-proto_to_buffer}
use game_project_demo.Session.Proto.Answer.{TellsLength, message_answered}
use game_project_demo.Session.Growth.{Reads, none_yet, one_more, Reads-double}

-- "hi"
abbrev hello : Buffer
hello = record { read_index = 0; write_index = 2; buffer = 104 ∷ 105 ∷ [] }

abbrev idle : Session
idle = record {
  read_buffer = record { read_index = 0; write_index = 0; buffer = 0 ∷ 0 ∷ 0 ∷ 0 ∷ [] };
  write_queue = [];
  closed = false;
  closing = true;
  pending_reads = [];
  pending_writes = [];
  peer = [];
  shutdowns = 0;
}

abbrev busy : Session
busy = record idle { write_queue = hello ∷ []; pending_writes = (104 ∷ 105 ∷ []) ∷ [] }

abbrev half : Session
half = record idle {
  write_queue = record hello { read_index = 1 } ∷ [];
  pending_writes = (105 ∷ []) ∷ [];
  peer = 104 ∷ [];
}

abbrev over : Session
over = record idle { peer = 104 ∷ 105 ∷ []; closed = true; shutdowns = 1 }

hello-IsValid : IsValid hello
hello-IsValid = omega arith

idle-InStep : InStep idle
idle-InStep = record { waiting = tt; request = refl }

busy-InStep : InStep busy
busy-InStep = record {
  waiting = (record { valid = omega arith; nonempty = omega arith }, tt);
  request = refl;
}

send-idle : send_msg hello idle ≡ some busy
unfolding send_msg async_write copy_out
send-idle = refl

write-busy : on_write (done 1) busy ≡ some half
unfolding on_write async_write copy_out read_done
write-busy = refl

write-half : on_write (done 1) half ≡ some over
unfolding on_write async_write copy_out read_done close_session
write-half = refl

turns : Turns idle (104 ∷ 105 ∷ []) over
turns =
    progress 1 (record hello { read_index = 1 }) []
      (progress 1 hello []
        (send {before = []} hello (start [] refl) hello-IsValid refl send-idle refl) refl
        (omega arith) write-busy)
      refl (omega arith) write-half

on_write-stream_example :
    (t : Session) × (on_write (done 1) busy ≡ some t)
    × InStep t
    × (stream t ≡ 104 ∷ 105 ∷ [])
    × (t.write_queue ≡ [] → true ≡ true → t.closed ≡ true)
on_write-stream_example = on_write-stream 1 hello [] busy busy-InStep refl (omega arith)

peer_receives_messages_example : over.peer ≡ 104 ∷ 105 ∷ []
peer_receives_messages_example = peer_receives_messages (104 ∷ 105 ∷ []) idle-InStep turns refl refl

send_while_writing-Duplicates_example : Duplicates hello hello busy
send_while_writing-Duplicates_example =
    send_while_writing-Duplicates hello hello busy busy-InStep refl hello-IsValid (omega arith)

abbrev no_handler : Session → Option Session
no_handler s = some s

no_handler-Keeps : (s t : Session) → no_handler s ≡ some t → Keeps s t
no_handler-Keeps s t e = record { once = λ h. ground arith; closed = λ h. ground arith }

abbrev closed_once : Session
closed_once = record idle {
  closed = true;
  shutdowns = 1;
  closing = false;
  read_buffer = init initial_buffer_size;
}

close_twice : run no_handler (closes ∷ closes ∷ []) open_session ≡ some closed_once
unfolding run step close_session open_session
close_twice = refl

close_more : run no_handler (closes ∷ []) closed_once ≡ some closed_once
unfolding run step close_session
close_more = refl

shut_down_once_example :
    IsShutOnce closed_once × IsShutOnce closed_once × (true ≡ true → true ≡ true)
shut_down_once_example =
    shut_down_once no_handler no_handler-Keeps (closes ∷ closes ∷ []) (closes ∷ []) closed_once
      closed_once close_twice close_more

-- After one read and after two, of a buffer of four bytes.
abbrev six : Session
six = record idle {
  read_buffer = record { read_index = 0; write_index = 0; buffer = 0 ∷ 0 ∷ 0 ∷ 0 ∷ 0 ∷ 0 ∷ [] };
  pending_reads = 6 ∷ [];
}

abbrev nine : Session
nine = record idle {
  read_buffer = record {
    read_index = 0;
    write_index = 0;
    buffer = 0 ∷ 0 ∷ 0 ∷ 0 ∷ 0 ∷ 0 ∷ 0 ∷ 0 ∷ 0 ∷ [];
  };
  pending_reads = 6 ∷ 9 ∷ [];
}

read-idle : async_read idle ≡ some six
unfolding async_read ensure_free_space make_space
read-idle = refl

read-six : async_read six ≡ some nine
unfolding async_read ensure_free_space make_space
read-six = refl

two-Reads : Reads 2 idle nine
two-Reads =
    one_more {n = 1}
      (one_more {n = 0} (none_yet refl) (omega arith) (omega arith) read-idle (omega arith) refl)
      (omega arith) (omega arith) read-six (omega arith) refl

-- A message on the wire is its content.
abbrev plain : ProtoLibrary
plain = record {
  byte_size_long = λ header message. length message;
  serialize_to_array = λ header message. some message;
  parse_from_array = λ bytes. some (0, bytes);
}

unwrap : {xs ys : Bytes} → some xs ≡ some ys → xs ≡ ys
unwrap same = cc

plain_tells : TellsLength plain
plain_tells header message bytes serialized = ap length (unwrap serialized)

abbrev greeted : Session
greeted = record idle { read_buffer = hello }

message_answered_example :
    (t : Session) × (proto_read_handler plain (104 ∷ []) 2 greeted ≡ some t)
    × InStep t
    × (readable_bytes t.read_buffer ≡ 0)
    × (stream t ≡ 104 ∷ [])
message_answered_example =
    message_answered plain (104 ∷ []) 0 greeted (0, 104 ∷ 105 ∷ []) (104 ∷ []) plain_tells
      (record { ordered = omega arith; within = omega arith; addressable = omega arith })
      (omega arith) refl refl (omega arith) (omega arith) (record { waiting = tt; request = refl })
      refl

-- A message on the wire is its header, as one number, and its content; there is no message without a header.
unfoldable first_byte : Bytes → Option (ℕ × Bytes)
first_byte [] = none
first_byte (header ∷ message) = some (header, message)

abbrev framed : ProtoLibrary
framed = record {
  byte_size_long = λ header message. suc (length message);
  serialize_to_array = λ header message. some (header ∷ message);
  parse_from_array = first_byte;
}

framed_tells : TellsLength framed
framed_tells header message bytes serialized = ap length (unwrap serialized)

framed_parses : ParsesBack framed
unfolding first_byte
framed_parses header message bytes serialized = ap first_byte (sym (unwrap serialized))

buffer_to_proto-proto_to_buffer_example :
    ((b c : Buffer) × (proto_to_buffer framed 7 (104 ∷ 105 ∷ []) ≡ some (some b))
      × IsValid b
      × (contents b ≡ 7 ∷ 104 ∷ 105 ∷ [])
      × (buffer_to_proto framed b ≡ some (some (7, 104 ∷ 105 ∷ []), c))
      × IsValid c
      × (readable_bytes c ≡ 0))
    × (buffer_to_proto framed idle.read_buffer ≡ some (none, idle.read_buffer))
unfolding first_byte
buffer_to_proto-proto_to_buffer_example =
    buffer_to_proto-proto_to_buffer framed 7 (104 ∷ 105 ∷ []) (7 ∷ 104 ∷ 105 ∷ []) idle.read_buffer
      framed_tells framed_parses refl (omega arith)
      (record { ordered = omega arith; within = omega arith; addressable = omega arith }) refl

-- Two reads from a buffer of four bytes.
Reads-double_example : 2 * length idle.read_buffer.buffer ≤ length nine.read_buffer.buffer
Reads-double_example = Reads-double 1 (omega arith) two-Reads
