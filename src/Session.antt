-- ===== src/Session.antt =====
-- Src/Common/Net/Session.h and Session.cpp: `net::ISession`, one TCP connection driven by the
-- handlers of its asynchronous reads and writes, which one thread runs one after the other.
-- The socket is not under src/: `pending_reads` and `pending_writes` are the requests handed to it,
-- oldest first, and `peer` the bytes that it has put through; a handler runs for the oldest request
-- of its kind. `none` is undefined behaviour, as in Buffer.
pub mod Stream
pub mod Peer
pub mod Overlap
pub mod Closing
pub mod Growth
pub mod Kept
pub mod Proto
mod Tests
use game_project_demo.Common.{
  ℕ, suc, ◌+◌, Bool, true, false, not, ◌&&◌, Option, none, some, List, [], ◌∷◌, ◌++◌, leb, ◌==◌,
  ◌>>=◌, if◌then◌else◌, length, take, drop, Bytes,
}
use game_project_demo.Buffer.{
  Buffer, readable_bytes, writable_bytes, copy_in, copy_out, ensure_free_space, read_done,
  write_done, init, initial_buffer_size, read_all_as_string,
}

pub record Session : Type 0 where
  pub read_buffer : Buffer
  pub write_queue : List Buffer
  pub closed : Bool
  pub closing : Bool
  pub pending_reads : List ℕ
  pub pending_writes : List Bytes
  pub peer : Bytes
  -- how often the socket was shut down
  pub shutdowns : ℕ

-- The constructor, for a socket that has just been accepted.
unfoldable pub open_session : Session
open_session = record {
  read_buffer = init initial_buffer_size;
  write_queue = [];
  closed = false;
  closing = false;
  pending_reads = [];
  pending_writes = [];
  peer = [];
  shutdowns = 0;
}

-- `_closed.exchange(true)`; a failing shutdown is only logged.
unfoldable pub close_session : Session → Session
close_session s = if s.closed then s else record s { closed = true; shutdowns = suc s.shutdowns }

abbrev pub is_alive : Session → Bool
is_alive s = not s.closed && not s.closing

unfoldable pub delayed_close_session : Session → Session
delayed_close_session s = record s { closing = true }

abbrev pub update : Session → Bool
update s = not s.closed

-- Asks the socket to fill the room that is left in the read buffer.
unfoldable pub async_read : Session → Option Session
async_read s = do
  roomy ← ensure_free_space s.read_buffer
  some (record s {
    read_buffer = roomy;
    pending_reads = s.pending_reads ++ writable_bytes roomy ∷ [];
  })

abbrev pub start_session : Session → Option Session
start_session = async_read

-- Asks the socket to send the unread bytes of the first buffer of the queue.
unfoldable pub write_front : List Buffer → Session → Option Session
write_front [] s = some s
write_front (packet ∷ rest) s = do
  bytes ← copy_out packet.read_index (readable_bytes packet) packet.buffer
  some (record s { pending_writes = s.pending_writes ++ bytes ∷ [] })

unfoldable pub async_write : Session → Option Session
unfolding write_front
async_write s = write_front s.write_queue s

unfoldable pub send_msg : Buffer → Session → Option Session
send_msg message s =
    if leb (readable_bytes message) 0
    then some s
    else async_write (record s { write_queue = s.write_queue ++ message ∷ [] })

-- What the socket reports when a request is over.
pub data Completion (A : Type 0) : Type 0 where
  failed : Completion A
  done : A → Completion A

-- What follows a read of `bytes`; `read_handler` is the virtual member.
unfoldable pub received : (Session → Option Session) → Bytes → Session → Option Session
received read_handler bytes s = do
  filled ← copy_in s.read_buffer.write_index bytes s.read_buffer.buffer
  handled ← read_handler (record s {
    read_buffer = write_done (length bytes) (record s.read_buffer { buffer = filled });
  })
  async_read handled

-- The handler for the oldest of these requests. The bytes that the socket wrote to the buffer are
-- the argument of `done`; the socket does not write more than it was asked for.
unfoldable pub read_over :
    (Session → Option Session) → List ℕ → Completion Bytes → Session → Option Session
unfolding received
read_over read_handler [] c s = none
read_over read_handler (room ∷ others) failed s =
    some (close_session (record s { pending_reads = others }))
read_over read_handler (room ∷ others) (done bytes) s =
    received read_handler bytes (record s { pending_reads = others })

-- The handler of `async_read_some`.
unfoldable pub on_read : (Session → Option Session) → Completion Bytes → Session → Option Session
unfolding read_over
on_read read_handler c s = read_over read_handler s.pending_reads c s

-- The end of the write handler, with the queue that is left.
unfoldable pub after_write : List Buffer → Session → Option Session
after_write [] s =
    let next = record s { write_queue = [] } in
    some (if s.closing then close_session next else next)
after_write (b ∷ bs) s = async_write (record s { write_queue = b ∷ bs })

-- `ReadDone` on the first buffer, which goes when nothing is left of it.
unfoldable pub wrote : List Buffer → ℕ → Session → Option Session
unfolding after_write
wrote [] count s = none
wrote (front ∷ rest) count s =
    let buff = read_done count front in
    after_write (if readable_bytes buff == 0 then rest else buff ∷ rest) s

-- The handler for the oldest of these requests: the socket took its first `count` bytes.
unfoldable pub write_over : List Bytes → Completion ℕ → Session → Option Session
unfolding wrote
write_over [] c s = none
write_over (request ∷ others) failed s = some (close_session (record s { pending_writes = others }))
write_over (request ∷ others) (done count) s =
    wrote s.write_queue count
      (record s { pending_writes = others; peer = s.peer ++ take count request })

-- The handler of `async_write_some`.
unfoldable pub on_write : Completion ℕ → Session → Option Session
unfolding write_over
on_write c s = write_over s.pending_writes c s
