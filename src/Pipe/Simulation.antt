-- ===== src/Pipe/Simulation.antt =====
-- src/src/pipe/create.cpp: a read of a pipe ends as one of src/src/tcp/Connection.cpp does.
use nil_service.Common.{
  ℕ, ◌+◌, ◌≤◌, ◌<◌, ◌≡◌, refl, ◌∙◌, true, not, List, [], ◌∷◌, ◌++◌, arith, length, take, Bytes,
  add64, u64_mod, if-false, append-nil,
}
use nil_service.Codec.{Endian}
use nil_service.Service.{ServiceId, Effect, Handlers, invoke_message}
use nil_service.Service.MessageHandler.{is_some}
use nil_service.Stream.{Signal, connected, disconnected, message}
use nil_service.Tcp.Connection
use nil_service.Tcp.Connection.{Connection}
use nil_service.Tcp.Connection.Disconnects.{disconnects}
use nil_service.Tcp.Connection.Bounds.{InBounds, FitsRead, length-received_at}
use nil_service.Pipe.{
  received, store_received, complete_at, complete, header_complete, header_received, body_received,
  notify_connected, payload_size,
}
use nil_service.Pipe.Opening.{
  Pipe, Fd, Reading, header, body, idle, self_id, read_body, read_next_header, read_header,
}

-- The read of a connection over tcp that the read of a pipe stands for.
abbrev pub as_tcp : Reading → Connection.Reading
as_tcp (header pos size) = Connection.header pos size
as_tcp (body pos size) = Connection.body pos size
as_tcp idle = Connection.closed

-- The effects that the signals of a connection stand for.
abbrev pub heard : Handlers → ServiceId → List Signal → List Effect
heard hs id [] = []
heard hs id (connected ∷ xs) = heard hs id xs
heard hs id (disconnected ∷ xs) = heard hs id xs
heard hs id (message payload ∷ xs) = invoke_message hs id payload ++ heard hs id xs

-- A pipe whose reads go on: it has a reader and a buffer for a message and a header, and the peer has
-- been heard before.
pub record IsOpen (s : Pipe) : Type 0 where
  pub representable : s.buffer + 8 < u64_mod
  pub buffered : length s.r_buffer ≡ s.buffer + 8
  pub reads : is_some s.reader ≡ true
  pub heard_before : s.connected ≡ true

abbrev pub from_tcp : Connection.Reading → Reading
from_tcp (Connection.header pos size) = header pos size
from_tcp (Connection.body pos size) = body pos size
from_tcp Connection.closed = idle

-- The pipe as a connection leaves it.
abbrev pub moved : Pipe → Connection → Pipe
moved s c = record s { r_buffer = c.r_buffer; reading = from_tcp c.reading }

abbrev pub moved_with : Pipe → Connection × List Signal → Pipe × List Effect
moved_with s r = (moved s r.0, heard s.handlers (self_id s) r.1)

-- A connection with the pipe's buffer.
abbrev pub over : Pipe → Connection.Reading → Connection
over s r = record { r_buffer = s.r_buffer; reading = r }

read_body-moved :
    (rfd : Fd) (pos n : ℕ) (r : Connection.Reading) (s : Pipe)
    → IsOpen s
    → 0 < n
    → disconnects (Connection.read_body pos n (over s r)).1 ≡ 0
    → read_body rfd pos n s ≡ moved_with s (Connection.read_body pos n (over s r))
unfolding read_body Connection.read_body
read_body-moved rfd pos n r s valid some_ stays =
    ground (arith, valid.reads, valid.buffered, valid.representable)

header_complete-moved :
    (e : Endian) (rfd : Fd) (r : Connection.Reading) (s : Pipe)
    → IsOpen s
    → disconnects (Connection.read_body 0 (Connection.payload_size e s.r_buffer) (over s r)).1 ≡ 0
    → header_complete e rfd s
      ≡ moved_with s (Connection.read_body 0 (Connection.payload_size e s.r_buffer) (over s r))
unfolding header_complete read_next_header read_header Connection.read_header
    Connection.payload_size payload_size Connection.read_body
header_complete-moved e rfd r s valid stays =
    ground (arith, read_body-moved rfd 0 (Connection.payload_size e s.r_buffer) r s)

notify_connected-again : (s : Pipe) → s.connected ≡ true → notify_connected s ≡ (s, [])
unfolding notify_connected
notify_connected-again s again = if-false (not s.connected) _ (s, []) (rw again refl)

header_received-moved :
    (e : Endian) (rfd : Fd) (pos size n : ℕ) (r : Connection.Reading) (s : Pipe)
    → IsOpen s
    → 0 < n
    → disconnects (Connection.header_received e pos size n (over s r)).1 ≡ 0
    → header_received e rfd pos size n s
      ≡ moved_with s (Connection.header_received e pos size n (over s r))
unfolding header_received Connection.header_received read_header Connection.read_header
header_received-moved e rfd pos size n r s valid some_ stays = ground (
  arith,
  valid.reads,
  notify_connected-again s valid.heard_before,
  header_complete-moved e rfd r s valid,
)

body_received-moved :
    (rfd : Fd) (pos size n : ℕ) (r : Connection.Reading) (s : Pipe)
    → IsOpen s
    → 0 < n
    → pos + n ≤ size
    → size ≤ s.buffer
    → disconnects (Connection.body_received pos size n (over s r)).1 ≡ 0
    → body_received rfd pos size n s ≡ moved_with s (Connection.body_received pos size n (over s r))
unfolding body_received Connection.body_received read_next_header read_header Connection.read_header
body_received-moved rfd pos size n r s valid some_ fits small stays = ground (
  arith,
  valid.reads,
  valid.representable,
  append-nil (invoke_message s.handlers (self_id s) (take size s.r_buffer)),
  read_body-moved rfd (add64 pos n) size r s valid,
)

-- The connection that stands for a pipe.
abbrev pub connection_of : Pipe → Connection
connection_of s = over s (as_tcp s.reading)

store_received-IsOpen :
    (pos : ℕ) (bytes : Bytes) (s : Pipe)
    → IsOpen s
    → pos + length bytes ≤ length s.r_buffer
    → IsOpen (store_received pos bytes s)
store_received-IsOpen pos bytes s valid fits = record {
  representable = valid.representable;
  buffered = length-received_at pos bytes s.r_buffer fits ∙ valid.buffered;
  reads = valid.reads;
  heard_before = valid.heard_before;
}

complete_at-moved :
    (e : Endian) (rfd : Fd) (r : Reading) (chunk : Bytes) (s : Pipe)
    → IsOpen s
    → InBounds s.buffer (as_tcp r)
    → FitsRead (as_tcp r) (length chunk)
    → disconnects
        (Connection.complete_at e (as_tcp r) (Connection.received chunk) (over s (as_tcp r))).1
      ≡ 0
    → complete_at e rfd r (received chunk) s
      ≡ moved_with s
          (Connection.complete_at e (as_tcp r) (Connection.received chunk) (over s (as_tcp r)))
unfolding complete_at Connection.complete_at
complete_at-moved e rfd idle chunk s valid bounds fits stays = absurd fits
complete_at-moved e rfd (header pos size) chunk s valid bounds fits stays =
    header_received-moved e rfd pos size (length chunk) (Connection.header pos size)
      (store_received pos chunk s)
      (store_received-IsOpen pos chunk s valid (omega (arith, valid.buffered))) fits.0 stays
complete_at-moved e rfd (body pos size) chunk s valid bounds fits stays =
    body_received-moved rfd pos size (length chunk) (Connection.body pos size)
      (store_received pos chunk s)
      (store_received-IsOpen pos chunk s valid (omega (arith, valid.buffered))) fits.0 fits.1
      bounds.1 stays

-- The read of a pipe ends as that of the connection, while this asks for no disconnect.
pub complete-moved :
    (e : Endian) (rfd : Fd) (chunk : Bytes) (s : Pipe)
    → IsOpen s
    → InBounds s.buffer (as_tcp s.reading)
    → FitsRead (as_tcp s.reading) (length chunk)
    → disconnects (Connection.complete e (Connection.received chunk) (connection_of s)).1 ≡ 0
    → complete e rfd (received chunk) s
      ≡ moved_with s (Connection.complete e (Connection.received chunk) (connection_of s))
unfolding complete Connection.complete
complete-moved e rfd chunk s valid bounds fits stays =
    complete_at-moved e rfd s.reading chunk s valid bounds fits stays
