-- ===== src/Tcp/Connection.antt =====
-- src/src/tcp/Connection.cpp. One read is outstanding at a time; `reading` holds what the handler of
-- `async_read_some` has captured. `complete` is that handler, called by the environment.
pub mod Refinement
pub mod Writing
pub mod Bounds
pub mod Disconnects
use nil_service.Common.{
  ℕ, ◌+◌, ◌≤◌, ◌<◌, ◌≡◌, Bool, Option, none, some, List, [], ◌∷◌, ◌++◌, length, take, drop, Bytes,
  if◌then◌else◌, ◌==◌, ltb, add64, sub64, u64_mod, replicate,
}
use nil_service.Codec.{Endian, from_array, to_array}
use nil_service.Stream.{Signal, connected, disconnected, message}

-- `closed` has no read outstanding.
pub data Reading : Type 0 where
  header : ℕ → ℕ → Reading
  body : ℕ → ℕ → Reading
  closed : Reading

pub record Connection : Type 0 where
  pub r_buffer : Bytes
  pub reading : Reading

abbrev pub tcp_header_size : ℕ
tcp_header_size = 8

abbrev pub start_index : ℕ
start_index = 0

-- `from_array<std::uint64_t>(r_buffer.data())`. A buffer shorter than a header is never read.
unfoldable pub payload_size : Endian → Bytes → ℕ
payload_size e r_buffer = elim (from_array e tcp_header_size r_buffer) [ none ↦ 0 | some n ↦ n ]

-- What `async_read_some` leaves in `r_buffer` after a read at `pos`.
abbrev pub received_at : ℕ → Bytes → Bytes → Bytes
received_at pos bytes r_buffer = take pos r_buffer ++ bytes ++ drop (pos + length bytes) r_buffer

abbrev pub store_received : ℕ → Bytes → Connection → Connection
store_received pos bytes c = record c { r_buffer = received_at pos bytes c.r_buffer }

unfoldable pub read_header : ℕ → ℕ → Connection → Connection
read_header pos size c = record c { reading = header pos size }

unfoldable pub read_body : ℕ → ℕ → Connection → Connection × List Signal
unfolding read_header
read_body pos size c =
    if size == 0
    then (read_header start_index tcp_header_size c, [])
    else if ltb (sub64 (length c.r_buffer) tcp_header_size) size
    then (record c { reading = closed }, disconnected ∷ [])
    else (record c { reading = body pos size }, [])

-- The constructor.
unfoldable pub new : ℕ → Connection
new buffer = record { r_buffer = replicate (add64 buffer tcp_header_size) 0; reading = closed }

unfoldable pub run : Connection → Connection × List Signal
unfolding read_header
run c = (read_header start_index tcp_header_size c, connected ∷ [])

-- How an `async_read_some` ends.
pub data Completion : Type 0 where
  failed : Completion
  received : Bytes → Completion

-- The handler of `readHeader`, where no error is reported.
unfoldable pub header_received : Endian → ℕ → ℕ → ℕ → Connection → Connection × List Signal
unfolding read_header
header_received e pos size count c =
    if add64 pos count == size
    then read_body start_index (payload_size e c.r_buffer) c
    else (read_header (add64 pos count) size c, [])

-- The handler of `readBody`, where no error is reported.
unfoldable pub body_received : ℕ → ℕ → ℕ → Connection → Connection × List Signal
unfolding read_header
body_received pos size count c =
    if add64 pos count == size
    then (read_header start_index tcp_header_size c, message (take size c.r_buffer) ∷ [])
    else read_body (add64 pos count) size c

unfoldable pub complete_at : Endian → Reading → Completion → Connection → Connection × List Signal
unfolding header_received body_received
complete_at e closed result c = (c, [])
complete_at e (header pos size) failed c = (record c { reading = closed }, disconnected ∷ [])
complete_at e (body pos size) failed c = (record c { reading = closed }, disconnected ∷ [])
complete_at e (header pos size) (received bytes) c =
    header_received e pos size (length bytes) (store_received pos bytes c)
complete_at e (body pos size) (received bytes) c =
    body_received pos size (length bytes) (store_received pos bytes c)

unfoldable pub complete : Endian → Completion → Connection → Connection × List Signal
unfolding complete_at
complete e result c = complete_at e c.reading result c

-- The chunks that a peer's stream is read in.
unfoldable pub complete_all : Endian → List Bytes → Connection → Connection × List Signal
complete_all e [] c = (c, [])
complete_all e (chunk ∷ chunks) c =
    let (c', out) = complete e (received chunk) c in
    let (c'', more) = complete_all e chunks c' in (c'', out ++ more)

-- The buffers of `write`: the header and the payload.
unfoldable pub offered : Endian → Bytes → Bytes
offered e payload = to_array e tcp_header_size (length payload) ++ payload

-- `write`: one `write_some`, of which the socket takes `accepted` bytes.
unfoldable pub write : Endian → ℕ → Bytes → Bytes
unfolding offered
write e accepted payload = take accepted (offered e payload)
