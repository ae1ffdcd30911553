-- ===== src/Pipe/Opening.antt =====
-- src/src/pipe/create.cpp: the members of the class, its descriptors and timers, and how they are opened.
use nil_service.Common.{
  ℕ, Bool, true, false, not, Option, none, some, List, [], ◌∷◌, ◌++◌, Bytes, if◌then◌else◌, ◌&&◌,
  length, ltb, take, replicate, add64,
}
use nil_service.Codec.{Endian, to_array}
use nil_service.Service.{
  ServiceId, Effect, sent, Handlers, invoke_ready, invoke_disconnect, contains_id, Action, ◌▷◌,
  update,
}
use nil_service.Service.MessageHandler.{is_some}

-- What `make_read` and `make_write` return: a descriptor, `NO_FD`, `RETRY_FD` or another negative
-- number.
pub data Fd : Type 0 where
  fd : ℕ → Fd
  no_fd retry_fd other_fd : Fd

-- What the handler of the outstanding read has captured; `idle` has none.
pub data Reading : Type 0 where
  header : ℕ → ℕ → Reading
  body : ℕ → ℕ → Reading
  idle : Reading

-- What the outstanding wait of `retry_read` goes on with.
pub data Retry : Type 0 where
  off reopen : Retry
  resume : Reading → Retry

pub data Task : Type 0 where
  publish : Bytes → Task
  publish_ex : List ServiceId → Bytes → Task
  send : List ServiceId → Bytes → Task
  user : ℕ → Task

-- `make_read` and `make_write` tell whether the options have these functions.
pub record Pipe : Type 0 where
  pub this : ℕ
  pub buffer : ℕ
  pub make_read : Bool
  pub make_write : Bool
  pub reader : Option ℕ
  pub writer : Option ℕ
  pub r_buffer : Bytes
  pub reading : Reading
  pub ready_notified : Bool
  pub connected : Bool
  pub read_loop_active : Bool
  pub handlers : Handlers
  pub posted : List Task
  pub stopped : Bool
  pub retry : Retry
  pub probe : Bool

abbrev pub to_string : ℕ
to_string = 1

abbrev pub self_id : Pipe → ServiceId
self_id s = record { owner = s.this; id = s.this; to_string = to_string }

abbrev pub tcp_header_size : ℕ
tcp_header_size = 8

unfoldable pub contains_self_id : List ServiceId → Pipe → Bool
contains_self_id ids s = contains_id ids (self_id s)

unfoldable pub cancel_timers : Pipe → Pipe
cancel_timers s = record s { retry = off; probe = false }

-- `reset_reader` and `reset_writer`: a read of the old descriptor is aborted.
unfoldable pub reset_reader : Option ℕ → Pipe → Pipe
reset_reader r s = record s { reader = r; reading = idle }

unfoldable pub reset_writer : Option ℕ → Pipe → Pipe
reset_writer w s = record s { writer = w }

unfoldable pub schedule_read_retry : Pipe → Pipe
schedule_read_retry s = record s { retry = reopen }

unfoldable pub schedule_read_wait : Reading → Pipe → Pipe
schedule_read_wait r s = if is_some s.reader then record s { retry = resume r } else s

unfoldable pub can_probe : Pipe → Bool
can_probe s = is_some s.reader && is_some s.writer

unfoldable pub schedule_probe : Pipe → Pipe
unfolding can_probe
schedule_probe s = record s { probe = can_probe s }

unfoldable pub write_to : Endian → Bytes → Option ℕ → List Effect
write_to e msg none = []
write_to e msg (some w) = sent w (to_array e tcp_header_size (length msg) ++ msg) ∷ []

-- `write_message`: an empty message is a header alone.
unfoldable pub write_message : Endian → Bytes → Action Pipe
unfolding write_to
write_message e msg s = (s, write_to e msg s.writer)

unfoldable pub read_header : ℕ → ℕ → Pipe → Pipe
read_header pos size s = if is_some s.reader then record s { reading = header pos size } else s

unfoldable pub read_next_header : Pipe → Pipe
unfolding read_header
read_next_header s = read_header 0 tcp_header_size s

-- `std::vector::resize`: what is there stays.
abbrev pub resize : ℕ → Bytes → Bytes
resize n bytes = take n (bytes ++ replicate n 0)

unfoldable pub start_reading : Pipe → Pipe
unfolding read_next_header
start_reading s =
    if is_some s.reader && not s.read_loop_active
    then read_next_header (record s {
      read_loop_active = true;
      r_buffer = resize (add64 s.buffer tcp_header_size) s.r_buffer;
    })
    else s

unfoldable pub notify_ready : Bool → Action Pipe
unfolding start_reading
notify_ready should_notify s =
    if should_notify && not s.ready_notified
    then (start_reading (record s { ready_notified = true }), invoke_ready s.handlers (self_id s))
    else (start_reading s, [])

unfoldable pub notify_disconnected : Action Pipe
notify_disconnected s =
    if s.connected
    then (record s { connected = false }, invoke_disconnect s.handlers (self_id s))
    else (s, [])

-- The reader that a result of `make_read` gives, and whether it asks for another try.
abbrev pub opened : Fd → Option ℕ
opened (fd n) = some n
opened no_fd = none
opened retry_fd = none
opened other_fd = none

abbrev pub asks_retry : Fd → Bool
asks_retry retry_fd = true
asks_retry (fd n) = false
asks_retry no_fd = false
asks_retry other_fd = false

-- The end of `reconnect_read`, and the value that it returns.
unfoldable pub after_open : Bool → Bool → Pipe → (Pipe × List Effect) × Bool
unfolding notify_ready schedule_probe schedule_read_retry
after_open should_notify read_retry s =
    if is_some s.reader
    then ((notify_ready should_notify ▷ update schedule_probe) s, true)
    else if read_retry
    then ((schedule_read_retry s, []), true)
    else ((s, []), not s.make_read)

unfoldable pub reconnect_read : Bool → Fd → Pipe → (Pipe × List Effect) × Bool
unfolding after_open cancel_timers reset_reader
reconnect_read should_notify result s =
    let s' =
      reset_reader (if s.make_read then opened result else none)
        (record (cancel_timers s) { read_loop_active = false }) in
    after_open should_notify (s.make_read && asks_retry result) s'

unfoldable pub reconnect_write : Fd → Pipe → Pipe × Bool
unfolding reset_writer schedule_probe
reconnect_write result s =
    let s' =
      reset_writer (if s.make_write then opened result else none) (record s { probe = false }) in
    if is_some s'.writer then (schedule_probe s', true) else (s', not s.make_write)

unfoldable pub stop_unless : Bool → Pipe → Pipe
stop_unless goes_on s =
    if not goes_on && not (is_some s.writer) then record s { stopped = true } else s

unfoldable pub handle_read_disconnect : Fd → Action Pipe
unfolding cancel_timers notify_disconnected reconnect_read stop_unless
handle_read_disconnect result s =
    let (s', out) = notify_disconnected (cancel_timers s) in
    let ((s'', more), goes_on) = reconnect_read false result s' in
    (stop_unless goes_on s'', out ++ more)

unfoldable pub read_body : Fd → ℕ → ℕ → Action Pipe
read_body result pos size s =
    if not (is_some s.reader)
    then (s, [])
    else if ltb s.buffer size
    then handle_read_disconnect result s
    else (record s { reading = body pos size }, [])
