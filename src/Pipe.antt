-- ===== src/Pipe.antt =====
-- src/src/pipe/create.cpp: framed messages over two FIFOs that may be opened again. The environment ends
-- reads and waits of the timers, and says what the user's `make_read` and `make_write` return.
pub mod Notify
pub mod Session
pub mod Fifo
pub mod Framing
pub mod Hearing
pub mod Simulation
pub mod Opening
use nil_service.Common.{
  ℕ, ◌+◌, Bool, true, false, not, Option, none, some, List, [], ◌∷◌, ◌++◌, Bytes, if◌then◌else◌,
  ◌==◌, ◌&&◌, ◌||◌, length, ltb, take, drop, replicate, add64,
}
use nil_service.Codec.{Endian, to_array, from_array}
use nil_service.Service.{
  ServiceId, Effect, sent, Handlers, no_handlers, invoke_ready, invoke_connect, invoke_disconnect,
  invoke_message, contains_id, Action, ◌▷◌, emit, update, skip, run_all,
}
use nil_service.Service.MessageHandler.{is_some}
use nil_service.Pipe.Opening.{
  header, Retry, off, Reading, Fd, body, idle, resume, Task, publish, publish_ex, send, user, Pipe,
  self_id, tcp_header_size, contains_self_id, cancel_timers, schedule_read_wait, can_probe,
  schedule_probe, write_message, read_header, read_next_header, opened, reconnect_read,
  reconnect_write, handle_read_disconnect, read_body, reopen,
}

-- How a read ends: would_block, try_again and interrupted are `later`.
pub data ReadError : Type 0 where
  aborted later broken : ReadError

pub data Completion : Type 0 where
  failed : ReadError → Completion
  received : Bytes → Completion

unfoldable pub handle_read_error : Fd → Reading → ReadError → Action Pipe
handle_read_error result r aborted s = (s, [])
handle_read_error result r later s = (schedule_read_wait r s, [])
handle_read_error result r broken s = handle_read_disconnect result s

abbrev pub received_at : ℕ → Bytes → Bytes → Bytes
received_at pos bytes buf = take pos buf ++ bytes ++ drop (pos + length bytes) buf

unfoldable pub payload_size : Endian → Bytes → ℕ
payload_size e buf = elim (from_array e tcp_header_size buf) [ none ↦ 0 | some n ↦ n ]

unfoldable pub notify_connected : Action Pipe
notify_connected s =
    if not s.connected
    then (record s { connected = true }, invoke_connect s.handlers (self_id s))
    else (s, [])

-- A header that is complete.
unfoldable pub header_complete : Endian → Fd → Action Pipe
unfolding read_next_header
header_complete e result s =
    let n = payload_size e s.r_buffer in
    if n == 0 then (read_next_header s, []) else read_body result 0 n s

unfoldable pub header_received : Endian → Fd → ℕ → ℕ → ℕ → Action Pipe
header_received e result pos size count s =
    if count == 0
    then handle_read_disconnect result s
    else if add64 pos count == size
    then (notify_connected ▷ header_complete e result) s
    else (read_header (add64 pos count) size s, [])

unfoldable pub body_received : Fd → ℕ → ℕ → ℕ → Action Pipe
body_received result pos size count s =
    if count == 0
    then handle_read_disconnect result s
    else if add64 pos count == size
    then (read_next_header s, invoke_message s.handlers (self_id s) (take size s.r_buffer))
    else read_body result (add64 pos count) size s

abbrev pub store_received : ℕ → Bytes → Pipe → Pipe
store_received pos bytes s = record s {
  r_buffer = received_at pos bytes s.r_buffer;
  reading = idle;
}

unfoldable pub complete_at : Endian → Fd → Reading → Completion → Action Pipe
complete_at e rfd idle result s = (s, [])
complete_at e rfd (header pos size) (failed error) s =
    handle_read_error rfd (header pos size) error (record s { reading = idle })
complete_at e rfd (body pos size) (failed error) s =
    handle_read_error rfd (body pos size) error (record s { reading = idle })
complete_at e rfd (header pos size) (received bytes) s =
    header_received e rfd pos size (length bytes) (store_received pos bytes s)
complete_at e rfd (body pos size) (received bytes) s =
    body_received rfd pos size (length bytes) (store_received pos bytes s)

-- The handler of the outstanding read; the result of `make_read` counts if the reader is opened anew.
unfoldable pub complete : Endian → Fd → Completion → Action Pipe
complete e rfd result s = complete_at e rfd s.reading result s

unfoldable pub retry_due_at : Fd → Retry → Action Pipe
retry_due_at rfd off s = (s, [])
retry_due_at rfd reopen s = (reconnect_read false rfd s).0
retry_due_at rfd (resume idle) s = (s, [])
retry_due_at rfd (resume (header pos size)) s =
    if is_some s.reader then (read_header pos size s, []) else (s, [])
retry_due_at rfd (resume (body pos size)) s =
    if is_some s.reader then read_body rfd pos size s else (s, [])

-- The handler of `retry_read`, where the wait is not aborted.
unfoldable pub retry_due : Fd → Action Pipe
retry_due rfd s = retry_due_at rfd s.retry (record s { retry = off })

-- The handler of `probe`, where the wait is not aborted.
unfoldable pub probe_due : Endian → Action Pipe
probe_due e s =
    if can_probe s
    then (write_message e [] ▷ update schedule_probe) s
    else (record s { probe = false }, [])

-- The constructor.
unfoldable pub create : ℕ → ℕ → Bool → Bool → Fd → Fd → Pipe × List Effect
create this buffer make_read make_write rfd wfd =
    let ((s, out), _) = reconnect_read true rfd (record {
      this = this;
      buffer = buffer;
      make_read = make_read;
      make_write = make_write;
      reader = none;
      writer = none;
      r_buffer = [];
      reading = idle;
      ready_notified = false;
      connected = false;
      read_loop_active = false;
      handlers = no_handlers;
      posted = [];
      stopped = false;
      retry = off;
      probe = false;
    }) in
    ((reconnect_write wfd s).0, out)

unfoldable pub stop : Pipe → Pipe
stop s = record (cancel_timers s) { stopped = true }

unfoldable pub restart : Fd → Fd → Action Pipe
restart rfd wfd s =
    let ((s', out), _) = reconnect_read false rfd (record (cancel_timers s) {
      reader = none;
      writer = none;
      reading = idle;
      ready_notified = false;
      connected = false;
      read_loop_active = false;
      posted = [];
      stopped = false;
    }) in
    ((reconnect_write wfd s').0, out)

unfoldable pub run_task : Endian → Task → Action Pipe
run_task e (publish msg) s = write_message e msg s
run_task e (publish_ex ids msg) s =
    if contains_self_id ids s then (s, []) else write_message e msg s
run_task e (send ids msg) s = if contains_self_id ids s then write_message e msg s else (s, [])
run_task e (user f) s = (s, [])

-- `publish`, `publish_ex` and `send` drop the message at once if there is no writer; `dispatch` does
-- not look.
unfoldable pub post : Task → Pipe → Pipe
post (user f) s = record s { posted = s.posted ++ user f ∷ [] }
post task s = if is_some s.writer then record s { posted = s.posted ++ task ∷ [] } else s

unfoldable pub turn_of : Endian → List Task → Action Pipe
turn_of e [] s = (s, [])
turn_of e (task ∷ tasks) s =
    if s.stopped then (s, []) else run_task e task (record s { posted = tasks })

unfoldable pub turn : Endian → Action Pipe
turn e s = turn_of e s.posted s

unfoldable pub poll : Endian → Action Pipe
poll e s = if s.stopped then (s, []) else run_all (run_task e) s.posted (record s { posted = [] })

abbrev pub add {ℓ} : {A : Type ℓ} → List A → A → List A
add handlers handler = handlers ++ handler ∷ []

unfoldable pub impl_on_message : Option ℕ → Pipe → Pipe
impl_on_message f s = record s {
  handlers = record (s.handlers) { on_message_cb = add s.handlers.on_message_cb f };
}

unfoldable pub impl_on_ready : Option ℕ → Pipe → Pipe
impl_on_ready f s = record s {
  handlers = record (s.handlers) { on_ready_cb = add s.handlers.on_ready_cb f };
}

unfoldable pub impl_on_connect : Option ℕ → Pipe → Pipe
impl_on_connect f s = record s {
  handlers = record (s.handlers) { on_connect_cb = add s.handlers.on_connect_cb f };
}

unfoldable pub impl_on_disconnect : Option ℕ → Pipe → Pipe
impl_on_disconnect f s = record s {
  handlers = record (s.handlers) { on_disconnect_cb = add s.handlers.on_disconnect_cb f };
}

pub data Event : Type 0 where
  posts : Task → Event
  turns polls stops probes : Event
  restarts : Fd → Fd → Event
  completes : Fd → Completion → Event
  retries : Fd → Event
  hears_message hears_ready hears_connect hears_disconnect : Option ℕ → Event

unfoldable pub step : Endian → Event → Action Pipe
step e (posts task) s = (post task s, [])
step e turns s = turn e s
step e polls s = poll e s
step e stops s = (stop s, [])
step e probes s = probe_due e s
step e (restarts rfd wfd) s = restart rfd wfd s
step e (completes rfd result) s = complete e rfd result s
step e (retries rfd) s = retry_due rfd s
step e (hears_message f) s = (impl_on_message f s, [])
step e (hears_ready f) s = (impl_on_ready f s, [])
step e (hears_connect f) s = (impl_on_connect f s, [])
step e (hears_disconnect f) s = (impl_on_disconnect f s, [])

unfoldable pub run_events : Endian → List Event → Action Pipe
run_events e = run_all (step e)
