-- ===== src/Pipe/Notify.antt =====
-- src/src/pipe/create.cpp: which callbacks a service over pipes reaches.
use nil_service.Common.{
  take, add64, ℕ, ◌+◌, ◌≡◌, refl, Bool, ◌&&◌, false, Option, none, some, List, [], ◌∷◌, ◌++◌,
  if◌then◌else◌, arith, Bytes,
}
use nil_service.Codec.{Endian}
use nil_service.Service.{
  ServiceId, on_ready, on_connect, on_disconnect, on_message, Effect, called, sent, invoke, Action,
  ◌▷◌, run_all,
}
use nil_service.Pipe.{
  payload_size, ReadError, aborted, later, broken, Completion, failed, received, handle_read_error,
  notify_connected, header_complete, header_received, body_received, complete_at, complete,
  retry_due_at, retry_due, probe_due, create, restart, run_task, turn_of, turn, poll, Event, posts,
  turns, polls, stops, probes, restarts, completes, retries, hears_message, hears_ready,
  hears_connect, hears_disconnect, step, run_events,
}
use nil_service.Pipe.Opening.{
  opened, asks_retry, reset_reader, cancel_timers, Fd, Reading, header, body, idle, Retry, resume,
  Task, publish, publish_ex, send, user, Pipe, self_id, write_to, write_message, notify_ready,
  notify_disconnected, after_open, reconnect_read, handle_read_disconnect, read_body, off, reopen,
}

abbrev pub readies_in : Effect → ℕ
readies_in (called (on_ready cb id)) = 1
readies_in (called (on_connect cb id)) = 0
readies_in (called (on_disconnect cb id)) = 0
readies_in (called (on_message cb id payload)) = 0
readies_in (sent a payload) = 0

-- The calls of `on_ready`.
abbrev pub readies : List Effect → ℕ
readies [] = 0
readies (x ∷ out) = readies_in x + readies out

readies-append : (xs ys : List Effect) → readies (xs ++ ys) ≡ readies xs + readies ys
readies-append [] ys = omega arith
readies-append (x ∷ xs) ys = omega (arith, readies-append xs ys)

quiet-append : (xs ys : List Effect) → readies xs ≡ 0 → readies ys ≡ 0 → readies (xs ++ ys) ≡ 0
quiet-append xs ys p q = omega (arith, readies-append xs ys)

quiet_connect :
    (id : ServiceId) (cbs : List (Option ℕ)) → readies (invoke (λ cb. on_connect cb id) cbs) ≡ 0
unfolding invoke
quiet_connect id [] = refl
quiet_connect id (none ∷ cbs) = quiet_connect id cbs
quiet_connect id (some cb ∷ cbs) = omega (arith, quiet_connect id cbs)

quiet_disconnect :
    (id : ServiceId) (cbs : List (Option ℕ)) → readies (invoke (λ cb. on_disconnect cb id) cbs) ≡ 0
unfolding invoke
quiet_disconnect id [] = refl
quiet_disconnect id (none ∷ cbs) = quiet_disconnect id cbs
quiet_disconnect id (some cb ∷ cbs) = omega (arith, quiet_disconnect id cbs)

quiet_message :
    (id : ServiceId) (payload : Bytes) (cbs : List (Option ℕ))
    → readies (invoke (λ cb. on_message cb id payload) cbs) ≡ 0
unfolding invoke
quiet_message id payload [] = refl
quiet_message id payload (none ∷ cbs) = quiet_message id payload cbs
quiet_message id payload (some cb ∷ cbs) = omega (arith, quiet_message id payload cbs)

-- A piece of code that calls no `on_ready` from any state.
abbrev Quiet : Action Pipe → Type 0
Quiet f = (s : Pipe) → readies (f s).1 ≡ 0

then-Quiet : (f g : Action Pipe) → Quiet f → Quiet g → Quiet (f ▷ g)
then-Quiet f g p q s = quiet-append (f s).1 (g (f s).0).1 (p s) (q (f s).0)

run_all-Quiet :
    {T : Type 0} (f : T → Action Pipe)
    → ((t : T) → Quiet (f t))
    → (ts : List T) → Quiet (run_all f ts)
unfolding run_all
run_all-Quiet f p [] s = refl
run_all-Quiet f p (t ∷ ts) s =
    quiet-append (f t s).1 (run_all f ts (f t s).0).1 (p t s) (run_all-Quiet f p ts (f t s).0)

write_to-Quiet : (e : Endian) (msg : Bytes) (w : Option ℕ) → readies (write_to e msg w) ≡ 0
unfolding write_to
write_to-Quiet e msg none = refl
write_to-Quiet e msg (some w) = refl

write_message-Quiet : (e : Endian) (msg : Bytes) → Quiet (write_message e msg)
unfolding write_message
write_message-Quiet e msg s = write_to-Quiet e msg s.writer

notify_ready-Quiet : Quiet (notify_ready false)
unfolding notify_ready
notify_ready-Quiet s = refl

notify_disconnected-Quiet : Quiet notify_disconnected
unfolding notify_disconnected
notify_disconnected-Quiet s =
    ground (arith, quiet_disconnect (self_id s) s.handlers.on_disconnect_cb)

notify_connected-Quiet : Quiet notify_connected
unfolding notify_connected
notify_connected-Quiet s = ground (arith, quiet_connect (self_id s) s.handlers.on_connect_cb)

after_open-Quiet : (b : Bool) (s : Pipe) → readies (after_open false b s).0.1 ≡ 0
unfolding after_open
after_open-Quiet b s =
    ground (arith, quiet-append (notify_ready false s).1 [] (notify_ready-Quiet s) refl)

reconnect_read-Quiet : (r : Fd) (s : Pipe) → readies (reconnect_read false r s).0.1 ≡ 0
unfolding reconnect_read
reconnect_read-Quiet r s = after_open-Quiet (s.make_read && asks_retry r) (
    reset_reader (if s.make_read then opened r else none)
      (record (cancel_timers s) { read_loop_active = false }))

handle_read_disconnect-Quiet : (r : Fd) → Quiet (handle_read_disconnect r)
unfolding handle_read_disconnect
handle_read_disconnect-Quiet r s =
    let (s', out) = notify_disconnected (cancel_timers s) in
    quiet-append out (reconnect_read false r s').0.1 (notify_disconnected-Quiet (cancel_timers s))
      (reconnect_read-Quiet r s')

read_body-Quiet : (r : Fd) (pos size : ℕ) → Quiet (read_body r pos size)
unfolding read_body
read_body-Quiet r pos size s = ground (arith, handle_read_disconnect-Quiet r s)

handle_read_error-Quiet :
    (r : Fd) (at : Reading) (error : ReadError) → Quiet (handle_read_error r at error)
unfolding handle_read_error
handle_read_error-Quiet r at aborted s = refl
handle_read_error-Quiet r at later s = refl
handle_read_error-Quiet r at broken s = handle_read_disconnect-Quiet r s

header_complete-Quiet : (e : Endian) (r : Fd) → Quiet (header_complete e r)
unfolding header_complete
header_complete-Quiet e r s = ground (arith, read_body-Quiet r 0 (payload_size e s.r_buffer) s)

header_received-Quiet :
    (e : Endian) (r : Fd) (pos size count : ℕ) → Quiet (header_received e r pos size count)
unfolding header_received
header_received-Quiet e r pos size count s = ground (
  arith,
  handle_read_disconnect-Quiet r s,
  then-Quiet notify_connected (header_complete e r) notify_connected-Quiet
      (header_complete-Quiet e r) s,
)

body_received-Quiet : (r : Fd) (pos size count : ℕ) → Quiet (body_received r pos size count)
unfolding body_received
body_received-Quiet r pos size count s = ground (
  arith,
  handle_read_disconnect-Quiet r s,
  quiet_message (self_id s) (take size s.r_buffer) s.handlers.on_message_cb,
  read_body-Quiet r (add64 pos count) size s,
)

complete_at-Quiet :
    (e : Endian) (r : Fd) (at : Reading) (result : Completion) → Quiet (complete_at e r at result)
unfolding complete_at
complete_at-Quiet e r idle result s = refl
complete_at-Quiet e r (header pos size) (failed error) s = handle_read_error-Quiet r _ error _
complete_at-Quiet e r (body pos size) (failed error) s = handle_read_error-Quiet r _ error _
complete_at-Quiet e r (header pos size) (received bytes) s = header_received-Quiet e r pos size _ _
complete_at-Quiet e r (body pos size) (received bytes) s = body_received-Quiet r pos size _ _

retry_due_at-Quiet : (r : Fd) (at : Retry) → Quiet (retry_due_at r at)
unfolding retry_due_at
retry_due_at-Quiet r off s = refl
retry_due_at-Quiet r reopen s = reconnect_read-Quiet r s
retry_due_at-Quiet r (resume idle) s = refl
retry_due_at-Quiet r (resume (header pos size)) s = ground arith
retry_due_at-Quiet r (resume (body pos size)) s = ground (arith, read_body-Quiet r pos size s)

probe_due-Quiet : (e : Endian) → Quiet (probe_due e)
unfolding probe_due
probe_due-Quiet e s = ground (arith, quiet-append _ [] (write_message-Quiet e [] s) refl)

restart-Quiet : (rfd wfd : Fd) → Quiet (restart rfd wfd)
unfolding restart
restart-Quiet rfd wfd s = reconnect_read-Quiet rfd _

run_task-Quiet : (e : Endian) (task : Task) → Quiet (run_task e task)
unfolding run_task
run_task-Quiet e (publish msg) s = write_message-Quiet e msg s
run_task-Quiet e (publish_ex ids msg) s = ground (arith, write_message-Quiet e msg s)
run_task-Quiet e (send ids msg) s = ground (arith, write_message-Quiet e msg s)
run_task-Quiet e (user f) s = refl

turn_of-Quiet : (e : Endian) (tasks : List Task) → Quiet (turn_of e tasks)
unfolding turn_of
turn_of-Quiet e [] s = refl
turn_of-Quiet e (task ∷ tasks) s =
    ground (arith, run_task-Quiet e task (record s { posted = tasks }))

poll-Quiet : (e : Endian) → Quiet (poll e)
unfolding poll
poll-Quiet e s =
    ground
      (arith, run_all-Quiet (run_task e) (run_task-Quiet e) s.posted (record s { posted = [] }))

step-Quiet : (e : Endian) (event : Event) → Quiet (step e event)
unfolding step turn complete retry_due
step-Quiet e (posts task) s = refl
step-Quiet e turns s = turn_of-Quiet e s.posted s
step-Quiet e polls s = poll-Quiet e s
step-Quiet e stops s = refl
step-Quiet e probes s = probe_due-Quiet e s
step-Quiet e (restarts rfd wfd) s = restart-Quiet rfd wfd s
step-Quiet e (completes rfd result) s = complete_at-Quiet e rfd s.reading result s
step-Quiet e (retries rfd) s = retry_due_at-Quiet rfd s.retry _
step-Quiet e (hears_message f) s = refl
step-Quiet e (hears_ready f) s = refl
step-Quiet e (hears_connect f) s = refl
step-Quiet e (hears_disconnect f) s = refl

create-quiet :
    (this buffer : ℕ) (make_read make_write : Bool) (rfd wfd : Fd)
    → readies (create this buffer make_read make_write rfd wfd).1 ≡ 0
unfolding create reconnect_read after_open notify_ready invoke
create-quiet this buffer make_read make_write rfd wfd = ground arith

-- From the creation of a service over pipes on, whatever happens, callbacks that are registered
-- for `on_ready` included, no `on_ready` callback is ever called.
pub never_ready :
    (e : Endian) (this buffer : ℕ) (make_read make_write : Bool) (rfd wfd : Fd)
    (events : List Event)
    → let (s, out) = create this buffer make_read make_write rfd wfd in
      readies (out ++ (run_events e events s).1) ≡ 0
unfolding run_events
never_ready e this buffer make_read make_write rfd wfd events =
    let (s, out) = create this buffer make_read make_write rfd wfd in
    quiet-append out (run_all (step e) events s).1
      (create-quiet this buffer make_read make_write rfd wfd)
      (run_all-Quiet (step e) (step-Quiet e) events s)
