-- ===== src/Pipe/Session.antt =====
-- src/src/pipe/create.cpp: what the user is told of the peer.
pub mod Events
use nil_service.Common.{
  ltb, ℕ, suc, ◌+◌, ◌≡◌, refl, sym, ap, ◌∙◌, Bool, ◌&&◌, not, true, false, Option, none, some, List,
  [], ◌∷◌, ◌++◌, if◌then◌else◌, ◌==◌, arith, Bytes, if_both, take, add64, length, append-nil,
}
use nil_service.Codec.{Endian}
use nil_service.Service.{
  Effect, sent, Handlers, invoke_connect, invoke_disconnect, invoke_message, Action, ◌▷◌, update,
  run_all,
}
use nil_service.Service.Calls.{
  live, connects_of, disconnects_of, connects_of-append, disconnects_of-append, Told,
  invoke_connect-Told, invoke_disconnect-Told, invoke_message-Told,
}
use nil_service.Service.MessageHandler.{is_some}
use nil_service.Pipe.{
  ReadError, aborted, later, broken, Completion, failed, received, handle_read_error,
  notify_connected, header_complete, header_received, body_received, complete_at, complete,
  payload_size, retry_due_at, retry_due, probe_due, restart, run_task, post, turn_of, turn, poll,
  stop, impl_on_message, impl_on_ready, Event, posts, turns, polls, stops, probes, restarts,
  completes, retries, hears_message, hears_ready, hears_connect, hears_disconnect, step, run_events,
  store_received,
}
use nil_service.Pipe.Opening.{
  Fd, Reading, header, body, idle, Retry, resume, Task, publish, publish_ex, send, user, Pipe,
  self_id, schedule_probe, schedule_read_retry, schedule_read_wait, write_to, write_message,
  notify_ready, start_reading, read_header, read_next_header, resize, notify_disconnected,
  after_open, opened, asks_retry, cancel_timers, reset_reader, reset_writer, reconnect_read,
  reconnect_write, handle_read_disconnect, stop_unless, read_body, can_probe,
}
use nil_service.Pipe.Hearing.{
  IsHeard, KeepsPeer, quiet, moved, then-KeepsPeer, moved-IsHeard, start_reading-Same,
  read_next_header-Same, read_header-Same, schedule_read_wait-Same, stop_unless-Same,
}

notify_disconnected-KeepsPeer : (s : Pipe) → IsHeard s → KeepsPeer s (notify_disconnected s)
unfolding notify_disconnected
notify_disconnected-KeepsPeer s h = record {
  heard = ground (arith, h.connect_heard, h.disconnect_heard);
  this_same = ground arith;
  balance =
      ground (arith, invoke_disconnect-Told s.this s.handlers (self_id s), h.disconnect_heard);
}

notify_connected-KeepsPeer : (s : Pipe) → IsHeard s → KeepsPeer s (notify_connected s)
unfolding notify_connected
notify_connected-KeepsPeer s h = record {
  heard = ground (arith, h.connect_heard, h.disconnect_heard);
  this_same = ground arith;
  balance = ground (arith, invoke_connect-Told s.this s.handlers (self_id s), h.connect_heard);
}

after_open-KeepsPeer : (b : Bool) (s : Pipe) → IsHeard s → KeepsPeer s (after_open false b s).0
unfolding after_open notify_ready schedule_probe schedule_read_retry
after_open-KeepsPeer b s h = record {
  heard = ground (arith, start_reading-Same s, h.connect_heard, h.disconnect_heard);
  this_same = ground (arith, start_reading-Same s);
  balance = ground (arith, start_reading-Same s);
}

pub reconnect_read-KeepsPeer :
    (r : Fd) (s : Pipe) → IsHeard s → KeepsPeer s (reconnect_read false r s).0
unfolding reconnect_read cancel_timers reset_reader
reconnect_read-KeepsPeer r s h =
    let s' : Pipe =
      reset_reader (if s.make_read then opened r else none)
        (record (cancel_timers s) { read_loop_active = false }) in
    moved s s' (after_open false (s.make_read && asks_retry r) s').0 (refl, refl, refl, refl)
      (after_open-KeepsPeer (s.make_read && asks_retry r) s'
        (moved-IsHeard s s' (refl, refl, refl, refl) h))

handle_read_disconnect-KeepsPeer :
    (r : Fd) (s : Pipe) → IsHeard s → KeepsPeer s (handle_read_disconnect r s)
unfolding handle_read_disconnect cancel_timers
handle_read_disconnect-KeepsPeer r s h =
    let told : KeepsPeer s (notify_disconnected (cancel_timers s)) =
      moved s (cancel_timers s) (notify_disconnected (cancel_timers s)) (refl, refl, refl, refl)
        (notify_disconnected-KeepsPeer (cancel_timers s)
          (moved-IsHeard s (cancel_timers s) (refl, refl, refl, refl) h)) in
    let s' : Pipe = (notify_disconnected (cancel_timers s)).0 in
    let opened_ : KeepsPeer s' (reconnect_read false r s').0 =
      reconnect_read-KeepsPeer r s' told.heard in
    let r' : Pipe × List Effect = (reconnect_read false r s').0 in
    let b : Bool = (reconnect_read false r s').1 in
    then-KeepsPeer s (notify_disconnected (cancel_timers s)) (stop_unless b r'.0, r'.1) told
      (record {
        heard = moved-IsHeard r'.0 (stop_unless b r'.0) (stop_unless-Same b r'.0) opened_.heard;
        this_same = (stop_unless-Same b r'.0).1 ∙ opened_.this_same;
        balance = rw ((stop_unless-Same b r'.0).0) opened_.balance;
      })

pub read_body-KeepsPeer :
    (r : Fd) (pos size : ℕ) (s : Pipe) → IsHeard s → KeepsPeer s (read_body r pos size s)
unfolding read_body
read_body-KeepsPeer r pos size s h =
    if_both (KeepsPeer s) (not (is_some s.reader)) (s, []) _
      (quiet s s [] h (refl, refl, refl, refl) (refl, refl))
      (if_both (KeepsPeer s) (ltb s.buffer size) (handle_read_disconnect r s)
        (record s { reading = body pos size }, []) (handle_read_disconnect-KeepsPeer r s h)
        (quiet s (record s { reading = body pos size }) [] h (refl, refl, refl, refl) (refl, refl)))

handle_read_error-KeepsPeer :
    (r : Fd) (at : Reading) (error : ReadError) (s : Pipe)
    → IsHeard s
    → KeepsPeer s (handle_read_error r at error s)
unfolding handle_read_error
handle_read_error-KeepsPeer r at aborted s h = quiet s s [] h (refl, refl, refl, refl) (refl, refl)
handle_read_error-KeepsPeer r at later s h =
    quiet s (schedule_read_wait at s) [] h (schedule_read_wait-Same at s) (refl, refl)
handle_read_error-KeepsPeer r at broken s h = handle_read_disconnect-KeepsPeer r s h

header_complete-KeepsPeer :
    (e : Endian) (r : Fd) (s : Pipe) → IsHeard s → KeepsPeer s (header_complete e r s)
unfolding header_complete
header_complete-KeepsPeer e r s h =
    if_both (KeepsPeer s) (payload_size e s.r_buffer == 0) (read_next_header s, [])
      (read_body r 0 (payload_size e s.r_buffer) s)
      (quiet s (read_next_header s) [] h (read_next_header-Same s) (refl, refl))
      (read_body-KeepsPeer r 0 (payload_size e s.r_buffer) s h)

header_received-KeepsPeer :
    (e : Endian) (r : Fd) (pos size n : ℕ) (s : Pipe)
    → IsHeard s
    → KeepsPeer s (header_received e r pos size n s)
unfolding header_received
header_received-KeepsPeer e r pos size n s h =
    let told : KeepsPeer s (notify_connected s) = notify_connected-KeepsPeer s h in
    if_both (KeepsPeer s) (n == 0) (handle_read_disconnect r s) _
      (handle_read_disconnect-KeepsPeer r s h)
      (if_both (KeepsPeer s) (add64 pos n == size) _ (read_header (add64 pos n) size s, [])
        (then-KeepsPeer s (notify_connected s) (header_complete e r (notify_connected s).0) told
          (header_complete-KeepsPeer e r (notify_connected s).0 told.heard))
        (quiet s (read_header (add64 pos n) size s) [] h (read_header-Same (add64 pos n) size s)
          (refl, refl)))

body_received-KeepsPeer :
    (r : Fd) (pos size n : ℕ) (s : Pipe) → IsHeard s → KeepsPeer s (body_received r pos size n s)
unfolding body_received
body_received-KeepsPeer r pos size n s h =
    if_both (KeepsPeer s) (n == 0) (handle_read_disconnect r s) _
      (handle_read_disconnect-KeepsPeer r s h)
      (if_both (KeepsPeer s) (add64 pos n == size) _ (read_body r (add64 pos n) size s)
        (quiet s (read_next_header s) (invoke_message s.handlers (self_id s) (take size s.r_buffer))
          h (read_next_header-Same s)
          (invoke_message-Told s.this s.handlers (self_id s) (take size s.r_buffer)))
        (read_body-KeepsPeer r (add64 pos n) size s h))

pub complete_at-KeepsPeer :
    (e : Endian) (r : Fd) (at : Reading) (result : Completion) (s : Pipe)
    → IsHeard s
    → KeepsPeer s (complete_at e r at result s)
unfolding complete_at
complete_at-KeepsPeer e r idle result s h = quiet s s [] h (refl, refl, refl, refl) (refl, refl)
complete_at-KeepsPeer e r (header pos size) (failed error) s h =
    moved s (record s { reading = idle }) _ (refl, refl, refl, refl)
      (handle_read_error-KeepsPeer r (header pos size) error (record s { reading = idle })
        (moved-IsHeard s (record s { reading = idle }) (refl, refl, refl, refl) h))
complete_at-KeepsPeer e r (body pos size) (failed error) s h =
    moved s (record s { reading = idle }) _ (refl, refl, refl, refl)
      (handle_read_error-KeepsPeer r (body pos size) error (record s { reading = idle })
        (moved-IsHeard s (record s { reading = idle }) (refl, refl, refl, refl) h))
complete_at-KeepsPeer e r (header pos size) (received bytes) s h =
    moved s (store_received pos bytes s) _ (refl, refl, refl, refl)
      (header_received-KeepsPeer e r pos size (length bytes) (store_received pos bytes s)
        (moved-IsHeard s (store_received pos bytes s) (refl, refl, refl, refl) h))
complete_at-KeepsPeer e r (body pos size) (received bytes) s h =
    moved s (store_received pos bytes s) _ (refl, refl, refl, refl)
      (body_received-KeepsPeer r pos size (length bytes) (store_received pos bytes s)
        (moved-IsHeard s (store_received pos bytes s) (refl, refl, refl, refl) h))
