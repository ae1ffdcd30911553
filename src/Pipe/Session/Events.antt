-- ===== src/Pipe/Session/Events.antt =====
-- src/src/pipe/create.cpp: what the user is told of the peer over the events of a service.
use nil_service.Common.{◌≡◌, refl, sym, ◌∙◌, false, none, List, [], ◌∷◌, arith, if_both}
use nil_service.Codec.{Endian}
use nil_service.Service.{Effect, run_all}
use nil_service.Service.MessageHandler.{is_some}
use nil_service.Pipe.{
  complete, retry_due_at, retry_due, probe_due, restart, run_task, post, turn_of, turn, poll, stop,
  impl_on_message, impl_on_ready, Event, posts, turns, polls, stops, probes, restarts, completes,
  retries, hears_message, hears_ready, hears_connect, hears_disconnect, step, run_events,
}
use nil_service.Pipe.Opening.{
  off, Fd, header, body, idle, Retry, resume, Task, publish, publish_ex, send, user, Pipe,
  schedule_probe, write_message, read_header, cancel_timers, reconnect_read, reconnect_write,
  read_body, can_probe, contains_self_id, reopen,
}
use nil_service.Pipe.Session.{read_body-KeepsPeer, reconnect_read-KeepsPeer, complete_at-KeepsPeer}
use nil_service.Pipe.Hearing.{
  IsHeard, KeepsPeer, Same, quiet, moved, moved-IsHeard, then-KeepsPeer, write_message-KeepsPeer,
  read_header-Same, reconnect_write-Same,
}

nothing : (s : Pipe) → IsHeard s → KeepsPeer s (s, [])
nothing s h = quiet s s [] h (refl, refl, refl, refl) (refl, refl)

retry_due_at-KeepsPeer :
    (r : Fd) (at : Retry) (s : Pipe) → IsHeard s → KeepsPeer s (retry_due_at r at s)
unfolding retry_due_at
retry_due_at-KeepsPeer r off s h = nothing s h
retry_due_at-KeepsPeer r reopen s h = reconnect_read-KeepsPeer r s h
retry_due_at-KeepsPeer r (resume idle) s h = nothing s h
retry_due_at-KeepsPeer r (resume (header pos size)) s h =
    if_both (KeepsPeer s) (is_some s.reader) (read_header pos size s, []) (s, [])
      (quiet s (read_header pos size s) [] h (read_header-Same pos size s) (refl, refl))
      (nothing s h)
retry_due_at-KeepsPeer r (resume (body pos size)) s h =
    if_both (KeepsPeer s) (is_some s.reader) (read_body r pos size s) (s, [])
      (read_body-KeepsPeer r pos size s h) (nothing s h)

probe_due-KeepsPeer : (e : Endian) (s : Pipe) → IsHeard s → KeepsPeer s (probe_due e s)
unfolding probe_due write_message schedule_probe
probe_due-KeepsPeer e s h =
    let told : KeepsPeer s (write_message e [] s) = write_message-KeepsPeer e [] s h in
    let s' : Pipe = (write_message e [] s).0 in
    if_both (KeepsPeer s) (can_probe s) _ (record s { probe = false }, [])
      (then-KeepsPeer s (write_message e [] s) (schedule_probe s', []) told
        (quiet s' (schedule_probe s') [] told.heard (refl, refl, refl, refl) (refl, refl)))
      (quiet s (record s { probe = false }) [] h (refl, refl, refl, refl) (refl, refl))

restart-KeepsPeer :
    (rfd wfd : Fd) (s : Pipe) → IsHeard s → s.connected ≡ false → KeepsPeer s (restart rfd wfd s)
unfolding restart cancel_timers
restart-KeepsPeer rfd wfd s h apart =
    let s' : Pipe = record (cancel_timers s) {
      reader = none;
      writer = none;
      reading = idle;
      ready_notified = false;
      connected = false;
      read_loop_active = false;
      posted = [];
      stopped = false;
    } in
    let r : Pipe × List Effect = (reconnect_read false rfd s').0 in
    let told : KeepsPeer s' r =
      reconnect_read-KeepsPeer rfd s' (moved-IsHeard s s' (sym apart, refl, refl, refl) h) in
    let same : Same r.0 (reconnect_write wfd r.0).0 = reconnect_write-Same wfd r.0 in
    moved s s' ((reconnect_write wfd r.0).0, r.1) (sym apart, refl, refl, refl)
      (record {
        heard = moved-IsHeard r.0 (reconnect_write wfd r.0).0 same told.heard;
        this_same = same.1 ∙ told.this_same;
        balance = rw (same.0) (told.balance);
      })

run_task-KeepsPeer : (e : Endian) (t : Task) (s : Pipe) → IsHeard s → KeepsPeer s (run_task e t s)
unfolding run_task
run_task-KeepsPeer e (publish msg) s h = write_message-KeepsPeer e msg s h
run_task-KeepsPeer e (publish_ex ids msg) s h =
    if_both (KeepsPeer s) (contains_self_id ids s) (s, []) (write_message e msg s) (nothing s h)
      (write_message-KeepsPeer e msg s h)
run_task-KeepsPeer e (send ids msg) s h =
    if_both (KeepsPeer s) (contains_self_id ids s) (write_message e msg s) (s, [])
      (write_message-KeepsPeer e msg s h) (nothing s h)
run_task-KeepsPeer e (user f) s h = nothing s h

run_all-KeepsPeer :
    (e : Endian) (ts : List Task) (s : Pipe) → IsHeard s → KeepsPeer s (run_all (run_task e) ts s)
unfolding run_all
run_all-KeepsPeer e [] s h = nothing s h
run_all-KeepsPeer e (t ∷ ts) s h =
    let one : KeepsPeer s (run_task e t s) = run_task-KeepsPeer e t s h in
    then-KeepsPeer s (run_task e t s) (run_all (run_task e) ts (run_task e t s).0) one
      (run_all-KeepsPeer e ts (run_task e t s).0 one.heard)

turn_of-KeepsPeer :
    (e : Endian) (ts : List Task) (s : Pipe) → IsHeard s → KeepsPeer s (turn_of e ts s)
unfolding turn_of
turn_of-KeepsPeer e [] s h = nothing s h
turn_of-KeepsPeer e (t ∷ ts) s h =
    if_both (KeepsPeer s) s.stopped (s, []) (run_task e t (record s { posted = ts })) (nothing s h)
      (moved s (record s { posted = ts }) (run_task e t (record s { posted = ts }))
        (refl, refl, refl, refl)
        (run_task-KeepsPeer e t (record s { posted = ts })
          (moved-IsHeard s (record s { posted = ts }) (refl, refl, refl, refl) h)))

poll-KeepsPeer : (e : Endian) (s : Pipe) → IsHeard s → KeepsPeer s (poll e s)
unfolding poll
poll-KeepsPeer e s h =
    if_both (KeepsPeer s) s.stopped (s, [])
      (run_all (run_task e) s.posted (record s { posted = [] })) (nothing s h)
      (moved s (record s { posted = [] }) (run_all (run_task e) s.posted (record s { posted = [] }))
        (refl, refl, refl, refl)
        (run_all-KeepsPeer e s.posted (record s { posted = [] })
          (moved-IsHeard s (record s { posted = [] }) (refl, refl, refl, refl) h)))

post-Same : (t : Task) (s : Pipe) → Same s (post t s)
unfolding post
post-Same (publish msg) s = ground arith
post-Same (publish_ex ids msg) s = ground arith
post-Same (send ids msg) s = ground arith
post-Same (user f) s = (refl, refl, refl, refl)

-- What the environment may do: a restart is allowed here while no peer is connected, and functions for
-- connects and disconnects are given before.
abbrev pub FitsEvent : Event → Pipe → Type 0
FitsEvent (posts task) s = Unit
FitsEvent turns s = Unit
FitsEvent polls s = Unit
FitsEvent stops s = Unit
FitsEvent probes s = Unit
FitsEvent (restarts rfd wfd) s = s.connected ≡ false
FitsEvent (completes rfd result) s = Unit
FitsEvent (retries rfd) s = Unit
FitsEvent (hears_message f) s = Unit
FitsEvent (hears_ready f) s = Unit
FitsEvent (hears_connect f) s = ⊥
FitsEvent (hears_disconnect f) s = ⊥

step-KeepsPeer :
    (e : Endian) (v : Event) (s : Pipe) → IsHeard s → FitsEvent v s → KeepsPeer s (step e v s)
unfolding step turn complete retry_due stop cancel_timers impl_on_message impl_on_ready
step-KeepsPeer e (posts task) s h fits = quiet s (post task s) [] h (post-Same task s) (refl, refl)
step-KeepsPeer e turns s h fits = turn_of-KeepsPeer e s.posted s h
step-KeepsPeer e polls s h fits = poll-KeepsPeer e s h
step-KeepsPeer e stops s h fits = quiet s (stop s) [] h (refl, refl, refl, refl) (refl, refl)
step-KeepsPeer e probes s h fits = probe_due-KeepsPeer e s h
step-KeepsPeer e (restarts rfd wfd) s h fits = restart-KeepsPeer rfd wfd s h fits
step-KeepsPeer e (completes rfd result) s h fits = complete_at-KeepsPeer e rfd s.reading result s h
step-KeepsPeer e (retries rfd) s h fits =
    moved s (record s { retry = off }) (retry_due_at rfd s.retry (record s { retry = off }))
      (refl, refl, refl, refl)
      (retry_due_at-KeepsPeer rfd s.retry (record s { retry = off })
        (moved-IsHeard s (record s { retry = off }) (refl, refl, refl, refl) h))
step-KeepsPeer e (hears_message f) s h fits =
    quiet s (impl_on_message f s) [] h (refl, refl, refl, refl) (refl, refl)
step-KeepsPeer e (hears_ready f) s h fits =
    quiet s (impl_on_ready f s) [] h (refl, refl, refl, refl) (refl, refl)
step-KeepsPeer e (hears_connect f) s h fits = absurd fits
step-KeepsPeer e (hears_disconnect f) s h fits = absurd fits

abbrev pub FitsEvents : Endian → List Event → Pipe → Type 0
FitsEvents e [] s = Unit
FitsEvents e (v ∷ vs) s = FitsEvent v s × FitsEvents e vs (step e v s).0

-- Over any run in which the environment keeps to FitsEvents (a restart comes only while no peer is
-- connected, and functions for connects and disconnects are given before), from a service with one
-- callback of each of these kinds: this stays so, and a peer is connected at the end as often (0 or 1)
-- as at the start, plus the connects, less the disconnects, that the user is told of.
pub run_events-KeepsPeer :
    (e : Endian) (vs : List Event) (s : Pipe)
    → IsHeard s
    → FitsEvents e vs s
    → KeepsPeer s (run_events e vs s)
unfolding run_events run_all
run_events-KeepsPeer e [] s h fits = nothing s h
run_events-KeepsPeer e (v ∷ vs) s h fits =
    let one : KeepsPeer s (step e v s) = step-KeepsPeer e v s h fits.0 in
    then-KeepsPeer s (step e v s) (run_events e vs (step e v s).0) one
      (run_events-KeepsPeer e vs (step e v s).0 one.heard fits.1)
