-- ===== src/Udp/Client/Session.antt =====
-- src/src/udp/client/create.cpp: the session that the probes keep up, and what a restart makes of it.
use nil_service.Common.{◌≡◌, refl, ◌∙◌, true, false, List, [], ◌∷◌, ◌++◌, arith, Bytes, if_both}
use nil_service.Codec.{Endian}
use nil_service.Service.{ServiceId, Effect, run_all}
use nil_service.Service.Calls.{connects_of-append, disconnects_of-append}
use nil_service.Udp.Client.{
  Client, Task, publish, publish_ex, user, post, Opening, receive, ping, stop, restart,
  send_external, run_task, send, message, failed, received, complete, ping_due, turn_of, turn, poll,
  Event, posts, sends, turns, polls, stops, restarts, completes, pings, times_out, step, run_events,
}
use nil_service.Udp.Client.Telling.{
  IsValid, KeepsSession, Same, timed_out-KeepsSession, message-KeepsSession,
}

quiet : (s : Client) (r : Client) → IsValid s → Same s r → KeepsSession s (r, [])
quiet s r v same = record {
  valid = record {
    connect_heard = ground (arith, same, v.connect_heard);
    disconnect_heard = ground (arith, same, v.disconnect_heard);
    timed = ground (arith, same, v.timed);
  };
  this_same = same.2;
  balance = ground (arith, same);
}

run_task-KeepsSession :
    (e : Endian) (t : Task) (s : Client) → IsValid s → KeepsSession s (run_task e t s)
unfolding run_task send_external
run_task-KeepsSession e (publish msg) s v = record { valid = v; this_same = refl; balance = refl }
run_task-KeepsSession e (publish_ex ids msg) s v = record {
  valid = v;
  this_same = refl;
  balance = ground arith;
}
run_task-KeepsSession e (user f) s v = record { valid = v; this_same = refl; balance = refl }

then-KeepsSession :
    (s : Client) (r q : Client × List Effect)
    → KeepsSession s r
    → KeepsSession r.0 q
    → KeepsSession s (q.0, r.1 ++ q.1)
then-KeepsSession s r q k l = record {
  valid = l.valid;
  this_same = l.this_same ∙ k.this_same;
  balance = omega (
    arith,
    k.balance,
    rw (k.this_same) at (l.balance),
    connects_of-append s.this r.1 q.1,
    disconnects_of-append s.this r.1 q.1,
  );
}

run_all-KeepsSession :
    (e : Endian) (ts : List Task) (s : Client)
    → IsValid s
    → KeepsSession s (run_all (run_task e) ts s)
unfolding run_all
run_all-KeepsSession e [] s v = record { valid = v; this_same = refl; balance = refl }
run_all-KeepsSession e (t ∷ ts) s v =
    let one : KeepsSession s (run_task e t s) = run_task-KeepsSession e t s v in
    then-KeepsSession s (run_task e t s) (run_all (run_task e) ts (run_task e t s).0) one
      (run_all-KeepsSession e ts (run_task e t s).0 one.valid)

-- What tells the same from a state that differs in nothing that counts.
moved-KeepsSession :
    (s s' : Client) (r : Client × List Effect) → Same s s' → KeepsSession s' r → KeepsSession s r
moved-KeepsSession s s' r same k = record {
  valid = k.valid;
  this_same = k.this_same ∙ same.2;
  balance = rw (same.0, same.2) at (k.balance);
}

turn_of-KeepsSession :
    (e : Endian) (ts : List Task) (s : Client) → IsValid s → KeepsSession s (turn_of e ts s)
unfolding turn_of
turn_of-KeepsSession e [] s v = record { valid = v; this_same = refl; balance = refl }
turn_of-KeepsSession e (t ∷ ts) s v =
    if_both (KeepsSession s) s.stopped _ _ (record { valid = v; this_same = refl; balance = refl })
      (moved-KeepsSession s (record s { posted = ts }) (run_task e t (record s { posted = ts }))
        (refl, refl, refl, refl)
        (run_task-KeepsSession e t (record s { posted = ts })
          (quiet s (record s { posted = ts }) v (refl, refl, refl, refl)).valid))

poll-KeepsSession : (e : Endian) (s : Client) → IsValid s → KeepsSession s (poll e s)
unfolding poll
poll-KeepsSession e s v =
    if_both (KeepsSession s) s.stopped _ _ (record { valid = v; this_same = refl; balance = refl })
      (moved-KeepsSession s (record s { posted = [] })
        (run_all (run_task e) s.posted (record s { posted = [] })) (refl, refl, refl, refl)
        (run_all-KeepsSession e s.posted (record s { posted = [] })
          (quiet s (record s { posted = [] }) v (refl, refl, refl, refl)).valid))

send-Same : (ids : List ServiceId) (msg : Bytes) (s : Client) → Same s (send ids msg s)
unfolding send
send-Same ids msg s = ground arith

-- A restart is allowed here while no server is connected.
abbrev pub FitsEvent : Event → Client → Type 0
FitsEvent (posts task) s = Unit
FitsEvent (sends ids msg) s = Unit
FitsEvent turns s = Unit
FitsEvent polls s = Unit
FitsEvent stops s = Unit
FitsEvent (restarts o) s = s.connected ≡ false
FitsEvent (completes result) s = Unit
FitsEvent pings s = Unit
FitsEvent (times_out o) s = Unit

restart-KeepsSession :
    (e : Endian) (o : Opening) (s : Client)
    → IsValid s
    → s.connected ≡ false
    → KeepsSession s (restart e o s)
unfolding restart
restart-KeepsSession e o s v h = record {
  valid = record {
    connect_heard = ground (arith, v.connect_heard);
    disconnect_heard = ground (arith, v.disconnect_heard);
    timed = ground arith;
  };
  this_same = ground arith;
  balance = ground arith;
}

pub step-KeepsSession :
    (e : Endian) (w : Event) (s : Client) → IsValid s → FitsEvent w s → KeepsSession s (step e w s)
unfolding step turn stop complete receive ping_due ping
step-KeepsSession e (posts task) s v fits = quiet s (post task s) v (refl, refl, refl, refl)
step-KeepsSession e (sends ids msg) s v fits = quiet s (send ids msg s) v (send-Same ids msg s)
step-KeepsSession e turns s v fits = turn_of-KeepsSession e s.posted s v
step-KeepsSession e polls s v fits = poll-KeepsSession e s v
step-KeepsSession e stops s v fits =
    quiet s (record s { stopped = true }) v (refl, refl, refl, refl)
step-KeepsSession e (restarts o) s v fits = restart-KeepsSession e o s v fits
step-KeepsSession e (completes failed) s v fits =
    quiet s (record s { receiving = false }) v (refl, refl, refl, refl)
step-KeepsSession e (completes (received bytes)) s v fits =
    let got : KeepsSession (record s { receiving = false })
        (message e bytes (record s { receiving = false })) =
      message-KeepsSession e bytes (record s { receiving = false })
        (quiet s (record s { receiving = false }) v (refl, refl, refl, refl)).valid in
    record {
      valid =
          (quiet (message e bytes (record s { receiving = false })).0
            (receive (message e bytes (record s { receiving = false })).0) got.valid
            (refl, refl, refl, refl)).valid;
      this_same = got.this_same;
      balance = got.balance;
    }
step-KeepsSession e pings s v fits = record {
  valid = (quiet s (record s { pinging = true }) v (refl, refl, refl, refl)).valid;
  this_same = refl;
  balance = refl;
}
step-KeepsSession e (times_out o) s v fits = timed_out-KeepsSession o s v

abbrev pub FitsEvents : Endian → List Event → Client → Type 0
FitsEvents e [] s = Unit
FitsEvents e (w ∷ ws) s = FitsEvent w s × FitsEvents e ws (step e w s).0

-- Over any run in which the environment keeps to FitsEvents (a restart comes only while the client
-- is not connected), from a client with one callback of each kind whose time runs if it is
-- connected: this stays so, and the client is connected at the end as often (0 or 1) as at the
-- start, plus the connects, less the disconnects, that the user is told of.
pub run_events-KeepsSession :
    (e : Endian) (ws : List Event) (s : Client)
    → IsValid s
    → FitsEvents e ws s
    → KeepsSession s (run_events e ws s)
unfolding run_events run_all
run_events-KeepsSession e [] s v fits = record { valid = v; this_same = refl; balance = refl }
run_events-KeepsSession e (w ∷ ws) s v fits =
    let one : KeepsSession s (step e w s) = step-KeepsSession e w s v fits.0 in
    then-KeepsSession s (step e w s) (run_events e ws (step e w s).0) one
      (run_events-KeepsSession e ws (step e w s).0 one.valid fits.1)
