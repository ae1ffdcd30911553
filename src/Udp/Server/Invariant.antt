-- ===== src/Udp/Server/Invariant.antt =====
-- src/src/udp/server/create.cpp: its connections with their timers, and what the user is told of them.
use nil_service.Common.{ℕ, ◌≡◌, refl, false, List, [], ◌∷◌, ◌++◌, arith, if_both}
use nil_service.Codec.{Endian}
use nil_service.Service.{Effect, run_all}
use nil_service.Service.Calls.{connects_of-append, disconnects_of-append, invoke_ready-Told}
use nil_service.Service.Peers.{addresses}
use nil_service.Service.Peers.Delivery.{Differs}
use nil_service.Udp.Server.{
  Server, Task, ready, publish, publish_ex, send, user, receive, stop, restart, drop_waits,
  run_task, message, failed, received, complete, find_address, expired, turn_of, turn, poll, Event,
  posts, turns, polls, stops, restarts, completes, expires, step, run_events, local_id,
}
use nil_service.Udp.Server.Peers.{publish_each-Told, publish_except-Told, send_each-Told}
use nil_service.Udp.Server.Handling.{IsValid, IsHeard, Keeps, message-Keeps, expired_at-Keeps}

run_task-Keeps :
    (b : ℕ) (e : Endian) (t : Task) (s : Server)
    → IsValid s
    → IsHeard s
    → Keeps b s (run_task e t s)
unfolding run_task
run_task-Keeps b e ready s v h = record {
  sound = v;
  heard = h;
  balance = omega (arith, invoke_ready-Told b s.handlers (local_id s));
}
run_task-Keeps b e (publish msg) s v h = record {
  sound = v;
  heard = h;
  balance = omega (arith, publish_each-Told b e msg s.connections);
}
run_task-Keeps b e (publish_ex ids msg) s v h = record {
  sound = v;
  heard = h;
  balance = omega (arith, publish_except-Told b e msg s.this ids s.connections);
}
run_task-Keeps b e (send ids msg) s v h = record {
  sound = v;
  heard = h;
  balance = omega (arith, send_each-Told b e msg s.this ids s.connections);
}
run_task-Keeps b e (user f) s v h = record { sound = v; heard = h; balance = refl }

-- Two pieces of code, one after the other.
then-Keeps :
    (b : ℕ) (s : Server) (r : Server × List Effect) (q : Server × List Effect)
    → Keeps b s r
    → Keeps b r.0 q
    → Keeps b s (q.0, r.1 ++ q.1)
then-Keeps b s r q k l = record {
  sound = l.sound;
  heard = l.heard;
  balance =
      omega (
        arith,
        k.balance,
        l.balance,
        connects_of-append b r.1 q.1,
        disconnects_of-append b r.1 q.1,
      );
}

run_all-Keeps :
    (b : ℕ) (e : Endian) (ts : List Task) (s : Server)
    → IsValid s
    → IsHeard s
    → Keeps b s (run_all (run_task e) ts s)
unfolding run_all
run_all-Keeps b e [] s v h = record { sound = v; heard = h; balance = refl }
run_all-Keeps b e (t ∷ ts) s v h =
    let one : Keeps b s (run_task e t s) = run_task-Keeps b e t s v h in
    then-Keeps b s (run_task e t s) (run_all (run_task e) ts (run_task e t s).0) one
      (run_all-Keeps b e ts (run_task e t s).0 one.sound one.heard)

-- What the environment may do: new connections are put at fresh addresses, and a restart is allowed
-- here while there is no connection.
abbrev pub FitsEvent : Event → Server → Type 0
FitsEvent (posts task) s = Unit
FitsEvent turns s = Unit
FitsEvent polls s = Unit
FitsEvent stops s = Unit
FitsEvent restarts s = s.connections ≡ []
FitsEvent (completes failed) s = Unit
FitsEvent (completes (received fresh endpoint bytes)) s = Differs fresh (addresses s.connections)
FitsEvent (expires address) s = Unit

turn_of-Keeps :
    (b : ℕ) (e : Endian) (ts : List Task) (s : Server)
    → IsValid s
    → IsHeard s
    → Keeps b s (turn_of e ts s)
unfolding turn_of
turn_of-Keeps b e [] s v h = record { sound = v; heard = h; balance = refl }
turn_of-Keeps b e (t ∷ ts) s v h =
    let one : Keeps b (record s { posted = ts }) (run_task e t (record s { posted = ts })) =
      run_task-Keeps b e t (record s { posted = ts }) v
        (record { connect_heard = h.connect_heard; disconnect_heard = h.disconnect_heard }) in
    if_both (Keeps b s) s.stopped _ _ (record { sound = v; heard = h; balance = refl })
      (record { sound = one.sound; heard = one.heard; balance = one.balance })

-- Every event keeps the connections sound, and tells of each what happens to it.
pub step-Keeps :
    (b : ℕ) (e : Endian) (w : Event) (s : Server)
    → IsValid s
    → IsHeard s
    → FitsEvent w s
    → Keeps b s (step e w s)
unfolding step turn poll stop restart complete receive expired
step-Keeps b e (posts task) s v h fits = record {
  sound = v;
  heard = record { connect_heard = h.connect_heard; disconnect_heard = h.disconnect_heard };
  balance = refl;
}
step-Keeps b e turns s v h fits = turn_of-Keeps b e s.posted s v h
step-Keeps b e polls s v h fits =
    let all : Keeps b (record s { posted = [] })
        (run_all (run_task e) s.posted (record s { posted = [] })) =
      run_all-Keeps b e s.posted (record s { posted = [] }) v
        (record { connect_heard = h.connect_heard; disconnect_heard = h.disconnect_heard }) in
    if_both (Keeps b s) s.stopped _ _ (record { sound = v; heard = h; balance = refl })
      (record { sound = all.sound; heard = all.heard; balance = all.balance })
step-Keeps b e stops s v h fits = record {
  sound = v;
  heard = record { connect_heard = h.connect_heard; disconnect_heard = h.disconnect_heard };
  balance = refl;
}
step-Keeps b e restarts s v h fits = record {
  sound = rw (fits, drop_waits) (record { distinct = tt; separate = tt; waiting = tt });
  heard = record { connect_heard = h.connect_heard; disconnect_heard = h.disconnect_heard };
  balance = rw (fits, drop_waits) refl;
}
step-Keeps b e (completes failed) s v h fits = record {
  sound = v;
  heard = record { connect_heard = h.connect_heard; disconnect_heard = h.disconnect_heard };
  balance = refl;
}
step-Keeps b e (completes (received fresh endpoint bytes)) s v h fits =
    let got : Keeps b (record s { receiving = false })
        (message e fresh endpoint bytes (record s { receiving = false })) =
      message-Keeps b e fresh endpoint bytes (record s { receiving = false }) v
        (record { connect_heard = h.connect_heard; disconnect_heard = h.disconnect_heard }) fits in
    record {
      sound = got.sound;
      heard = record {
        connect_heard = got.heard.connect_heard;
        disconnect_heard = got.heard.disconnect_heard;
      };
      balance = got.balance;
    }
step-Keeps b e (expires a) s v h fits =
    expired_at-Keeps b a (find_address a s.connections) s v h refl

abbrev pub FitsEvents : Endian → List Event → Server → Type 0
FitsEvents e [] s = Unit
FitsEvents e (w ∷ ws) s = FitsEvent w s × FitsEvents e ws (step e w s).0

-- Over any run in which the environment keeps to FitsEvents (a restart comes only while there is
-- no connection), from a server with sound connections and one callback of each kind: the
-- connections stay sound (no two share an address or an endpoint, and each has a timer that runs),
-- and for any address the connections at it that are there at the end are those from the start,
-- plus the connects, less the disconnects, that the user is told of.
pub run_events-Keeps :
    (b : ℕ) (e : Endian) (ws : List Event) (s : Server)
    → IsValid s
    → IsHeard s
    → FitsEvents e ws s
    → Keeps b s (run_events e ws s)
unfolding run_events run_all
run_events-Keeps b e [] s v h fits = record { sound = v; heard = h; balance = refl }
run_events-Keeps b e (w ∷ ws) s v h fits =
    let one : Keeps b s (step e w s) = step-Keeps b e w s v h fits.0 in
    then-Keeps b s (step e w s) (run_events e ws (step e w s).0) one
      (run_events-Keeps b e ws (step e w s).0 one.sound one.heard fits.1)
