-- ===== src/Tcp/Server/Invariant/Preservation.antt =====
-- The events of src/src/tcp/server/create.cpp and the invariant of Tcp.Server.
use nil_service.Common.{
  ℕ, ◌+◌, ◌<◌, ◌≡◌, refl, ◌∙◌, Option, none, some, List, [], ◌∷◌, arith, if_both, u64_mod,
}
use nil_service.Codec.{Endian}
use nil_service.Service.{Effect, run_all}
use nil_service.Service.Peers.{Peer, replace, at, addresses}
use nil_service.Service.Peers.Delivery.{Differs, erase-Distinct}
use nil_service.Tcp.Connection.{Connection, Completion, new, run, complete}
use nil_service.Tcp.Connection.Disconnects.{disconnects-complete}
use nil_service.Tcp.Connection.Bounds.{complete-IsValid}
use nil_service.Tcp.Connection.Writing.{run-IsValid}
use nil_service.Tcp.Server.{
  Server, Task, ready, publish, publish_ex, send, disconnect, user, remote, on_signal, accepted,
  read, read_at, run_task, turn, poll, stop, restart, create, Event, run_events, drop_reads, posts,
  turns, polls, stops, restarts, accepts, reads, step, ready_task, publish_task, publish_ex_task,
  send_task, disconnect_task, turn_of, accept,
}
use nil_service.Tcp.Server.Invariant.{
  pending, Owes, IsSound, IsValid, IsRequest, FitsPeer, FitsEvent, FitsEvents,
}
use nil_service.Tcp.Server.Invariant.Counting.{
  pending-append, closed_at-append, closed_at-le, closed_at-erase, closed_at-replace,
  addresses-replace, Buffered-replace, Buffered-append, Buffered-erase, Buffered-at,
  Distinct-append, addresses-append, asked, pending-asked, on_signal-asked,
}

pub record Runs (s t : Server) (ts : List Task) : Type 0 where
  pub sound : IsSound t.buffer t.connections
  pub owed : Owes t.impl ts t.connections
  pub posted : t.posted ≡ s.posted

run_task-Runs :
    (e : Endian) (task : Task) (ts : List Task) (s : Server)
    → IsSound s.buffer s.connections
    → Owes s.impl (task ∷ ts) s.connections
    → Runs s (run_task e task s).0 ts
unfolding run_task ready_task publish_task publish_ex_task send_task disconnect_task
run_task-Runs e ready ts s v o = record { sound = v; owed = o; posted = refl }
run_task-Runs e (publish msg) ts s v o = record { sound = v; owed = o; posted = refl }
run_task-Runs e (publish_ex ids msg) ts s v o = record { sound = v; owed = o; posted = refl }
run_task-Runs e (send ids msg) ts s v o = record { sound = v; owed = o; posted = refl }
run_task-Runs e (user f) ts s v o = record { sound = v; owed = o; posted = refl }
run_task-Runs e (disconnect id) ts s v o = record {
  sound = record {
    representable = v.representable;
    distinct = erase-Distinct (remote s) id s.connections v.distinct;
    buffered = Buffered-erase s.buffer (remote s) id s.connections v.buffered;
  };
  owed = λ b. ground (
    arith,
    o b,
    closed_at-erase s.impl b id s.connections,
    closed_at-le b s.connections v.distinct,
  );
  posted = refl;
}

run_all-Runs :
    (e : Endian) (ts : List Task) (s : Server)
    → IsSound s.buffer s.connections
    → Owes s.impl ts s.connections
    → Runs s (run_all (run_task e) ts s).0 []
unfolding run_all
run_all-Runs e [] s v o = record { sound = v; owed = o; posted = refl }
run_all-Runs e (t ∷ ts) s v o =
    let one : Runs s (run_task e t s).0 ts = run_task-Runs e t ts s v o in
    let more : Runs (run_task e t s).0 (run_all (run_task e) ts (run_task e t s).0).0 [] =
      run_all-Runs e ts (run_task e t s).0 one.sound one.owed in
    record { sound = more.sound; owed = more.owed; posted = more.posted ∙ one.posted }

poll-IsValid : (e : Endian) (s : Server) → IsValid s → IsValid (poll e s).0
unfolding poll
poll-IsValid e s v =
    let all : Runs (record s { posted = [] })
        (run_all (run_task e) s.posted (record s { posted = [] })).0 [] =
      run_all-Runs e s.posted (record s { posted = [] }) v.sound v.owed in
    if_both (λ (r : Server × List Effect). IsValid r.0) s.stopped _ _ v
      (record { sound = all.sound; owed = λ b. rw (all.posted) (all.owed b) })

turn_of-IsValid :
    (e : Endian) (ts : List Task) (s : Server)
    → IsValid s
    → s.posted ≡ ts
    → IsValid (turn_of e ts s).0
unfolding turn_of
turn_of-IsValid e [] s v q = v
turn_of-IsValid e (t ∷ ts) s v q =
    let one : Runs (record s { posted = ts }) (run_task e t (record s { posted = ts })).0 ts =
      run_task-Runs e t ts (record s { posted = ts }) v.sound (λ b. rw q at (v.owed b)) in
    if_both (λ (r : Server × List Effect). IsValid r.0) s.stopped _ _ v
      (record { sound = one.sound; owed = λ b. rw (one.posted) (one.owed b) })

read_at-IsValid :
    (e : Endian) (a : ℕ) (result : Completion) (found : Option (Peer Connection)) (s : Server)
    → IsValid s
    → at a s.connections ≡ found
    → FitsPeer found result
    → IsValid (read_at e a result found s).0
unfolding read_at
read_at-IsValid e a result none s v q fits = v
read_at-IsValid e a result (some c) s v q fits =
    rw (on_signal-asked a (complete e result c.connection).1 moved) (record {
      sound = record {
        representable = v.sound.representable;
        distinct =
            rw (addresses-replace a (complete e result c.connection).0 s.connections)
              v.sound.distinct;
        buffered =
            Buffered-replace s.buffer a (complete e result c.connection).0 s.connections
              v.sound.buffered
              (complete-IsValid e s.buffer result c.connection
                (Buffered-at s.buffer a c s.connections v.sound.buffered q) fits);
      };
      owed = λ b. ground (
        arith,
        pending-append s.impl b s.posted (asked moved a (complete e result c.connection).1),
        pending-asked moved a b (complete e result c.connection).1,
        v.owed b,
        closed_at-replace a b c (complete e result c.connection).0 s.connections q,
        disconnects-complete e result c.connection fits,
      );
    })
  where
    moved : Server
    moved = record s { connections = replace a (complete e result c.connection).0 s.connections }

accepted-IsValid :
    (a : ℕ) (s : Server)
    → IsValid s
    → Differs a (addresses s.connections)
    → IsValid (accepted (some a) s).0
unfolding accepted accept run new on_signal run_all
accepted-IsValid a s v fresh = record {
  sound = record {
    representable = v.sound.representable;
    distinct =
        rw (addresses-append s.connections _)
          (Distinct-append a (addresses s.connections) v.sound.distinct fresh);
    buffered =
        Buffered-append s.buffer s.connections _ v.sound.buffered
          ((run-IsValid s.buffer v.sound.representable).0, tt);
  };
  owed = λ b. ground (
    arith,
    v.owed b,
    closed_at-append b s.connections
        (record { address = a; connection = (run (new s.buffer)).0 } ∷ []),
  );
}

request-pending : (impl b : ℕ) (task : Task) → IsRequest task → pending impl b (task ∷ []) ≡ 0
request-pending impl b ready h = absurd h
request-pending impl b (disconnect id) h = absurd h
request-pending impl b (publish msg) h = refl
request-pending impl b (publish_ex ids msg) h = refl
request-pending impl b (send ids msg) h = refl
request-pending impl b (user f) h = refl

-- Every event keeps the invariant.
pub step-IsValid :
    (e : Endian) (v : Event) (s : Server) → IsValid s → FitsEvent v s → IsValid (step e v s).0
unfolding drop_reads step turn read stop restart accepted accept
step-IsValid e (posts task) s v fits = record {
  sound = v.sound;
  owed = λ b. omega (
    arith,
    pending-append s.impl b s.posted (task ∷ []),
    request-pending s.impl b task fits,
    v.owed b,
  );
}
step-IsValid e turns s v fits = turn_of-IsValid e s.posted s v refl
step-IsValid e polls s v fits = poll-IsValid e s v
step-IsValid e stops s v fits = record { sound = v.sound; owed = v.owed }
step-IsValid e restarts s v fits = record {
  sound = record {
    representable = v.sound.representable;
    distinct = rw (fits, drop_reads) tt;
    buffered = rw (fits, drop_reads) tt;
  };
  owed = λ b. rw (fits, drop_reads) refl;
}
step-IsValid e (accepts none) s v fits = record { sound = v.sound; owed = v.owed }
step-IsValid e (accepts (some a)) s v fits = accepted-IsValid a s v fits
step-IsValid e (reads a result) s v fits =
    read_at-IsValid e a result (at a s.connections) s v refl fits

run_events-IsValid_from :
    (e : Endian) (vs : List Event) (s : Server)
    → IsValid s
    → FitsEvents e vs s
    → IsValid (run_all (step e) vs s).0
unfolding run_all
run_events-IsValid_from e [] s v fits = v
run_events-IsValid_from e (w ∷ vs) s v fits =
    run_events-IsValid_from e vs (step e w s).0 (step-IsValid e w s v fits.0) fits.1

-- After any run of a new server whose buffer size leaves room for a header in 64 bits, in which
-- the environment keeps to FitsEvents (a restart comes only while there is no connection), every
-- read lies inside its buffer, no two connections share an address, and for each address as many
-- tasks that disconnect it are posted as there are connections at it that have stopped reading.
pub run_events-IsValid :
    (e : Endian) (this impl buffer : ℕ) (vs : List Event)
    → buffer + 8 < u64_mod
    → FitsEvents e vs (create this impl buffer)
    → IsValid (run_events e vs (create this impl buffer)).0
unfolding run_events create accept
run_events-IsValid e this impl buffer vs h fits =
    run_events-IsValid_from e vs (create this impl buffer)
      (record {
        sound = record { representable = h; distinct = tt; buffered = tt };
        owed = λ b. refl;
      })
      fits
