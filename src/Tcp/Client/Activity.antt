-- ===== src/Tcp/Client/Activity.antt =====
-- src/src/tcp/client/create.cpp: what the client is waiting for.
use nil_service.Common.{
  ℕ, suc, ◌+◌, ◌≤◌, ◌<◌, ◌≡◌, refl, sym, ap, ◌∙◌, Bool, true, false, Option, none, some, List, [],
  ◌∷◌, ◌++◌, if◌then◌else◌, arith, append_assoc, append-nil,
}
use nil_service.Codec.{Endian}
use nil_service.Stream.{Signal, connected, disconnected, message}
use nil_service.Service.{Effect, run_all}
use nil_service.Service.Peers.{Peer}
use nil_service.Tcp.Connection.{Connection, Completion, new, run, complete}
use nil_service.Tcp.Connection.Disconnects.{disconnects, disconnects-complete}
use nil_service.Tcp.Client.{
  Client, Task, publish, publish_ex, send, disconnect, user, post, connect, reconnect, create, turn,
  stop, restart, drop_read, on_signal, connected_to, expired, read_at, read, Event, posts, turns,
  polls, stops, restarts, expires, connects, reads, step, run_events,
}
use nil_service.Tcp.Client.Waiting.{
  Aimed, present, closing, pending, AllAimed, IsValid, IsRequest, FitsPeer, FitsEvent,
  AllAimed-none, poll-IsValid, turn_of-IsValid,
}

pending-append : (xs ys : List Task) → pending (xs ++ ys) ≡ pending xs + pending ys
pending-append [] ys = omega arith
pending-append (disconnect target ∷ xs) ys = omega (arith, pending-append xs ys)
pending-append (publish msg ∷ xs) ys = pending-append xs ys
pending-append (publish_ex ids msg ∷ xs) ys = pending-append xs ys
pending-append (send ids msg ∷ xs) ys = pending-append xs ys
pending-append (user f ∷ xs) ys = pending-append xs ys

AllAimed-append :
    (c : Option (Peer Connection)) (xs ys : List Task)
    → AllAimed c xs
    → AllAimed c ys
    → AllAimed c (xs ++ ys)
AllAimed-append c [] ys h k = k
AllAimed-append c (t ∷ xs) ys h k = (h.0, AllAimed-append c xs ys h.1 k)

-- The tasks that the signals of a connection post.
abbrev asked : ℕ → List Signal → List Task
asked a [] = []
asked a (disconnected ∷ out) = disconnect a ∷ asked a out
asked a (connected ∷ out) = asked a out
asked a (message payload ∷ out) = asked a out

pending-asked : (a : ℕ) (out : List Signal) → pending (asked a out) ≡ disconnects out
pending-asked a [] = refl
pending-asked a (disconnected ∷ out) = ap suc (pending-asked a out)
pending-asked a (connected ∷ out) = pending-asked a out
pending-asked a (message payload ∷ out) = pending-asked a out

asked-aimed : (c : Peer Connection) (out : List Signal) → AllAimed (some c) (asked c.address out)
asked-aimed c [] = tt
asked-aimed c (disconnected ∷ out) = (refl, asked-aimed c out)
asked-aimed c (connected ∷ out) = asked-aimed c out
asked-aimed c (message payload ∷ out) = asked-aimed c out

on_signal-asked :
    (a : ℕ) (out : List Signal) (s : Client)
    → (run_all (on_signal a) out s).0 ≡ record s { posted = s.posted ++ asked a out }
unfolding run_all on_signal
on_signal-asked a [] s = ap (λ ts. record s { posted = ts }) (sym (append-nil s.posted))
on_signal-asked a (connected ∷ out) s = on_signal-asked a out s
on_signal-asked a (message payload ∷ out) s = on_signal-asked a out s
on_signal-asked a (disconnected ∷ out) s =
    on_signal-asked a out (post (disconnect a) s)
    ∙ ap (λ ts. record s { posted = ts }) (append_assoc s.posted (disconnect a ∷ []) (asked a out))

AllAimed-moved :
    (c : Peer Connection) (c' : Connection) (ts : List Task)
    → AllAimed (some c) ts
    → AllAimed (some (record c { connection = c' })) ts
AllAimed-moved c c' [] h = tt
AllAimed-moved c c' (disconnect target ∷ ts) h = (h.0, AllAimed-moved c c' ts h.1)
AllAimed-moved c c' (publish msg ∷ ts) h = (tt, AllAimed-moved c c' ts h.1)
AllAimed-moved c c' (publish_ex ids msg ∷ ts) h = (tt, AllAimed-moved c c' ts h.1)
AllAimed-moved c c' (send ids msg ∷ ts) h = (tt, AllAimed-moved c c' ts h.1)
AllAimed-moved c c' (user f ∷ ts) h = (tt, AllAimed-moved c c' ts h.1)

read_at-IsValid :
    (e : Endian) (result : Completion) (found : Option (Peer Connection)) (s : Client)
    → IsValid s
    → s.connection ≡ found
    → FitsPeer found result
    → IsValid (read_at e result found s).0
unfolding read_at
read_at-IsValid e result none s v q fits = v
read_at-IsValid e result (some c) s v q fits =
    rw
      (on_signal-asked c.address (complete e result c.connection).1 (record s {
        connection = some (record c { connection = (complete e result c.connection).0 });
      }))
      (record {
        one = rw q at (v.one);
        owed = omega (
          arith,
          pending-append s.posted (asked c.address (complete e result c.connection).1),
          pending-asked c.address (complete e result c.connection).1,
          v.owed,
          ap closing q,
          disconnects-complete e result c.connection fits,
        );
        aimed =
            AllAimed-append (some (record c { connection = (complete e result c.connection).0 }))
              s.posted _
              (AllAimed-moved c (complete e result c.connection).0 s.posted (rw q at (v.aimed)))
              (asked-aimed (record c { connection = (complete e result c.connection).0 })
                (complete e result c.connection).1);
      })

request-pending :
    (c : Option (Peer Connection)) (t : Task) → IsRequest t → (pending (t ∷ []) ≡ 0) × Aimed c t
request-pending c (disconnect target) h = absurd h
request-pending none (publish msg) h = (refl, tt)
request-pending (some c) (publish msg) h = (refl, tt)
request-pending none (publish_ex ids msg) h = (refl, tt)
request-pending (some c) (publish_ex ids msg) h = (refl, tt)
request-pending none (send ids msg) h = (refl, tt)
request-pending (some c) (send ids msg) h = (refl, tt)
request-pending none (user f) h = (refl, tt)
request-pending (some c) (user f) h = (refl, tt)

unasked-aimed : (c : Option (Peer Connection)) (ts : List Task) → pending ts ≡ 0 → AllAimed c ts
unasked-aimed none ts h = AllAimed-none ts
unasked-aimed (some c) [] h = tt
unasked-aimed (some c) (disconnect target ∷ ts) h = absurd (omega arith)
unasked-aimed (some c) (publish msg ∷ ts) h = (tt, unasked-aimed (some c) ts h)
unasked-aimed (some c) (publish_ex ids msg ∷ ts) h = (tt, unasked-aimed (some c) ts h)
unasked-aimed (some c) (send ids msg ∷ ts) h = (tt, unasked-aimed (some c) ts h)
unasked-aimed (some c) (user f ∷ ts) h = (tt, unasked-aimed (some c) ts h)

closing-le : (c : Option (Peer Connection)) → closing c ≤ present c
closing-le none = omega arith
closing-le (some c) = ground arith

expired-IsValid :
    (w : Bool) (s : Client)
    → s.waiting ≡ w
    → IsValid s
    → let r : Client × List Effect =
        if w then (connect (record s { waiting = false }), []) else (s, []) in
      IsValid r.0
unfolding connect
expired-IsValid false s q v = v
expired-IsValid true s q v = record { one = ground (arith, v.one); owed = v.owed; aimed = v.aimed }

connected_to-IsValid :
    (a : ℕ) (s : Client) → IsValid s → 0 < s.connecting → IsValid (connected_to (some a) s).0
unfolding connected_to run new run_all on_signal
connected_to-IsValid a s v h = record {
  one = ground (arith, v.one);
  owed = omega (arith, unasked);
  aimed = unasked-aimed (connected_to (some a) s).0.connection s.posted unasked;
}
  where
    unasked : pending s.posted ≡ 0
    unasked = omega (arith, v.owed, closing-le s.connection, v.one)

-- Every event keeps it so.
pub step-IsValid :
    (e : Endian) (v : Event) (s : Client) → IsValid s → FitsEvent v s → IsValid (step e v s).0
unfolding step turn read stop restart connected_to expired connect reconnect
step-IsValid e (posts t) s v fits = record {
  one = v.one;
  owed =
      omega
        (arith, pending-append s.posted (t ∷ []), (request-pending s.connection t fits).0, v.owed);
  aimed =
      AllAimed-append s.connection s.posted (t ∷ []) v.aimed
        ((request-pending s.connection t fits).1, tt);
}
step-IsValid e turns s v fits = turn_of-IsValid e s.posted s v refl
step-IsValid e polls s v fits = poll-IsValid e s v
step-IsValid e stops s v fits = record { one = v.one; owed = v.owed; aimed = v.aimed }
step-IsValid e restarts s v fits =
    rw (fits, drop_read) (record { one = refl; owed = refl; aimed = tt })
step-IsValid e expires s v fits = expired-IsValid s.waiting s refl v
step-IsValid e (connects none) s v fits = record {
  one = ground (arith, v.one);
  owed = v.owed;
  aimed = v.aimed;
}
step-IsValid e (connects (some a)) s v fits = connected_to-IsValid a s v fits
step-IsValid e (reads result) s v fits = read_at-IsValid e result s.connection s v refl fits

abbrev pub FitsEvents : Endian → List Event → Client → Type 0
FitsEvents e [] s = Unit
FitsEvents e (v ∷ vs) s = FitsEvent v s × FitsEvents e vs (step e v s).0

run_events-IsBusy_from :
    (e : Endian) (vs : List Event) (s : Client)
    → IsValid s
    → FitsEvents e vs s
    → IsValid (run_all (step e) vs s).0
unfolding run_all
run_events-IsBusy_from e [] s v fits = v
run_events-IsBusy_from e (w ∷ vs) s v fits =
    run_events-IsBusy_from e vs (step e w s).0 (step-IsValid e w s v fits.0) fits.1

-- After any run of a new client in which the environment keeps to FitsEvents (a restart comes only
-- while there is no connection), exactly one of these is there: an outstanding attempt to connect,
-- a set timer, a connection. A task that disconnects is posted exactly if the connection has
-- stopped reading, and it names that connection.
pub run_events-IsBusy :
    (e : Endian) (this impl buffer : ℕ) (vs : List Event)
    → FitsEvents e vs (create this impl buffer)
    → IsValid (run_events e vs (create this impl buffer)).0
unfolding run_events create connect
run_events-IsBusy e this impl buffer vs fits =
    run_events-IsBusy_from e vs (create this impl buffer)
      (record { one = refl; owed = refl; aimed = tt }) fits
