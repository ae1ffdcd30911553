-- ===== src/Tcp/Server/Delivery.antt =====
-- src/src/tcp/server/create.cpp: what it writes to its connections and hands to the user.
use nil_service.Common.{
  ℕ, ◌≤◌, ◌≡◌, refl, sym, ap, ap₂, ◌∙◌, some, List, [], ◌∷◌, ◌++◌, if◌then◌else◌, flatten, length,
  Bytes, All,
}
use nil_service.Codec.{Endian}
use nil_service.Stream.{Signal, connected, disconnected, message, frames, deliveries}
use nil_service.Service.{ServiceId, contains_id, invoke_connect, invoke_message, run_all}
use nil_service.Service.Peers.{addresses, Peer, remote_id, at, replace, addresses}
use nil_service.Service.Peers.Delivery.{
  Distinct, writes_of, times, occurs-at, writes_of-write_each, writes_of-write_except,
  writes_of-write_to, at-replace,
}
use nil_service.Tcp.Hearing.{calls_for, calls_for-append}
use nil_service.Tcp.Connection.Bounds
use nil_service.Tcp.Connection.{Connection, received, complete, complete_all, offered}
use nil_service.Tcp.Connection.Refinement.{IsIdle, complete_all-frames}
use nil_service.Tcp.Connection.Bounds.{Fits}
use nil_service.Tcp.Server.{
  Server, publish, publish_ex, send, disconnect, to_string_remote, remote, post, on_signal, read,
  read_at, run_task, Event, reads, step, run_events, publish_task, publish_ex_task, send_task,
}
use nil_service.Tcp.Server.Invariant.{IsValid}

-- If no two connections of a server have one address, the task of `publish` writes once to the
-- address of each connection, that of `publish_ex` once unless its identity is named, and that of
-- `send` as often as its identity is named.
pub writes_of-run_task :
    (e : Endian) (s : Server) (b : ℕ) (c : Peer Connection) (ids : List ServiceId) (msg : Bytes)
    → Distinct (addresses s.connections)
    → at b s.connections ≡ some c
    → (writes_of b (run_task e (publish msg) s).1 ≡ 1)
      × (writes_of b (run_task e (publish_ex ids msg) s).1
          ≡ (if contains_id ids (remote s b) then 0 else 1))
      × (writes_of b (run_task e (send ids msg) s).1 ≡ times (remote s b) ids)
unfolding run_task publish_task publish_ex_task send_task
writes_of-run_task e s b c ids msg v q = (
  writes_of-write_each s.impl to_string_remote (offered e msg) b s.connections
      ∙ occurs-at b c s.connections v q,
  writes_of-write_except s.impl to_string_remote (offered e msg) b ids s.connections
      ∙ ap (λ (n : ℕ). if contains_id ids (remote s b) then 0 else n)
          (occurs-at b c s.connections v q),
  writes_of-write_to s.impl to_string_remote (offered e msg) b ids s.connections ∙ rw q,
)

-- What reading leaves as it is.
abbrev Same : Server → Server → Type 0
Same s t = (t.handlers ≡ s.handlers) × (t.impl ≡ s.impl) × (t.connections ≡ s.connections)

on_signal-calls :
    (a : ℕ) (out : List Signal) (s : Server)
    → ((run_all (on_signal a) out s).1 ≡ calls_for s.handlers (remote s a) out)
      × Same s (run_all (on_signal a) out s).0
unfolding run_all on_signal
on_signal-calls a [] s = (refl, (refl, refl, refl))
on_signal-calls a (connected ∷ out) s = (
  ap (◌++◌ (invoke_connect s.handlers (remote s a))) (on_signal-calls a out s).0,
  (on_signal-calls a out s).1,
)
on_signal-calls a (message payload ∷ out) s = (
  ap (◌++◌ (invoke_message s.handlers (remote s a) payload)) (on_signal-calls a out s).0,
  (on_signal-calls a out s).1,
)
on_signal-calls a (disconnected ∷ out) s = on_signal-calls a out (post (disconnect (remote s a)) s)

abbrev pub reading_events : ℕ → List Bytes → List Event
reading_events a [] = []
reading_events a (chunk ∷ chunks) = reads a (received chunk) ∷ reading_events a chunks

read-calls :
    (e : Endian) (a : ℕ) (chunk : Bytes) (c : Peer Connection) (s : Server)
    → at a s.connections ≡ some c
    → ((read e a (received chunk) s).1
        ≡ calls_for s.handlers (remote s a) (complete e (received chunk) c.connection).1)
      × ((read e a (received chunk) s).0.handlers ≡ s.handlers)
      × ((read e a (received chunk) s).0.impl ≡ s.impl)
      × (at a (read e a (received chunk) s).0.connections
          ≡ some (record c { connection = (complete e (received chunk) c.connection).0 }))
unfolding read read_at
read-calls e a chunk c s q = rw q (
  told.0,
  told.1.0,
  told.1.1,
  rw (told.1.2) (at-replace a c (complete e (received chunk) c.connection).0 s.connections q),
)
  where
    moved : Server
    moved = record s {
      connections = replace a (complete e (received chunk) c.connection).0 s.connections;
    }

    told :
        ((run_all (on_signal a) (complete e (received chunk) c.connection).1 moved).1
          ≡ calls_for s.handlers (remote s a) (complete e (received chunk) c.connection).1)
        × Same moved (run_all (on_signal a) (complete e (received chunk) c.connection).1 moved).0
    told = on_signal-calls a (complete e (received chunk) c.connection).1 moved

reading-calls :
    (e : Endian) (a : ℕ) (chunks : List Bytes) (c : Peer Connection) (s : Server)
    → at a s.connections ≡ some c
    → (run_all (step e) (reading_events a chunks) s).1
      ≡ calls_for s.handlers (remote s a) (complete_all e chunks c.connection).1
unfolding run_all step complete_all
reading-calls e a [] c s q = refl
reading-calls e a (chunk ∷ chunks) c s q =
    let one : ((read e a (received chunk) s).1
          ≡ calls_for s.handlers (remote s a) (complete e (received chunk) c.connection).1)
        × ((read e a (received chunk) s).0.handlers ≡ s.handlers)
        × ((read e a (received chunk) s).0.impl ≡ s.impl)
        × (at a (read e a (received chunk) s).0.connections
            ≡ some (record c { connection = (complete e (received chunk) c.connection).0 })) =
      read-calls e a chunk c s q in
    ap₂ ◌++◌ one.0 (
      reading-calls e a chunks
        (record c { connection = (complete e (received chunk) c.connection).0 })
        (read e a (received chunk) s).0 one.3
      ∙ ap₂
          (λ hs i.
            calls_for hs (remote_id i to_string_remote a)
              (complete_all e chunks (complete e (received chunk) c.connection).0).1)
          one.1 one.2)
    ∙ sym (
        calls_for-append s.handlers (remote s a) (complete e (received chunk) c.connection).1
          (complete_all e chunks (complete e (received chunk) c.connection).0).1)

-- Framed messages of at most `buffer` bytes that the peer of a valid idle connection sends are
-- handed to every message handler, in order and uncut, with the identity of the connection,
-- however the reads that fit cut the stream; empty messages are not.
pub reading-frames :
    (e : Endian) (a : ℕ) (chunks ms : List Bytes) (c : Peer Connection) (s : Server)
    → at a s.connections ≡ some c
    → Bounds.IsValid s.buffer c.connection
    → IsIdle c.connection
    → Fits e chunks c.connection
    → All (λ m. length m ≤ s.buffer) ms
    → flatten chunks ≡ frames ms
    → (run_events e (reading_events a chunks) s).1
      ≡ calls_for s.handlers (remote s a) (deliveries ms)
unfolding run_events
reading-frames e a chunks ms c s q v idle fits small same =
    reading-calls e a chunks c s q
    ∙ ap (calls_for s.handlers (remote s a))
        (complete_all-frames e s.buffer chunks ms c.connection v idle fits small same).1
