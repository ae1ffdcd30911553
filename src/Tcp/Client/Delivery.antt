-- ===== src/Tcp/Client/Delivery.antt =====
-- src/src/tcp/client/create.cpp: what it hands to the user.
use nil_service.Common.{
  ℕ, ◌≤◌, ◌≡◌, refl, sym, ap, ap₂, ◌∙◌, Option, some, List, [], ◌∷◌, ◌++◌, flatten, length, Bytes,
  All,
}
use nil_service.Codec.{Endian}
use nil_service.Stream.{Signal, connected, disconnected, message, frames, deliveries}
use nil_service.Service.{Effect, invoke_connect, invoke_message, run_all}
use nil_service.Service.Peers.{Peer, remote_id}
use nil_service.Tcp.Hearing.{calls_for, calls_for-append}
use nil_service.Tcp.Connection.{Connection, received, complete, complete_all}
use nil_service.Tcp.Connection.Bounds.{IsValid, Fits}
use nil_service.Tcp.Connection.Refinement.{IsIdle, complete_all-frames}
use nil_service.Tcp.Client.{
  Client, to_string_remote, remote, post, disconnect, on_signal, read, read_at, Event, reads, step,
  run_events,
}

-- What reading leaves as it is.
abbrev Same : Client → Client → Type 0
Same s t = (t.handlers ≡ s.handlers) × (t.impl ≡ s.impl) × (t.connection ≡ s.connection)

on_signal-calls :
    (a : ℕ) (out : List Signal) (s : Client)
    → ((run_all (on_signal a) out s).1 ≡ calls_for s.handlers (remote s a) out)
      × Same s (run_all (on_signal a) out s).0
unfolding run_all on_signal
on_signal-calls a [] s = (refl, (refl, refl, refl))
on_signal-calls a (connected ∷ out) s = (
  ap (◌++◌ (invoke_connect s.handlers (remote s a))) (on_signal-calls a out s).0,
  (on_signal-calls a out s).1,
)
on_signal-calls a (message payload ∷ out) s = (
  ap (◌++◌ (invoke_message s.handlers (remote s a) payload)) (on_signal-calls a out s).0,
  (on_signal-calls a out s).1,
)
on_signal-calls a (disconnected ∷ out) s = on_signal-calls a out (post (disconnect a) s)

abbrev pub reading_events : List Bytes → List Event
reading_events [] = []
reading_events (chunk ∷ chunks) = reads (received chunk) ∷ reading_events chunks

-- What one read calls, and what it leaves.
abbrev Reads : Endian → Bytes → Peer Connection → Client → Client × List Effect → Type 0
Reads e chunk p s r =
    (r.1 ≡ calls_for s.handlers (remote s p.address) (complete e (received chunk) p.connection).1)
    × (r.0.handlers ≡ s.handlers)
    × (r.0.impl ≡ s.impl)
    × (r.0.connection
        ≡ some (record p { connection = (complete e (received chunk) p.connection).0 }))

read_at-calls :
    (e : Endian) (chunk : Bytes) (p : Peer Connection) (s : Client) (c : Option (Peer Connection))
    → c ≡ some p
    → Reads e chunk p s (read_at e (received chunk) c s)
unfolding read_at
read_at-calls e chunk p s c q = rw q (told.0, told.1.0, told.1.1, told.1.2)
  where
    moved : Client
    moved = record s {
      connection = some (record p { connection = (complete e (received chunk) p.connection).0 });
    }

    told :
        ((run_all (on_signal p.address) (complete e (received chunk) p.connection).1 moved).1
          ≡ calls_for s.handlers (remote s p.address) (complete e (received chunk) p.connection).1)
        × Same moved
            (run_all (on_signal p.address) (complete e (received chunk) p.connection).1 moved).0
    told = on_signal-calls p.address (complete e (received chunk) p.connection).1 moved

reading-calls :
    (e : Endian) (chunks : List Bytes) (p : Peer Connection) (s : Client)
    → s.connection ≡ some p
    → (run_all (step e) (reading_events chunks) s).1
      ≡ calls_for s.handlers (remote s p.address) (complete_all e chunks p.connection).1
unfolding run_all step complete_all read
reading-calls e [] p s q = refl
reading-calls e (chunk ∷ chunks) p s q =
    let one : Reads e chunk p s (read e (received chunk) s) =
      read_at-calls e chunk p s s.connection q in
    ap₂ ◌++◌ one.0 (
      reading-calls e chunks
        (record p { connection = (complete e (received chunk) p.connection).0 })
        (read e (received chunk) s).0 one.3
      ∙ ap₂
          (λ hs i.
            calls_for hs (remote_id i to_string_remote p.address)
              (complete_all e chunks (complete e (received chunk) p.connection).0).1)
          one.1 one.2)
    ∙ sym (
        calls_for-append s.handlers (remote s p.address)
          (complete e (received chunk) p.connection).1
          (complete_all e chunks (complete e (received chunk) p.connection).0).1)

-- Framed messages of at most `buffer` bytes that the server sends to a client with a valid idle
-- connection are handed to every message handler, in order and uncut, with the identity of the
-- server, however the reads that fit cut the stream; empty messages are not.
pub reading-frames :
    (e : Endian) (chunks ms : List Bytes) (p : Peer Connection) (s : Client)
    → s.connection ≡ some p
    → IsValid s.buffer p.connection
    → IsIdle p.connection
    → Fits e chunks p.connection
    → All (λ m. length m ≤ s.buffer) ms
    → flatten chunks ≡ frames ms
    → (run_events e (reading_events chunks) s).1
      ≡ calls_for s.handlers (remote s p.address) (deliveries ms)
unfolding run_events
reading-frames e chunks ms p s q v idle fits small same =
    reading-calls e chunks p s q
    ∙ ap (calls_for s.handlers (remote s p.address))
        (complete_all-frames e s.buffer chunks ms p.connection v idle fits small same).1
