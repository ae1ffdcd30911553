-- ===== src/Tcp/Exchange/ToServer.antt =====
-- What a client of src/src/tcp sends reaches the server.
use nil_service.Common.{
  ℕ, ==-self, ◌≤◌, ◌≡◌, refl, ap, ap₂, ◌∙◌, true, false, Option, none, some, List, [], ◌∷◌, ◌++◌,
  if◌then◌else◌, ◌==◌, append-nil, flatten, length, Bytes, All, Bool-cases, if-false, inl, inr,
}
use nil_service.Codec.{Endian}
use nil_service.Stream.{frame, frames, deliveries}
use nil_service.Service.{ServiceId, contains_id, on_disconnect, Effect, invoke_disconnect, run_all}
use nil_service.Service.Peers.{Peer, at}
use nil_service.Tcp.Connection.Bounds.{IsValid, Fits}
use nil_service.Tcp.Connection.{Connection}
use nil_service.Tcp.Connection.Refinement.{IsIdle}
use nil_service.Tcp.Client
use nil_service.Tcp.Client.{Task, publish, publish_ex, send, disconnect, user}
use nil_service.Tcp.Server
use nil_service.Tcp.Hearing.{calls_for}
use nil_service.Tcp.Server.Delivery.{reading_events, reading-frames}
use nil_service.Tcp.Exchange.{stream_to, stream_to-append, stream_to-invoke, offered-frame}

-- The payloads that tasks mean for the connection of a client at an address, up to a task that
-- disconnects it.
abbrev pub meant : ServiceId → ℕ → List Task → List Bytes
meant id a [] = []
meant id a (publish msg ∷ tasks) = msg ∷ meant id a tasks
meant id a (publish_ex ids msg ∷ tasks) =
    if contains_id ids id then meant id a tasks else msg ∷ meant id a tasks
meant id a (send ids msg ∷ tasks) =
    if contains_id ids id then msg ∷ meant id a tasks else meant id a tasks
meant id a (disconnect target ∷ tasks) = if a == target then [] else meant id a tasks
meant id a (user f ∷ tasks) = meant id a tasks

-- A client without a connection writes nothing, and no task gives it one.
unconnected-silent :
    (e : Endian) (a : ℕ) (task : Task) (s : Client.Client)
    → s.connection ≡ none
    → (stream_to a (Client.run_task e task s).1 ≡ [])
      × ((Client.run_task e task s).0.connection ≡ none)
unfolding Client.run_task Client.disconnect_at Client.reconnect Client.write_if_connected
    Client.has_remote_id
unconnected-silent e a (publish msg) s q = (rw q refl, q)
unconnected-silent e a (publish_ex ids msg) s q = (rw q refl, q)
unconnected-silent e a (send ids msg) s q = (rw q refl, q)
unconnected-silent e a (disconnect target) s q = (rw q refl, rw q refl)
unconnected-silent e a (user f) s q = (refl, q)

all_unconnected-silent :
    (e : Endian) (a : ℕ) (tasks : List Task) (s : Client.Client)
    → s.connection ≡ none
    → stream_to a (run_all (Client.run_task e) tasks s).1 ≡ []
unfolding run_all
all_unconnected-silent e a [] s q = refl
all_unconnected-silent e a (task ∷ tasks) s q =
    let one : (stream_to a (Client.run_task e task s).1 ≡ [])
        × ((Client.run_task e task s).0.connection ≡ none) =
      unconnected-silent e a task s q in
    stream_to-append a (Client.run_task e task s).1
      (run_all (Client.run_task e) tasks (Client.run_task e task s).0).1
    ∙ ap₂ ◌++◌ one.0 (all_unconnected-silent e a tasks (Client.run_task e task s).0 one.1)

write_if_connected-frame :
    (e : Endian) (msg : Bytes) (p : Peer Connection) (c : Option (Peer Connection))
    → c ≡ some p
    → stream_to p.address (Client.write_if_connected e msg c) ≡ frame msg
unfolding Client.write_if_connected
write_if_connected-frame e msg p c q =
    rw (q, ==-self p.address, append-nil, offered-frame e msg) refl

has_remote_id-contains_id :
    (ids : List ServiceId) (p : Peer Connection) (s : Client.Client)
    → s.connection ≡ some p
    → Client.has_remote_id s.connection ids (Client.remote s)
      ≡ contains_id ids (Client.remote s p.address)
unfolding Client.has_remote_id
has_remote_id-contains_id ids p s q = rw q refl

-- What a task that writes a message puts in front of the rest.
written-frame :
    (e : Endian) (msg : Bytes) (p : Peer Connection) (s : Client.Client) (out : List Effect)
    (ms : List Bytes)
    → s.connection ≡ some p
    → stream_to p.address out ≡ frames ms
    → stream_to p.address (Client.write_if_connected e msg s.connection ++ out) ≡ frames (msg ∷ ms)
written-frame e msg p s out ms q same =
    stream_to-append p.address (Client.write_if_connected e msg s.connection) out
    ∙ ap₂ ◌++◌ (write_if_connected-frame e msg p s.connection q) same

disconnect_at-same :
    (target : ℕ) (p : Peer Connection) (s : Client.Client) (c : Option (Peer Connection))
    → c ≡ some p
    → (p.address == target) ≡ true
    → Client.disconnect_at target c s ≡ (
      Client.reconnect (record s { connection = none }),
      invoke_disconnect s.handlers (Client.remote s p.address),
    )
unfolding Client.disconnect_at
disconnect_at-same target p s c q h = rw (q, h) refl

disconnect_at-other :
    (target : ℕ) (p : Peer Connection) (s : Client.Client) (c : Option (Peer Connection))
    → c ≡ some p
    → (p.address == target) ≡ false
    → Client.disconnect_at target c s ≡ (Client.reconnect s, [])
unfolding Client.disconnect_at
disconnect_at-other target p s c q h = rw (q, h) refl

-- What the tasks of a client put on the stream to its connection.
run_all-frames :
    (e : Endian) (tasks : List Task) (p : Peer Connection) (s : Client.Client)
    → s.connection ≡ some p
    → stream_to p.address (run_all (Client.run_task e) tasks s).1
      ≡ frames (meant (Client.remote s p.address) p.address tasks)
unfolding run_all Client.run_task Client.reconnect
run_all-frames e [] p s q = refl
run_all-frames e (publish msg ∷ tasks) p s q =
    written-frame e msg p s (run_all (Client.run_task e) tasks s).1
      (meant (Client.remote s p.address) p.address tasks) q (run_all-frames e tasks p s q)
run_all-frames e (publish_ex ids msg ∷ tasks) p s q =
    elim (Bool-cases (contains_id ids (Client.remote s p.address))) [
      | inl h ↦ rw (has_remote_id-contains_id ids p s q, h) (run_all-frames e tasks p s q)
      | inr h ↦
          rw (has_remote_id-contains_id ids p s q, h)
            (written-frame e msg p s (run_all (Client.run_task e) tasks s).1
              (meant (Client.remote s p.address) p.address tasks) q (run_all-frames e tasks p s q))
    ]
run_all-frames e (send ids msg ∷ tasks) p s q =
    elim (Bool-cases (contains_id ids (Client.remote s p.address))) [
      | inl h ↦
          rw (has_remote_id-contains_id ids p s q, h)
            (written-frame e msg p s (run_all (Client.run_task e) tasks s).1
              (meant (Client.remote s p.address) p.address tasks) q (run_all-frames e tasks p s q))
      | inr h ↦ rw (has_remote_id-contains_id ids p s q, h) (run_all-frames e tasks p s q)
    ]
run_all-frames e (disconnect target ∷ tasks) p s q = elim (Bool-cases (p.address == target)) [
  | inl h ↦
      rw (disconnect_at-same target p s s.connection q h, h)
        (stream_to-append p.address (invoke_disconnect s.handlers (Client.remote s p.address))
            (run_all (Client.run_task e) tasks
              (Client.reconnect (record s { connection = none }))).1
          ∙ ap₂ ◌++◌
              (stream_to-invoke p.address (λ cb. on_disconnect cb (Client.remote s p.address))
                s.handlers.on_disconnect_cb)
              (all_unconnected-silent e p.address tasks
                (Client.reconnect (record s { connection = none })) refl))
  | inr h ↦
      rw (disconnect_at-other target p s s.connection q h, h)
        (run_all-frames e tasks p (Client.reconnect s) q)
]
run_all-frames e (user f ∷ tasks) p s q = run_all-frames e tasks p s q

-- Let a client that is not stopped be connected, and let it be at the other end of a valid idle
-- connection of a server whose buffer size none of the payloads exceeds that its posted tasks mean
-- for the server: those of `publish`, of `publish_ex` unless the server is named, and of `send` if
-- it is, up to a task that disconnects it. If its socket takes what a poll writes whole, and the
-- reads that fit cut this in any way, each message handler of the server is called for each of
-- these payloads that is not empty, in order and uncut, with the identity of the connection, and
-- the reads call nothing else.
pub reading-poll :
    (e e' : Endian) (s : Client.Client) (p : Peer Connection) (t : Server.Server)
    (c : Peer Connection) (a : ℕ) (chunks : List Bytes)
    → s.stopped ≡ false
    → s.connection ≡ some p
    → at a t.connections ≡ some c
    → IsValid t.buffer c.connection
    → IsIdle c.connection
    → All (λ m. length m ≤ t.buffer) (meant (Client.remote s p.address) p.address s.posted)
    → Fits e' chunks c.connection
    → flatten chunks ≡ stream_to p.address (Client.poll e s).1
    → (Server.run_events e' (reading_events a chunks) t).1
      ≡ calls_for t.handlers
          (Server.remote t a)
          (deliveries (meant (Client.remote s p.address) p.address s.posted))
unfolding Client.poll
reading-poll e e' s p t c a chunks on q r v idle small fits same =
    reading-frames e' a chunks (meant (Client.remote s p.address) p.address s.posted) c t r v idle
      fits small
      (same
        ∙ ap (λ (r : Client.Client × List Effect). stream_to p.address r.1)
            (if-false s.stopped _ _ on)
        ∙ run_all-frames e s.posted p (record s { posted = [] }) q)
