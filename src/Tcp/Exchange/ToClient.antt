-- ===== src/Tcp/Exchange/ToClient.antt =====
-- What a server of src/src/tcp sends reaches a client.
use nil_service.Common.{
  ℕ, ◌≡◌, refl, ap, ap₂, ◌∙◌, false, none, some, List, [], ◌∷◌, ◌++◌, if◌then◌else◌, arith,
  append-nil, flatten, length, Bytes, All, Bool-cases, ◌≤◌, if-false, inl, inr,
}
use nil_service.Codec.{Endian}
use nil_service.Service.{
  ServiceId, Handlers, same_id, contains_id, Effect, on_ready, on_disconnect, invoke_disconnect,
  invoke_ready, run_all,
}
use nil_service.Service.Peers.{Peer, write_each, write_except, write_to, at, addresses}
use nil_service.Service.Peers.Delivery.{
  Distinct, times, writes_of-write_each, writes_of-write_except, writes_of-write_to, erase-Distinct,
}
use nil_service.Stream.{frames, deliveries}
use nil_service.Tcp.Connection.{Connection, offered}
use nil_service.Tcp.Hearing.{calls_for}
use nil_service.Tcp.Connection.Bounds.{IsValid, Fits}
use nil_service.Tcp.Connection.Refinement.{IsIdle}
use nil_service.Tcp.Client
use nil_service.Tcp.Client.Delivery.{reading_events, reading-frames}
use nil_service.Tcp.Server
use nil_service.Tcp.Server.Delivery.{writes_of-run_task}
use nil_service.Tcp.Server.{Task, ready, publish, publish_ex, send, disconnect, user}
use nil_service.Tcp.Exchange.{stream_to, stream_to-append, stream_to-invoke}
use nil_service.Tcp.Exchange.Written.{
  copies, write_each-Sends, write_except-Sends, write_to-Sends, written-frames, at-erase_other,
  at-erase_same, none-written, occurs-none, at-erase_absent,
}

-- The payloads that tasks of a server mean for the connection with an identity, up to a task that
-- disconnects it.
abbrev pub meant : ServiceId → List Task → List Bytes
meant id [] = []
meant id (ready ∷ tasks) = meant id tasks
meant id (publish msg ∷ tasks) = msg ∷ meant id tasks
meant id (publish_ex ids msg ∷ tasks) =
    copies (if contains_id ids id then 0 else 1) msg ++ meant id tasks
meant id (send ids msg ∷ tasks) = copies (times id ids) msg ++ meant id tasks
meant id (disconnect target ∷ tasks) = if same_id id target then [] else meant id tasks
meant id (user f ∷ tasks) = meant id tasks

disconnect-silent :
    (b : ℕ) (id : ServiceId) (hs : Handlers) → stream_to b (invoke_disconnect hs id ++ []) ≡ []
disconnect-silent b id hs =
    rw append-nil (stream_to-invoke b (λ cb. on_disconnect cb id) hs.on_disconnect_cb)

-- A task of a server that has no connection at an address writes nothing there, and gives it none.
unconnected-silent :
    (e : Endian) (b : ℕ) (task : Task) (s : Server.Server)
    → at b s.connections ≡ none
    → (stream_to b (Server.run_task e task s).1 ≡ [])
      × (at b (Server.run_task e task s).0.connections ≡ none)
unfolding Server.run_task Server.publish_task Server.publish_ex_task Server.send_task
    Server.ready_task Server.disconnect_task
unconnected-silent e b ready s q =
    (stream_to-invoke b (λ cb. on_ready cb (Server.local_id s)) s.handlers.on_ready_cb, q)
unconnected-silent e b (publish msg) s q = (
  none-written b (offered e msg)
      (write_each (Server.remote s) (Server.write_payload e msg) s.connections)
      (write_each-Sends (Server.remote s) (offered e msg) s.connections)
      (writes_of-write_each s.impl Server.to_string_remote (offered e msg) b s.connections
        ∙ occurs-none b s.connections q),
  q,
)
unconnected-silent e b (publish_ex ids msg) s q = (
  none-written b (offered e msg)
      (write_except (Server.remote s) (Server.write_payload e msg) ids s.connections)
      (write_except-Sends (Server.remote s) (offered e msg) ids s.connections)
      (writes_of-write_except s.impl Server.to_string_remote (offered e msg) b ids s.connections
        ∙ rw (occurs-none b s.connections q) (ground arith)),
  q,
)
unconnected-silent e b (send ids msg) s q = (
  none-written b (offered e msg)
      (write_to (Server.remote s) (Server.write_payload e msg) ids s.connections)
      (write_to-Sends (Server.remote s) (offered e msg) ids s.connections)
      (writes_of-write_to s.impl Server.to_string_remote (offered e msg) b ids s.connections
        ∙ rw q refl),
  q,
)
unconnected-silent e b (disconnect id) s q =
    (disconnect-silent b id s.handlers, at-erase_absent (Server.remote s) id b s.connections q)
unconnected-silent e b (user f) s q = (refl, q)

all_unconnected-silent :
    (e : Endian) (b : ℕ) (tasks : List Task) (s : Server.Server)
    → at b s.connections ≡ none
    → stream_to b (run_all (Server.run_task e) tasks s).1 ≡ []
unfolding run_all
all_unconnected-silent e b [] s q = refl
all_unconnected-silent e b (task ∷ tasks) s q =
    let one : (stream_to b (Server.run_task e task s).1 ≡ [])
        × (at b (Server.run_task e task s).0.connections ≡ none) =
      unconnected-silent e b task s q in
    stream_to-append b (Server.run_task e task s).1
      (run_all (Server.run_task e) tasks (Server.run_task e task s).0).1
    ∙ ap₂ ◌++◌ one.0 (all_unconnected-silent e b tasks (Server.run_task e task s).0 one.1)

-- What the tasks of a server put on the stream to one of its connections.
run_all-frames :
    (e : Endian) (b : ℕ) (c : Peer Connection) (tasks : List Task) (s : Server.Server)
    → Distinct (addresses s.connections)
    → at b s.connections ≡ some c
    → stream_to b (run_all (Server.run_task e) tasks s).1 ≡ frames (meant (Server.remote s b) tasks)
unfolding run_all Server.run_task Server.publish_task Server.publish_ex_task Server.send_task
    Server.ready_task Server.disconnect_task
run_all-frames e b c [] s v q = refl
run_all-frames e b c (ready ∷ tasks) s v q =
    stream_to-append b (invoke_ready s.handlers (Server.local_id s))
      (run_all (Server.run_task e) tasks s).1
    ∙ ap₂ ◌++◌ (stream_to-invoke b (λ cb. on_ready cb (Server.local_id s)) s.handlers.on_ready_cb)
        (run_all-frames e b c tasks s v q)
run_all-frames e b c (publish msg ∷ tasks) s v q =
    written-frames e b 1 msg (Server.run_task e (publish msg) s).1
      (run_all (Server.run_task e) tasks s).1 (meant (Server.remote s b) tasks)
      (write_each-Sends (Server.remote s) (offered e msg) s.connections)
      (writes_of-run_task e s b c [] msg v q).0 (run_all-frames e b c tasks s v q)
run_all-frames e b c (publish_ex ids msg ∷ tasks) s v q =
    written-frames e b (if contains_id ids (Server.remote s b) then 0 else 1) msg
      (Server.run_task e (publish_ex ids msg) s).1 (run_all (Server.run_task e) tasks s).1
      (meant (Server.remote s b) tasks)
      (write_except-Sends (Server.remote s) (offered e msg) ids s.connections)
      (writes_of-run_task e s b c ids msg v q).1 (run_all-frames e b c tasks s v q)
run_all-frames e b c (send ids msg ∷ tasks) s v q =
    written-frames e b (times (Server.remote s b) ids) msg (Server.run_task e (send ids msg) s).1
      (run_all (Server.run_task e) tasks s).1 (meant (Server.remote s b) tasks)
      (write_to-Sends (Server.remote s) (offered e msg) ids s.connections)
      (writes_of-run_task e s b c ids msg v q).2 (run_all-frames e b c tasks s v q)
run_all-frames e b c (disconnect id ∷ tasks) s v q =
    let left : Server.Server = (Server.disconnect_task id s).0 in
    let kept : Distinct (addresses left.connections) =
      erase-Distinct (Server.remote s) id s.connections v in
    stream_to-append b (invoke_disconnect s.handlers id ++ [])
      (run_all (Server.run_task e) tasks left).1
    ∙ ap₂ ◌++◌ (disconnect-silent b id s.handlers)
        (elim (Bool-cases (same_id (Server.remote s b) id)) [
          | inl h ↦ rw h (
              all_unconnected-silent e b tasks left
                (at-erase_same s.impl Server.to_string_remote id b s.connections h))
          | inr h ↦ rw h (
              run_all-frames e b c tasks left kept
                (at-erase_other s.impl Server.to_string_remote id b s.connections h ∙ q))
        ])
run_all-frames e b c (user f ∷ tasks) s v q = run_all-frames e b c tasks s v q

-- Let a server that is not stopped have connections at different addresses, and let a client have a
-- valid idle connection to it whose buffer size none of the payloads exceeds that the posted tasks
-- of the server mean for the client: those of `publish`, of `publish_ex` unless the client is named,
-- and of `send` as often as it is named, up to a task that disconnects it. If the socket of the
-- connection takes what a poll writes whole, and the reads that fit cut this in any way, each
-- message handler of the client is called for each of these payloads that is not empty, in order
-- and uncut, with the identity of the server, and the reads call nothing else.
pub reading-poll_server :
    (e e' : Endian) (t : Server.Server) (b : ℕ) (c p : Peer Connection) (s : Client.Client)
    (chunks : List Bytes)
    → t.stopped ≡ false
    → Distinct (addresses t.connections)
    → at b t.connections ≡ some c
    → s.connection ≡ some p
    → IsValid s.buffer p.connection
    → IsIdle p.connection
    → All (λ m. length m ≤ s.buffer) (meant (Server.remote t b) t.posted)
    → Fits e' chunks p.connection
    → flatten chunks ≡ stream_to b (Server.poll e t).1
    → (Client.run_events e' (reading_events chunks) s).1
      ≡ calls_for s.handlers
          (Client.remote s p.address)
          (deliveries (meant (Server.remote t b) t.posted))
unfolding Server.poll
reading-poll_server e e' t b c p s chunks on v found q ok idle small fits same =
    reading-frames e' chunks (meant (Server.remote t b) t.posted) p s q ok idle fits small (
      same
      ∙ ap (λ (r : Server.Server × List Effect). stream_to b r.1) (if-false t.stopped _ _ on)
      ∙ run_all-frames e b c t.posted (record t { posted = [] }) v found)
