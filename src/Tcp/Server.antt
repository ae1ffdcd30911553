-- ===== src/Tcp/Server.antt =====
-- src/src/tcp/server/create.cpp. The strand runs one handler at a time, so that a run of the service is
-- a list of events: calls of its methods, ends of `async_accept` and of reads, and turns of the
-- executor. A user's function is called and logged; what it calls in turn is a later event.
pub mod Invariant
pub mod Delivery
use nil_service.Common.{
  ℕ, ◌+◌, Bool, true, false, Option, none, some, List, [], ◌∷◌, ◌++◌, Bytes, if◌then◌else◌, length,
}
use nil_service.Codec.{Endian, to_array}
use nil_service.Stream.{Signal, connected, disconnected, message}
use nil_service.Service.{
  ServiceId, Effect, sent, Handlers, no_handlers, invoke_ready, invoke_connect, invoke_disconnect,
  invoke_message, Action, ◌▷◌, emit, update, run_all,
}
use nil_service.Service.Peers.{
  Peer, remote_id, write_each, write_except, write_to, erase, replace, at,
}
use nil_service.Tcp.Connection.{closed, Connection, Completion, new, run, complete, offered}

-- What has been posted to the executor. `user` is a function of the user's.
pub data Task : Type 0 where
  ready : Task
  publish : Bytes → Task
  publish_ex : List ServiceId → Bytes → Task
  send : List ServiceId → Bytes → Task
  disconnect : ServiceId → Task
  user : ℕ → Task

-- `this` and `impl` are the addresses of the service and of its base `ConnectedImpl`. A new `Context`
-- has an empty queue and has not been stopped.
pub record Server : Type 0 where
  pub this : ℕ
  pub impl : ℕ
  pub buffer : ℕ
  pub connections : List (Peer Connection)
  pub handlers : Handlers
  pub posted : List Task
  pub stopped : Bool
  pub accepting : Bool

-- The printers that an identity may hold (function pointers).
abbrev pub to_string_local : ℕ
to_string_local = 1

abbrev pub to_string_remote : ℕ
to_string_remote = 2

abbrev pub remote : Server → ℕ → ServiceId
remote s = remote_id s.impl to_string_remote

abbrev pub local_id : Server → ServiceId
local_id s = record { owner = s.this; id = s.this; to_string = to_string_local }

abbrev pub post : Task → Server → Server
post task s = record s { posted = s.posted ++ task ∷ [] }

-- `accept`: an `async_accept` is outstanding.
accept : Server → Server
accept s = record s { accepting = true }

-- The constructor.
unfoldable pub create : ℕ → ℕ → ℕ → Server
unfolding accept
create this impl buffer = accept (record {
  this = this;
  impl = impl;
  buffer = buffer;
  connections = [];
  handlers = no_handlers;
  posted = ready ∷ [];
  stopped = false;
  accepting = false;
})

unfoldable pub stop : Server → Server
stop s = record s { stopped = true }

-- The handlers of reads that are outstanding are destroyed with their context.
unfoldable pub drop_reads : List (Peer Connection) → List (Peer Connection)
drop_reads [] = []
drop_reads (c ∷ cs) =
    record c { connection = record (c.connection) { reading = closed } } ∷ drop_reads cs

-- A new context: what was posted to the old one is gone, and so are its reads. The connections stay.
unfoldable pub restart : Server → Server
unfolding accept
restart s =
    accept
      (record s { connections = drop_reads s.connections; posted = ready ∷ []; stopped = false })

-- The buffers that `write_payload` hands to the socket.
abbrev pub write_payload : Endian → Bytes → ℕ → Effect
write_payload e msg address = sent address (offered e msg)

unfoldable pub publish_task : Endian → Bytes → Action Server
publish_task e msg = emit λ s. write_each (remote s) (write_payload e msg) s.connections

unfoldable pub publish_ex_task : Endian → List ServiceId → Bytes → Action Server
publish_ex_task e ids msg =
    emit λ s. write_except (remote s) (write_payload e msg) ids s.connections

unfoldable pub send_task : Endian → List ServiceId → Bytes → Action Server
send_task e ids msg = emit λ s. write_to (remote s) (write_payload e msg) ids s.connections

unfoldable pub disconnect_task : ServiceId → Action Server
disconnect_task id =
    emit (λ s. invoke_disconnect s.handlers id)
    ▷ update λ s. record s { connections = erase (remote s) id s.connections }

unfoldable pub ready_task : Action Server
ready_task = emit λ s. invoke_ready s.handlers (local_id s)

unfoldable pub run_task : Endian → Task → Action Server
run_task e ready = ready_task
run_task e (publish msg) = publish_task e msg
run_task e (publish_ex ids msg) = publish_ex_task e ids msg
run_task e (send ids msg) = send_task e ids msg
run_task e (disconnect id) = disconnect_task id
run_task e (user f) = emit λ s. []

-- `poll`: what has been posted, unless the context is stopped.
unfoldable pub poll : Endian → Action Server
poll e s = if s.stopped then (s, []) else run_all (run_task e) s.posted (record s { posted = [] })

-- `ConnectedImpl::connect`, `message` and `disconnect` of this service, for one signal.
unfoldable pub on_signal : ℕ → Signal → Action Server
on_signal address connected = emit λ s. invoke_connect s.handlers (remote s address)
on_signal address (message payload) = emit λ s. invoke_message s.handlers (remote s address) payload
on_signal address disconnected = update λ s. post (disconnect (remote s address)) s

abbrev pub push_connection : ℕ → Connection → Server → Server
push_connection address c s = record s {
  connections = s.connections ++ record { address = address; connection = c } ∷ [];
}

-- The handler of `async_accept`: an error, or a socket whose connection is put at a fresh address.
unfoldable pub accepted : Option ℕ → Action Server
unfolding accept
accepted none s = (accept s, [])
accepted (some address) s =
    let (c, signals) = run (new s.buffer) in
    let (s', out) = run_all (on_signal address) signals s in
    (accept (push_connection address c s'), out)

unfoldable pub read_at : Endian → ℕ → Completion → Option (Peer Connection) → Action Server
read_at e address result none s = (s, [])
read_at e address result (some c) s =
    let (c', out) = complete e result c.connection in
    run_all (on_signal address) out (record s { connections = replace address c' s.connections })

-- The handler of a read of the connection at an address.
unfoldable pub read : Endian → ℕ → Completion → Action Server
unfolding read_at
read e address result s = read_at e address result (at address s.connections) s

abbrev pub add {ℓ} : {A : Type ℓ} → List A → A → List A
add handlers handler = handlers ++ handler ∷ []

unfoldable pub impl_on_message : Option ℕ → Server → Server
impl_on_message f s = record s {
  handlers = record (s.handlers) { on_message_cb = add s.handlers.on_message_cb f };
}

unfoldable pub impl_on_ready : Option ℕ → Server → Server
impl_on_ready f s = record s {
  handlers = record (s.handlers) { on_ready_cb = add s.handlers.on_ready_cb f };
}

unfoldable pub impl_on_connect : Option ℕ → Server → Server
impl_on_connect f s = record s {
  handlers = record (s.handlers) { on_connect_cb = add s.handlers.on_connect_cb f };
}

unfoldable pub impl_on_disconnect : Option ℕ → Server → Server
impl_on_disconnect f s = record s {
  handlers = record (s.handlers) { on_disconnect_cb = add s.handlers.on_disconnect_cb f };
}

-- `run` and the strand take the first handler that is posted, unless the context is stopped.
turn_of : Endian → List Task → Action Server
turn_of e [] s = (s, [])
turn_of e (task ∷ tasks) s =
    if s.stopped then (s, []) else run_task e task (record s { posted = tasks })

unfoldable pub turn : Endian → Action Server
unfolding turn_of
turn e s = turn_of e s.posted s

-- What can happen to a service. A task of the user's is posted by `dispatch`.
pub data Event : Type 0 where
  posts : Task → Event
  turns polls stops restarts : Event
  accepts : Option ℕ → Event
  reads : ℕ → Completion → Event

unfoldable pub step : Endian → Event → Action Server
step e (posts task) s = (post task s, [])
step e turns s = turn e s
step e polls s = poll e s
step e stops s = (stop s, [])
step e restarts s = (restart s, [])
step e (accepts socket) s = accepted socket s
step e (reads address result) s = read e address result s

-- A run of the service, as any interleaving of events.
unfoldable pub run_events : Endian → List Event → Action Server
run_events e = run_all (step e)
