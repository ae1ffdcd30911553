-- ===== src/Tcp/Client.antt =====
-- src/src/tcp/client/create.cpp. As in Tcp.Server, a run is a list of events; the environment ends
-- connection attempts, waits of the reconnection timer and reads.
pub mod Activity
pub mod Waiting
pub mod Delivery
use nil_service.Common.{
  ℕ, ◌+◌, ◌-◌, Bool, true, false, not, Option, none, some, List, [], ◌∷◌, ◌++◌, Bytes,
  if◌then◌else◌, ◌==◌,
}
use nil_service.Codec.{Endian}
use nil_service.Stream.{Signal, connected, disconnected, message}
use nil_service.Service.{
  ServiceId, Effect, sent, Handlers, no_handlers, invoke_ready, invoke_connect, invoke_disconnect,
  invoke_message, Action, run_all, contains_id,
}
use nil_service.Service.Peers.{Peer, remote_id}
use nil_service.Tcp.Connection.{Connection, Completion, closed, new, run, complete, offered}

pub data Task : Type 0 where
  publish : Bytes → Task
  publish_ex : List ServiceId → Bytes → Task
  send : List ServiceId → Bytes → Task
  disconnect : ℕ → Task
  user : ℕ → Task

-- `connecting` counts the outstanding attempts, `waiting` tells that the reconnection timer is set.
pub record Client : Type 0 where
  pub this : ℕ
  pub impl : ℕ
  pub buffer : ℕ
  pub connection : Option (Peer Connection)
  pub handlers : Handlers
  pub posted : List Task
  pub stopped : Bool
  pub connecting : ℕ
  pub waiting : Bool

abbrev pub to_string_local : ℕ
to_string_local = 1

abbrev pub to_string_remote : ℕ
to_string_remote = 2

abbrev pub remote : Client → ℕ → ServiceId
remote s = remote_id s.impl to_string_remote

-- The identity that `on_ready` is given: the local end of the connection.
abbrev pub local_id : Client → ℕ → ServiceId
local_id s address = record { owner = s.this; id = address; to_string = to_string_local }

abbrev pub post : Task → Client → Client
post task s = record s { posted = s.posted ++ task ∷ [] }

-- `connect()`: one more `async_connect` is outstanding.
unfoldable pub connect : Client → Client
connect s = record s { connecting = s.connecting + 1 }

-- `reconnect`: setting the timer anew cancels a wait that is outstanding.
unfoldable pub reconnect : Client → Client
reconnect s = record s { waiting = true }

unfoldable pub create : ℕ → ℕ → ℕ → Client
unfolding connect
create this impl buffer = connect (record {
  this = this;
  impl = impl;
  buffer = buffer;
  connection = none;
  handlers = no_handlers;
  posted = [];
  stopped = false;
  connecting = 0;
  waiting = false;
})

unfoldable pub stop : Client → Client
stop s = record s { stopped = true }

unfoldable pub drop_read : Option (Peer Connection) → Option (Peer Connection)
drop_read none = none
drop_read (some c) = some (record c { connection = record (c.connection) { reading = closed } })

-- A new context: the handlers of the old one are gone; the connection stays.
unfoldable pub restart : Client → Client
unfolding connect drop_read
restart s = connect (record s {
  connection = drop_read s.connection;
  posted = [];
  stopped = false;
  connecting = 0;
  waiting = false;
})

unfoldable pub has_remote_id : Option (Peer Connection) → List ServiceId → (ℕ → ServiceId) → Bool
has_remote_id none ids remote = false
has_remote_id (some c) ids remote = contains_id ids (remote c.address)

unfoldable pub write_if_connected : Endian → Bytes → Option (Peer Connection) → List Effect
write_if_connected e msg none = []
write_if_connected e msg (some c) = sent c.address (offered e msg) ∷ []

-- The task of `disconnect`, at the connection that there is when it runs.
unfoldable pub disconnect_at : ℕ → Option (Peer Connection) → Action Client
unfolding reconnect
disconnect_at target none s = (reconnect s, [])
disconnect_at target (some c) s =
    if c.address == target
    then (
      reconnect (record s { connection = none }),
      invoke_disconnect s.handlers (remote s c.address),
    )
    else (reconnect s, [])

unfoldable pub run_task : Endian → Task → Action Client
unfolding write_if_connected has_remote_id
run_task e (publish msg) s = (s, write_if_connected e msg s.connection)
run_task e (publish_ex ids msg) s = (
  s,
  if has_remote_id s.connection ids (remote s) then [] else write_if_connected e msg s.connection,
)
run_task e (send ids msg) s = (
  s,
  if has_remote_id s.connection ids (remote s) then write_if_connected e msg s.connection else [],
)
run_task e (disconnect target) s = disconnect_at target s.connection s
run_task e (user f) s = (s, [])

unfoldable pub turn_of : Endian → List Task → Action Client
turn_of e [] s = (s, [])
turn_of e (task ∷ tasks) s =
    if s.stopped then (s, []) else run_task e task (record s { posted = tasks })

unfoldable pub turn : Endian → Action Client
unfolding turn_of
turn e s = turn_of e s.posted s

unfoldable pub poll : Endian → Action Client
poll e s = if s.stopped then (s, []) else run_all (run_task e) s.posted (record s { posted = [] })

-- `ConnectedImpl::connect`, `message` and `disconnect` of this service, for one signal.
unfoldable pub on_signal : ℕ → Signal → Action Client
on_signal address connected s = (s, invoke_connect s.handlers (remote s address))
on_signal address (message payload) s = (s, invoke_message s.handlers (remote s address) payload)
on_signal address disconnected s = (post (disconnect address) s, [])

-- The handler of `async_connect`: an error, or a socket whose connection is put at a fresh address.
unfoldable pub connected_to : Option ℕ → Action Client
unfolding reconnect
connected_to none s = (reconnect (record s { connecting = s.connecting - 1 }), [])
connected_to (some address) s =
    let (c, signals) = run (new s.buffer) in
    let s' = record s {
      connection = some (record { address = address; connection = c });
      connecting = s.connecting - 1;
    } in
    let (s'', out) = run_all (on_signal address) signals s' in
    (s'', invoke_ready s'.handlers (local_id s' address) ++ out)

-- The handler of the timer. An aborted wait does nothing: its timer has been set anew.
unfoldable pub expired : Action Client
unfolding connect
expired s = if s.waiting then (connect (record s { waiting = false }), []) else (s, [])

unfoldable pub read_at : Endian → Completion → Option (Peer Connection) → Action Client
read_at e result none s = (s, [])
read_at e result (some c) s =
    let (c', signals) = complete e result c.connection in
    run_all (on_signal c.address) signals
      (record s { connection = some (record c { connection = c' }) })

unfoldable pub read : Endian → Completion → Action Client
unfolding read_at
read e result s = read_at e result s.connection s

abbrev pub add {ℓ} : {A : Type ℓ} → List A → A → List A
add handlers handler = handlers ++ handler ∷ []

unfoldable pub impl_on_message : Option ℕ → Client → Client
impl_on_message f s = record s {
  handlers = record (s.handlers) { on_message_cb = add s.handlers.on_message_cb f };
}

unfoldable pub impl_on_ready : Option ℕ → Client → Client
impl_on_ready f s = record s {
  handlers = record (s.handlers) { on_ready_cb = add s.handlers.on_ready_cb f };
}

unfoldable pub impl_on_connect : Option ℕ → Client → Client
impl_on_connect f s = record s {
  handlers = record (s.handlers) { on_connect_cb = add s.handlers.on_connect_cb f };
}

unfoldable pub impl_on_disconnect : Option ℕ → Client → Client
impl_on_disconnect f s = record s {
  handlers = record (s.handlers) { on_disconnect_cb = add s.handlers.on_disconnect_cb f };
}

pub data Event : Type 0 where
  posts : Task → Event
  turns polls stops restarts expires : Event
  connects : Option ℕ → Event
  reads : Completion → Event

unfoldable pub step : Endian → Event → Action Client
step e (posts task) s = (post task s, [])
step e turns s = turn e s
step e polls s = poll e s
step e stops s = (stop s, [])
step e restarts s = (restart s, [])
step e expires s = expired s
step e (connects socket) s = connected_to socket s
step e (reads result) s = read e result s

unfoldable pub run_events : Endian → List Event → Action Client
run_events e = run_all (step e)
