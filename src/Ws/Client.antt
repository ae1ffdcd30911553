-- ===== src/Ws/Client.antt =====
-- src/src/ws/client/create.cpp. As in Tcp.Server, a run is a list of events; the environment ends
-- connection attempts, handshakes, waits of the reconnection timer and reads.
pub mod Activity
pub mod Waiting
use nil_service.Common.{
  ℕ, ◌+◌, ◌-◌, Bool, true, false, not, Option, none, some, List, [], ◌∷◌, ◌++◌, Bytes,
  if◌then◌else◌, ◌==◌,
}
use nil_service.Stream.{Signal, connected, disconnected, message}
use nil_service.Service.{
  ServiceId, Effect, sent, Handlers, no_handlers, invoke_ready, invoke_connect, invoke_disconnect,
  invoke_message, Action, run_all, contains_id,
}
use nil_service.Service.Peers.{Peer, remote_id}
use nil_service.Ws.Connection.{Connection, Completion, new, run, complete}

pub data Task : Type 0 where
  publish : Bytes → Task
  publish_ex : List ServiceId → Bytes → Task
  send : List ServiceId → Bytes → Task
  disconnect : ℕ → Task
  user : ℕ → Task

-- `connecting` and `handshaking` count the outstanding `async_connect` and `async_handshake`, `waiting`
-- tells that the reconnection timer is set.
pub record Client : Type 0 where
  pub this : ℕ
  pub impl : ℕ
  pub buffer : ℕ
  pub connection : Option (Peer Connection)
  pub handlers : Handlers
  pub posted : List Task
  pub stopped : Bool
  pub connecting : ℕ
  pub handshaking : ℕ
  pub waiting : Bool

abbrev pub to_string_local : ℕ
to_string_local = 1

abbrev pub to_string_remote : ℕ
to_string_remote = 2

abbrev pub remote : Client → ℕ → ServiceId
remote s = remote_id s.impl to_string_remote

-- The identity that `on_ready` is given.
abbrev pub local_id : Client → ServiceId
local_id s = record { owner = s.this; id = s.this; to_string = to_string_local }

abbrev pub post : Task → Client → Client
post task s = record s { posted = s.posted ++ task ∷ [] }

-- `connect()`: one more `async_connect` is outstanding.
unfoldable pub connect : Client → Client
connect s = record s { connecting = s.connecting + 1 }

-- `reconnect`: setting the timer anew cancels a wait that is outstanding.
unfoldable pub reconnect : Client → Client
reconnect s = record s { waiting = true }

unfoldable pub create : ℕ → ℕ → ℕ → Client
unfolding connect
create this impl buffer = connect (record {
  this = this;
  impl = impl;
  buffer = buffer;
  connection = none;
  handlers = no_handlers;
  posted = [];
  stopped = false;
  connecting = 0;
  handshaking = 0;
  waiting = false;
})

unfoldable pub stop : Client → Client
stop s = record s { stopped = true }

unfoldable pub drop_read : Option (Peer Connection) → Option (Peer Connection)
drop_read none = none
drop_read (some c) = some (record c { connection = record (c.connection) { reading = false } })

-- A new context: the handlers of the old one are gone; the connection stays.
unfoldable pub restart : Client → Client
unfolding connect drop_read
restart s = connect (record s {
  connection = drop_read s.connection;
  posted = [];
  stopped = false;
  connecting = 0;
  handshaking = 0;
  waiting = false;
})

unfoldable pub has_remote_id : Option (Peer Connection) → List ServiceId → (ℕ → ServiceId) → Bool
has_remote_id none ids remote = false
has_remote_id (some c) ids remote = contains_id ids (remote c.address)

unfoldable pub write_if_connected : Bytes → Option (Peer Connection) → List Effect
write_if_connected msg none = []
write_if_connected msg (some c) = sent c.address msg ∷ []

-- The task of `disconnect`, at the connection that there is when it runs.
unfoldable pub disconnect_at : ℕ → Option (Peer Connection) → Action Client
unfolding reconnect
disconnect_at target none s = (reconnect s, [])
disconnect_at target (some c) s =
    if c.address == target
    then (
      reconnect (record s { connection = none }),
      invoke_disconnect s.handlers (remote s c.address),
    )
    else (reconnect s, [])

unfoldable pub run_task : Task → Action Client
unfolding write_if_connected has_remote_id
run_task (publish msg) s = (s, write_if_connected msg s.connection)
run_task (publish_ex ids msg) s = (
  s,
  if has_remote_id s.connection ids (remote s) then [] else write_if_connected msg s.connection,
)
run_task (send ids msg) s = (
  s,
  if has_remote_id s.connection ids (remote s) then write_if_connected msg s.connection else [],
)
run_task (disconnect target) s = disconnect_at target s.connection s
run_task (user f) s = (s, [])

unfoldable pub turn_of : List Task → Action Client
turn_of [] s = (s, [])
turn_of (task ∷ tasks) s =
    if s.stopped then (s, []) else run_task task (record s { posted = tasks })

unfoldable pub turn : Action Client
unfolding turn_of
turn s = turn_of s.posted s

unfoldable pub poll : Action Client
poll s = if s.stopped then (s, []) else run_all run_task s.posted (record s { posted = [] })

-- `ConnectedImpl::connect`, `message` and `disconnect` of this service, for one signal.
unfoldable pub on_signal : ℕ → Signal → Action Client
on_signal address connected s = (s, invoke_connect s.handlers (remote s address))
on_signal address (message payload) s = (s, invoke_message s.handlers (remote s address) payload)
on_signal address disconnected s = (post (disconnect address) s, [])

-- The handler of `async_connect`: an error, or a handshake is started.
unfoldable pub connected_to : Bool → Action Client
unfolding reconnect
connected_to false s = (reconnect (record s { connecting = s.connecting - 1 }), [])
connected_to true s =
    (record s { connecting = s.connecting - 1; handshaking = s.handshaking + 1 }, [])

-- The handler of `async_handshake`: an error, or a connection at a fresh address.
unfoldable pub handshaken : Option ℕ → Action Client
unfolding reconnect
handshaken none s = (reconnect (record s { handshaking = s.handshaking - 1 }), [])
handshaken (some address) s =
    let (c, signals) = run (new s.buffer) in
    let s' = record s {
      connection = some (record { address = address; connection = c });
      handshaking = s.handshaking - 1;
    } in
    let (s'', out) = run_all (on_signal address) signals s' in
    (s'', invoke_ready s'.handlers (local_id s') ++ out)

-- The handler of the timer. An aborted wait does nothing: its timer has been set anew.
unfoldable pub expired : Action Client
unfolding connect
expired s = if s.waiting then (connect (record s { waiting = false }), []) else (s, [])

unfoldable pub read_at : Completion → Option (Peer Connection) → Action Client
read_at result none s = (s, [])
read_at result (some c) s =
    let (c', signals) = complete result c.connection in
    run_all (on_signal c.address) signals
      (record s { connection = some (record c { connection = c' }) })

unfoldable pub read : Completion → Action Client
unfolding read_at
read result s = read_at result s.connection s

abbrev pub add {ℓ} : {A : Type ℓ} → List A → A → List A
add handlers handler = handlers ++ handler ∷ []

unfoldable pub impl_on_message : Option ℕ → Client → Client
impl_on_message f s = record s {
  handlers = record (s.handlers) { on_message_cb = add s.handlers.on_message_cb f };
}

unfoldable pub impl_on_ready : Option ℕ → Client → Client
impl_on_ready f s = record s {
  handlers = record (s.handlers) { on_ready_cb = add s.handlers.on_ready_cb f };
}

unfoldable pub impl_on_connect : Option ℕ → Client → Client
impl_on_connect f s = record s {
  handlers = record (s.handlers) { on_connect_cb = add s.handlers.on_connect_cb f };
}

unfoldable pub impl_on_disconnect : Option ℕ → Client → Client
impl_on_disconnect f s = record s {
  handlers = record (s.handlers) { on_disconnect_cb = add s.handlers.on_disconnect_cb f };
}

pub data Event : Type 0 where
  posts : Task → Event
  turns polls stops restarts expires : Event
  connects : Bool → Event
  shakes : Option ℕ → Event
  reads : Completion → Event

unfoldable pub step : Event → Action Client
step (posts task) s = (post task s, [])
step turns s = turn s
step polls s = poll s
step stops s = (stop s, [])
step restarts s = (restart s, [])
step expires s = expired s
step (connects done) s = connected_to done s
step (shakes socket) s = handshaken socket s
step (reads result) s = read result s

unfoldable pub run_events : List Event → Action Client
run_events = run_all step
