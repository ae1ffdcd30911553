-- ===== src/Udp/Server.antt =====
-- src/src/udp/server/create.cpp. As in Tcp.Server, a run is a list of events; the environment delivers
-- datagrams and ends the waits of the connections' timers.
pub mod Peers
pub mod Invariant
pub mod Delivery
pub mod Handling
use nil_service.Common.{
  ℕ, Bool, true, false, Option, none, some, List, [], ◌∷◌, ◌++◌, Bytes, if◌then◌else◌, ◌==◌, ◌&&◌,
  ◌||◌, length, leb, drop,
}
use nil_service.Codec.{Endian, from_array}
use nil_service.Service.{
  ServiceId, Effect, sent, Handlers, no_handlers, invoke_ready, invoke_connect, invoke_disconnect,
  invoke_message, Action, run_all,
}
use nil_service.Service.Peers.{Peer, addresses}
use nil_service.Udp.{udp_internal_message, probe, external}

-- `waiting` tells that a wait of the connection's timer is outstanding.
pub record Connection : Type 0 where
  pub endpoint : ℕ
  pub waiting : Bool

pub data Task : Type 0 where
  ready : Task
  publish : Bytes → Task
  publish_ex : List ServiceId → Bytes → Task
  send : List ServiceId → Bytes → Task
  user : ℕ → Task

pub record Server : Type 0 where
  pub this : ℕ
  pub connections : List (Peer Connection)
  pub handlers : Handlers
  pub posted : List Task
  pub stopped : Bool
  pub receiving : Bool

abbrev pub to_string : ℕ
to_string = 1

abbrev pub connection_to_string : ℕ
connection_to_string = 2

abbrev pub local_id : Server → ServiceId
local_id s = record { owner = s.this; id = s.this; to_string = to_string }

-- `ID{this, connection, &Connection::to_string}`
abbrev pub remote : ℕ → ℕ → ServiceId
remote this address = record { owner = this; id = address; to_string = connection_to_string }

abbrev pub post : Task → Server → Server
post task s = record s { posted = s.posted ++ task ∷ [] }

receive : Server → Server
receive s = record s { receiving = true }

unfoldable pub create : ℕ → Server
unfolding receive
create this = receive (record {
  this = this;
  connections = [];
  handlers = no_handlers;
  posted = ready ∷ [];
  stopped = false;
  receiving = false;
})

unfoldable pub stop : Server → Server
stop s = record s { stopped = true }

-- The waits of the timers are destroyed with their context.
unfoldable pub drop_waits : List (Peer Connection) → List (Peer Connection)
drop_waits [] = []
drop_waits (c ∷ cs) =
    record c { connection = record (c.connection) { waiting = false } } ∷ drop_waits cs

unfoldable pub restart : Server → Server
unfolding receive drop_waits
restart s =
    receive
      (record s { connections = drop_waits s.connections; posted = ready ∷ []; stopped = false })

-- `has_connection_id`: the printer of the identity is not looked at.
unfoldable pub has_connection_id : ℕ → List ServiceId → ℕ → Bool
has_connection_id this [] address = false
has_connection_id this (i ∷ ids) address =
    (i.owner == this && i.id == address) || has_connection_id this ids address

unfoldable pub send_external : Endian → Bytes → ℕ → Effect
send_external e msg endpoint = sent endpoint (external e msg)

unfoldable pub publish_each : Endian → Bytes → List (Peer Connection) → List Effect
publish_each e msg [] = []
publish_each e msg (c ∷ cs) = send_external e msg c.connection.endpoint ∷ publish_each e msg cs

unfoldable pub publish_except :
    Endian → ℕ → List ServiceId → Bytes → List (Peer Connection) → List Effect
publish_except e this ids msg [] = []
publish_except e this ids msg (c ∷ cs) =
    if has_connection_id this ids c.address
    then publish_except e this ids msg cs
    else send_external e msg c.connection.endpoint ∷ publish_except e this ids msg cs

unfoldable pub send_each :
    Endian → ℕ → List ServiceId → Bytes → List (Peer Connection) → List Effect
send_each e this ids msg [] = []
send_each e this ids msg (c ∷ cs) =
    if has_connection_id this ids c.address
    then send_external e msg c.connection.endpoint ∷ send_each e this ids msg cs
    else send_each e this ids msg cs

unfoldable pub run_task : Endian → Task → Action Server
run_task e ready s = (s, invoke_ready s.handlers (local_id s))
run_task e (publish msg) s = (s, publish_each e msg s.connections)
run_task e (publish_ex ids msg) s = (s, publish_except e s.this ids msg s.connections)
run_task e (send ids msg) s = (s, send_each e s.this ids msg s.connections)
run_task e (user f) s = (s, [])

-- `find_if` by endpoint.
unfoldable pub find_endpoint : ℕ → List (Peer Connection) → Option (Peer Connection)
find_endpoint endpoint [] = none
find_endpoint endpoint (c ∷ cs) =
    if c.connection.endpoint == endpoint then some c else find_endpoint endpoint cs

-- The timer of a connection is set anew; a wait that is outstanding is aborted.
unfoldable pub arm : ℕ → List (Peer Connection) → List (Peer Connection)
arm address [] = []
arm address (c ∷ cs) =
    if c.address == address
    then record c { connection = record (c.connection) { waiting = true } } ∷ cs
    else c ∷ arm address cs

-- `remove_if` by pointer.
unfoldable pub erase : ℕ → List (Peer Connection) → List (Peer Connection)
erase address [] = []
erase address (c ∷ cs) = if address == c.address then erase address cs else c ∷ erase address cs

-- `ping`, at the connection of the endpoint or at none; `fresh` is where a new one is put.
unfoldable pub ping : Endian → ℕ → ℕ → Option (Peer Connection) → Action Server
ping e fresh endpoint none s =
    let added : Peer Connection = record {
      address = fresh;
      connection = record { endpoint = endpoint; waiting = false };
    } in
    (
      record s { connections = arm fresh (s.connections ++ added ∷ []) },
      invoke_connect s.handlers (remote s.this fresh) ++ sent endpoint (probe e) ∷ [],
    )
ping e fresh endpoint (some c) s =
    (record s { connections = arm c.address s.connections }, sent endpoint (probe e) ∷ [])

-- A datagram that is no probe, from a connection or from none.
unfoldable pub external_message : Bytes → Option (Peer Connection) → Action Server
external_message bytes none s = (s, [])
external_message bytes (some c) s =
    (s, invoke_message s.handlers (remote s.this c.address) (drop 1 bytes))

is_probe : Option ℕ → Bool
is_probe none = false
is_probe (some marker) = marker == udp_internal_message

unfoldable pub message : Endian → ℕ → ℕ → Bytes → Action Server
unfolding is_probe
message e fresh endpoint bytes s =
    if leb 1 (length bytes)
    then if is_probe (from_array e 1 bytes)
      then ping e fresh endpoint (find_endpoint endpoint s.connections) s
      else external_message bytes (find_endpoint endpoint s.connections) s
    else (s, [])

-- How an `async_receive_from` ends.
pub data Completion : Type 0 where
  failed : Completion
  received : ℕ → ℕ → Bytes → Completion

-- Its handler. After an error nothing is received any more.
unfoldable pub complete : Endian → Completion → Action Server
unfolding receive
complete e failed s = (record s { receiving = false }, [])
complete e (received fresh endpoint bytes) s =
    let (s', out) = message e fresh endpoint bytes (record s { receiving = false }) in
    (receive s', out)

unfoldable pub expired_at : Option (Peer Connection) → Action Server
expired_at none s = (s, [])
expired_at (some c) s = (
  record s { connections = erase c.address s.connections },
  invoke_disconnect s.handlers (remote s.this c.address),
)

unfoldable pub find_address : ℕ → List (Peer Connection) → Option (Peer Connection)
find_address address [] = none
find_address address (c ∷ cs) = if c.address == address then some c else find_address address cs

-- The handler of a connection's timer, where the wait is not aborted.
unfoldable pub expired : ℕ → Action Server
unfolding expired_at
expired address s = expired_at (find_address address s.connections) s

unfoldable pub turn_of : Endian → List Task → Action Server
turn_of e [] s = (s, [])
turn_of e (task ∷ tasks) s =
    if s.stopped then (s, []) else run_task e task (record s { posted = tasks })

unfoldable pub turn : Endian → Action Server
unfolding turn_of
turn e s = turn_of e s.posted s

unfoldable pub poll : Endian → Action Server
poll e s = if s.stopped then (s, []) else run_all (run_task e) s.posted (record s { posted = [] })

abbrev pub add {ℓ} : {A : Type ℓ} → List A → A → List A
add handlers handler = handlers ++ handler ∷ []

unfoldable pub impl_on_message : Option ℕ → Server → Server
impl_on_message f s = record s {
  handlers = record (s.handlers) { on_message_cb = add s.handlers.on_message_cb f };
}

unfoldable pub impl_on_ready : Option ℕ → Server → Server
impl_on_ready f s = record s {
  handlers = record (s.handlers) { on_ready_cb = add s.handlers.on_ready_cb f };
}

unfoldable pub impl_on_connect : Option ℕ → Server → Server
impl_on_connect f s = record s {
  handlers = record (s.handlers) { on_connect_cb = add s.handlers.on_connect_cb f };
}

unfoldable pub impl_on_disconnect : Option ℕ → Server → Server
impl_on_disconnect f s = record s {
  handlers = record (s.handlers) { on_disconnect_cb = add s.handlers.on_disconnect_cb f };
}

pub data Event : Type 0 where
  posts : Task → Event
  turns polls stops restarts : Event
  completes : Completion → Event
  expires : ℕ → Event

unfoldable pub step : Endian → Event → Action Server
step e (posts task) s = (post task s, [])
step e turns s = turn e s
step e polls s = poll e s
step e stops s = (stop s, [])
step e restarts s = (restart s, [])
step e (completes result) s = complete e result s
step e (expires address) s = expired address s

unfoldable pub run_events : Endian → List Event → Action Server
run_events e = run_all (step e)
