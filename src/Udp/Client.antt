-- ===== src/Udp/Client.antt =====
-- src/src/udp/client/create.cpp. The environment delivers datagrams, ends the waits of the two timers and
-- says whether a socket can be opened.
pub mod Session
pub mod Restart
pub mod Telling
use nil_service.Common.{
  ℕ, Bool, true, false, not, Option, none, some, List, [], ◌∷◌, ◌++◌, Bytes, if◌then◌else◌, ◌==◌,
  ◌&&◌, ◌||◌, length, leb, ltb, drop,
}
use nil_service.Codec.{Endian, from_array}
use nil_service.Service.{
  ServiceId, Effect, sent, Handlers, no_handlers, invoke_ready, invoke_connect, invoke_disconnect,
  invoke_message, contains_id, Action, run_all, ◌▷◌, update, emit, skip,
}
use nil_service.Udp.{probe, external}

pub data Task : Type 0 where
  publish : Bytes → Task
  publish_ex : List ServiceId → Bytes → Task
  user : ℕ → Task

-- `pinging` and `waiting` tell that a wait of the timer `pingtimer` or `timeout` is outstanding,
-- `receiving` that an `async_receive` is. `server` is the endpoint that the options name.
pub record Client : Type 0 where
  pub this : ℕ
  pub server : ℕ
  pub connected : Bool
  pub handlers : Handlers
  pub posted : List Task
  pub stopped : Bool
  pub open_ : Bool
  pub receiving : Bool
  pub pinging : Bool
  pub waiting : Bool

abbrev pub to_string_local : ℕ
to_string_local = 1

abbrev pub to_string_remote : ℕ
to_string_remote = 2

abbrev pub remote_id : Client → ServiceId
remote_id s = record { owner = s.this; id = s.this; to_string = to_string_remote }

abbrev pub local_id : Client → ServiceId
local_id s = record { owner = s.this; id = s.this; to_string = to_string_local }

abbrev pub post : Task → Client → Client
post task s = record s { posted = s.posted ++ task ∷ [] }

-- The three steps of `open_socket` that may fail.
pub record Opening : Type 0 where
  pub address_ok : Bool
  pub open_ok : Bool
  pub option_ok : Bool

-- `open_socket`: the socket may be open although its option was refused.
unfoldable pub open_socket : Opening → Client → Client × Bool
open_socket o s =
    if o.address_ok
    then if o.open_ok then (record s { open_ = true }, o.option_ok) else (s, false)
    else (s, false)

unfoldable pub receive : Client → Client
receive s = record s { receiving = true }

unfoldable pub ping : Endian → Action Client
ping e s = (record s { pinging = true }, sent s.server (probe e) ∷ [])

unfoldable pub start_with : Endian → Client × Bool → Client × List Effect
unfolding receive ping
start_with e (s, false) = (s, [])
start_with e (s, true) = (ping e ▷ update receive) s

-- The constructor.
unfoldable pub create : Endian → ℕ → ℕ → Opening → Client × List Effect
unfolding start_with open_socket
create e this server o = start_with e (
    open_socket o (record {
      this = this;
      server = server;
      connected = false;
      handlers = no_handlers;
      posted = [];
      stopped = false;
      open_ = false;
      receiving = false;
      pinging = false;
      waiting = false;
    }))

unfoldable pub stop : Client → Client
stop s = record s { stopped = true }

-- A new context: its socket is closed, and nothing is outstanding. `connected` stays.
unfoldable pub restart : Endian → Opening → Action Client
unfolding start_with open_socket
restart e o s = start_with e (
    open_socket o (record s {
      posted = [];
      stopped = false;
      open_ = false;
      receiving = false;
      pinging = false;
      waiting = false;
    }))

unfoldable pub contains_remote_id : List ServiceId → Client → Bool
contains_remote_id ids s = contains_id ids (remote_id s)

unfoldable pub send_external : Endian → Bytes → Client → List Effect
send_external e msg s = sent s.server (external e msg) ∷ []

unfoldable pub run_task : Endian → Task → Action Client
run_task e (publish msg) s = (s, send_external e msg s)
run_task e (publish_ex ids msg) s =
    (s, if contains_remote_id ids s then [] else send_external e msg s)
run_task e (user f) s = (s, [])

-- `send` looks at the identities when it is called.
unfoldable pub send : List ServiceId → Bytes → Client → Client
send ids msg s = if contains_remote_id ids s then post (publish msg) s else s

unfoldable pub usermsg : Bytes → Action Client
usermsg payload s = (s, invoke_message s.handlers (remote_id s) payload)

unfoldable pub pong : Action Client
pong s =
    if not s.connected
    then (
      record s { connected = true; waiting = true },
      invoke_ready s.handlers (local_id s) ++ invoke_connect s.handlers (remote_id s),
    )
    else (record s { waiting = true }, [])

unfoldable pub recreate_with : Client × Bool → Client
unfolding receive
recreate_with (s, false) = s
recreate_with (s, true) = receive s

-- `cancel` and `close` end the outstanding receive.
unfoldable pub recreate_socket : Opening → Client → Client
unfolding open_socket recreate_with
recreate_socket o s = recreate_with (open_socket o (record s { open_ = false; receiving = false }))

-- The handler of `timeout`, where the wait is not aborted.
unfoldable pub timed_out : Opening → Action Client
timed_out o s =
    let s' = record s { waiting = false } in
    if s.connected
    then (
      recreate_socket o (record s' { connected = false }),
      invoke_disconnect s.handlers (remote_id s),
    )
    else (s', [])

is_internal : Option ℕ → Bool
is_internal none = false
is_internal (some marker) = ltb 0 marker

unfoldable pub message : Endian → Bytes → Action Client
unfolding is_internal
message e bytes s =
    if leb 1 (length bytes)
    then if is_internal (from_array e 1 bytes) then pong s else usermsg (drop 1 bytes) s
    else (s, [])

pub data Completion : Type 0 where
  failed : Completion
  received : Bytes → Completion

-- The handler of `async_receive`.
unfoldable pub complete : Endian → Completion → Action Client
unfolding receive
complete e failed s = (record s { receiving = false }, [])
complete e (received bytes) s =
    let (s', out) = message e bytes (record s { receiving = false }) in (receive s', out)

-- The handler of `pingtimer`, where the wait is not aborted.
unfoldable pub ping_due : Endian → Action Client
ping_due e s = ping e (record s { pinging = false })

unfoldable pub turn_of : Endian → List Task → Action Client
turn_of e [] s = (s, [])
turn_of e (task ∷ tasks) s =
    if s.stopped then (s, []) else run_task e task (record s { posted = tasks })

unfoldable pub turn : Endian → Action Client
unfolding turn_of
turn e s = turn_of e s.posted s

unfoldable pub poll : Endian → Action Client
poll e s = if s.stopped then (s, []) else run_all (run_task e) s.posted (record s { posted = [] })

abbrev pub add {ℓ} : {A : Type ℓ} → List A → A → List A
add handlers handler = handlers ++ handler ∷ []

unfoldable pub impl_on_message : Option ℕ → Client → Client
impl_on_message f s = record s {
  handlers = record (s.handlers) { on_message_cb = add s.handlers.on_message_cb f };
}

unfoldable pub impl_on_ready : Option ℕ → Client → Client
impl_on_ready f s = record s {
  handlers = record (s.handlers) { on_ready_cb = add s.handlers.on_ready_cb f };
}

unfoldable pub impl_on_connect : Option ℕ → Client → Client
impl_on_connect f s = record s {
  handlers = record (s.handlers) { on_connect_cb = add s.handlers.on_connect_cb f };
}

unfoldable pub impl_on_disconnect : Option ℕ → Client → Client
impl_on_disconnect f s = record s {
  handlers = record (s.handlers) { on_disconnect_cb = add s.handlers.on_disconnect_cb f };
}

pub data Event : Type 0 where
  posts : Task → Event
  sends : List ServiceId → Bytes → Event
  turns polls stops : Event
  restarts : Opening → Event
  completes : Completion → Event
  pings : Event
  times_out : Opening → Event

unfoldable pub step : Endian → Event → Action Client
step e (posts task) s = (post task s, [])
step e (sends ids msg) s = (send ids msg s, [])
step e turns s = turn e s
step e polls s = poll e s
step e stops s = (stop s, [])
step e (restarts o) s = restart e o s
step e (completes result) s = complete e result s
step e pings s = ping_due e s
step e (times_out o) s = timed_out o s

unfoldable pub run_events : Endian → List Event → Action Client
run_events e = run_all (step e)
