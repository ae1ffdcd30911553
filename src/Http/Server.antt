-- ===== src/Http/Server.antt =====
-- src/src/http/server/create.cpp, and the functions on WebTransaction of src/src/structs. The environment
-- reads requests, ends handshakes and reads, and runs the executor; a route and a host are numbers.
pub mod Routing
pub mod Restart
use nil_service.Common.{
  ℕ, suc, Bool, true, false, Option, none, some, List, [], ◌∷◌, ◌++◌, Bytes, if◌then◌else◌, ◌==◌,
}
use nil_service.Service.{ServiceId, no_handlers, Effect, on_ready, invoke, Action, run_all}
use nil_service.Service.Peers.{Peer}
use nil_service.Ws.Connection.{Connection, Completion}
use nil_service.Http.WebSocket
use nil_service.Http.WebSocket.{WebSocket}

pub data Status : Type 0 where
  ok bad_request : Status

-- What a handler can change of a response.
pub record Response : Type 0 where
  pub status : Status
  pub content_type : Option Bytes
  pub body : Bytes

-- A new response of Boost.Beast.
abbrev pub new_response : Response
new_response = record { status = ok; content_type = none; body = [] }

-- `get` tells the method, `upgrade` is what `is_upgrade` says.
pub record Request : Type 0 where
  pub get : Bool
  pub target : ℕ
  pub upgrade : Bool

unfoldable pub get_route : Request → ℕ
get_route request = request.target

unfoldable pub set_content_type : Bytes → Response → Response
set_content_type type response = record response { content_type = some type }

unfoldable pub send : Bytes → Response → Response
send body response = record response { status = ok; body = response.body ++ body }

-- "text/plain"
abbrev pub text_plain : Bytes
text_plain = 116 ∷ 101 ∷ 120 ∷ 116 ∷ 47 ∷ 112 ∷ 108 ∷ 97 ∷ 105 ∷ 110 ∷ []

-- The WebSocket at a route.
pub record Route : Type 0 where
  pub route : ℕ
  pub ws : WebSocket

pub data Task : Type 0 where
  ready : Task
  websocket : ℕ → WebSocket.Task → Task
  user : ℕ → Task

-- `context` names the executor that the server has now: a pointer to an earlier one dangles. `wss` is in
-- the order in which the map is iterated.
pub record Server : Type 0 where
  pub this : ℕ
  pub buffer : ℕ
  pub context : ℕ
  pub wss : List Route
  pub on_get_cb : List (Option ℕ)
  pub on_ready_cb : List (Option ℕ)
  pub posted : List Task
  pub stopped : Bool
  pub accepting : Bool

abbrev pub to_string : ℕ
to_string = 1

unfoldable pub find_route : ℕ → List Route → Option WebSocket
find_route key [] = none
find_route key (r ∷ rs) = if r.route == key then some r.ws else find_route key rs

unfoldable pub replace_route : ℕ → WebSocket → List Route → List Route
replace_route key w [] = []
replace_route key w (r ∷ rs) =
    if r.route == key then record r { ws = w } ∷ rs else r ∷ replace_route key w rs

-- The constructor.
unfoldable pub create : ℕ → ℕ → Server
create this buffer = record {
  this = this;
  buffer = buffer;
  context = 0;
  wss = [];
  on_get_cb = [];
  on_ready_cb = [];
  posted = ready ∷ [];
  stopped = false;
  accepting = false;
}

-- `&wss[key]`: a new WebSocket is at fresh addresses.
unfoldable pub use_ws_at : ℕ → ℕ → ℕ → Option WebSocket → Server → Server
use_ws_at key this impl (some w) s = s
use_ws_at key this impl none s = record s {
  wss =
      s.wss
      ++ record {
        route = key;
        ws = record {
          this = this;
          impl = impl;
          connections = [];
          handlers = no_handlers;
          context = none;
        };
      }
        ∷ [];
}

unfoldable pub use_ws : ℕ → ℕ → ℕ → Server → Server
unfolding use_ws_at
use_ws key this impl s = use_ws_at key this impl (find_route key s.wss) s

-- The loop over the WebSockets when the server is ready.
unfoldable pub announce : ℕ → List Route → List Route × List Effect
announce context [] = ([], [])
announce context (r ∷ rs) =
    let (w, out) = WebSocket.ready (record (r.ws) { context = some context }) in
    let (rest, more) = announce context rs in (record r { ws = w } ∷ rest, out ++ more)

unfoldable pub accept : Server → Server
accept s = record s { accepting = true }

unfoldable pub ready_task : Action Server
unfolding accept announce
ready_task s =
    let (wss, out) = announce s.context s.wss in
    (
      accept (record s { wss = wss }),
      invoke (λ cb. on_ready cb (record { owner = s.this; id = s.this; to_string = to_string }))
            s.on_ready_cb
          ++ out,
    )

unfoldable pub stop : Server → Server
stop s = record s { stopped = true }

-- The reads of connections are destroyed with their executor; the connections stay.
unfoldable pub drop_reads : List (Peer Connection) → List (Peer Connection)
drop_reads [] = []
drop_reads (c ∷ cs) =
    record c { connection = record (c.connection) { reading = false } } ∷ drop_reads cs

unfoldable pub drop_all_reads : List Route → List Route
unfolding drop_reads
drop_all_reads [] = []
drop_all_reads (r ∷ rs) =
    record r { ws = record (r.ws) { connections = drop_reads r.ws.connections } }
    ∷ drop_all_reads rs

-- A new executor, in place of the old one, which is destroyed.
unfoldable pub restart : Server → Server
unfolding drop_all_reads
restart s = record s {
  context = suc s.context;
  wss = drop_all_reads s.wss;
  posted = ready ∷ [];
  stopped = false;
  accepting = false;
}

abbrev pub dispatch : Task → Server → Server
dispatch task s = record s { posted = s.posted ++ task ∷ [] }

-- A post through a WebSocket's pointer; `none` is a use of an executor that is destroyed. A null pointer
-- drops the task.
unfoldable pub post_to : ℕ → WebSocket.Task → Option ℕ → Server → Option Server
post_to key task none s = some s
post_to key task (some context) s =
    if context == s.context then some (dispatch (websocket key task) s) else none

unfoldable pub post_at : ℕ → WebSocket.Task → Option WebSocket → Server → Option Server
unfolding post_to
post_at key task none s = some s
post_at key task (some w) s = post_to key task w.context s

-- `publish`, `publish_ex` and `send` of the WebSocket at a route.
unfoldable pub request : ℕ → WebSocket.Task → Server → Option Server
unfolding post_at
request key task s = post_at key task (find_route key s.wss) s

unfoldable pub run_websocket : ℕ → WebSocket.Task → Option WebSocket → Action Server
run_websocket key task none s = (s, [])
run_websocket key task (some w) s =
    let (w', out) = WebSocket.run_task task w in
    (record s { wss = replace_route key w' s.wss }, out)

unfoldable pub run_task : Task → Action Server
unfolding run_websocket
run_task ready s = ready_task s
run_task (websocket key task) s = run_websocket key task (find_route key s.wss) s
run_task (user f) s = (s, [])

unfoldable pub turn_of : List Task → Action Server
turn_of [] s = (s, [])
turn_of (task ∷ tasks) s =
    if s.stopped then (s, []) else run_task task (record s { posted = tasks })

-- `run` takes the first task that is posted, unless the context is stopped.
unfoldable pub turn : Action Server
unfolding turn_of
turn s = turn_of s.posted s

unfoldable pub poll : Action Server
poll s = if s.stopped then (s, []) else run_all run_task s.posted (record s { posted = [] })

-- What becomes of a request: a response, or the handshake of the WebSocket at a route.
pub data Outcome : Type 0 where
  responded : Response → Outcome
  upgrading : ℕ → Outcome

-- The functions that the user gives to `on_get`: by their names, what they answer, and what they make of
-- the response.
abbrev pub Answers : Type 0
Answers = ℕ → Request → Response → Bool × Response

-- The loop over the handlers.
unfoldable pub try_handlers : Answers → Request → List (Option ℕ) → Response → Outcome
try_handlers answer request [] response = responded (set_content_type text_plain response)
try_handlers answer request (none ∷ cbs) response = try_handlers answer request cbs response
try_handlers answer request (some cb ∷ cbs) response =
    let rest = try_handlers answer request cbs (answer cb request response).1 in
    if (answer cb request response).0 then responded (answer cb request response).1 else rest

-- `handle_ws`: whether the handshake starts.
unfoldable pub handle_ws : Request → Bool
handle_ws request = request.upgrade

unfoldable pub process_get : Answers → Request → Option WebSocket → Server → Outcome
process_get answer request none s =
    try_handlers answer request s.on_get_cb (record (new_response) { status = bad_request })
process_get answer request (some w) s =
    if handle_ws request
    then upgrading (get_route request)
    else responded (set_content_type text_plain (record (new_response) { status = bad_request }))

unfoldable pub process_request : Answers → Request → Server → Outcome
unfolding process_get
process_request answer request s =
    if request.get
    then process_get answer request (find_route (get_route request) s.wss) s
    else responded (set_content_type text_plain (record (new_response) { status = bad_request }))

unfoldable pub impl_on_get : Option ℕ → Server → Server
impl_on_get f s = record s { on_get_cb = s.on_get_cb ++ f ∷ [] }

unfoldable pub impl_on_ready : Option ℕ → Server → Server
impl_on_ready f s = record s { on_ready_cb = s.on_ready_cb ++ f ∷ [] }
