-- ===== src/Ws/Server/Ready.antt =====
-- The start of the service of src/src/ws/server/create.cpp.
use nil_service.Common.{
  ℕ, ◌≡◌, ◌∙◌, refl, ap, true, Option, none, some, List, [], ◌∷◌, if-true, ◌==◌, ==-self,
  append-nil,
}
use nil_service.Service.{
  ServiceId, on_ready, called, Handlers, no_handlers, invoke, invoke_ready, run_all,
}
use nil_service.Http.WebSocket
use nil_service.Http.WebSocket.{WebSocket}
use nil_service.Http.Server
use nil_service.Http.Server.{
  Route, Server, ready, find_route, replace_route, use_ws, use_ws_at, announce, accept, ready_task,
  run_task,
}
use nil_service.Http.Sessions
use nil_service.Http.Sessions.{Sessions, polls}
use nil_service.Ws.Server.{
  WsServer, left, attach_to, attach_callbacks, create, repeat_call, repeat_effect, repeat_all,
  finish, through, poll, attached,
}
use nil_service.Ws.Server.Relay.{AllLive, one_each, call_each-live}

-- The WebSocket of a new service.
abbrev pub socket : ℕ → ℕ → Option ℕ → WebSocket
socket this impl context = record {
  this = this;
  impl = impl;
  connections = [];
  handlers = one_each;
  context = context;
}

-- Its HTTP server, with the WebSocket at its route.
abbrev pub server_with : ℕ → ℕ → ℕ → WebSocket → Server
server_with this buffer key w = record (Server.create this buffer) {
  wss = record { route = key; ws = w } ∷ [];
}

attach_callbacks-use_ws :
    (this buffer key ws_this ws_impl : ℕ)
    → attach_callbacks key (use_ws key ws_this ws_impl (Server.create this buffer))
      ≡ server_with this buffer key (socket ws_this ws_impl none)
unfolding attach_callbacks attach_to use_ws use_ws_at find_route replace_route Server.create
    WebSocket.impl_on_message WebSocket.impl_on_ready WebSocket.impl_on_connect
    WebSocket.impl_on_disconnect
attach_callbacks-use_ws this buffer key ws_this ws_impl =
    let w : WebSocket = record (socket ws_this ws_impl none) { handlers = no_handlers } in
    ap (λ o. attach_to o key (server_with this buffer key w))
      (if-true (key == key) (some w) none (==-self key))
    ∙ ap (λ (rs : List Route). record (Server.create this buffer) { wss = rs })
        (if-true (key == key) (record { route = key; ws = socket ws_this ws_impl none } ∷ [])
          (record { route = key; ws = w } ∷ []) (==-self key))

-- A service with these functions.
abbrev pub with_callbacks : Handlers → WsServer → WsServer
with_callbacks hs s = record s { callbacks = hs }

abbrev pub id_of : ℕ → ServiceId
id_of ws_this = record { owner = ws_this; id = ws_this; to_string = WebSocket.to_string_local }

finish-ready :
    (hs : Handlers) (ws_this : ℕ) (sessions : Sessions) (s : WsServer)
    → AllLive hs
    → finish
        (some (sessions, called (on_ready attached (id_of ws_this)) ∷ []))
        (with_callbacks hs s)
      ≡ left
          (record (with_callbacks hs s) { sessions = sessions })
          (invoke_ready hs (id_of ws_this))
unfolding finish repeat_all repeat_effect repeat_call
finish-ready hs ws_this sessions s live =
    rw (call_each-live (λ cb. on_ready cb (id_of ws_this)) hs.on_ready_cb live.0) (
      ap (left (record (with_callbacks hs s) { sessions = sessions }))
        (append-nil (invoke_ready hs (id_of ws_this))))

-- A service over sessions that have just been made.
abbrev pub over : ℕ → Handlers → Server → WsServer
over key hs v = record {
  sessions = record { server = v; transactions = []; handshakes = [] };
  key = key;
  callbacks = hs;
}

-- The server after its announcement.
abbrev pub announced : ℕ → ℕ → ℕ → WebSocket → Server
announced this buffer key w = record (server_with this buffer key w) {
  posted = [];
  accepting = true;
}

poll-over :
    (this buffer key ws_this ws_impl : ℕ) (hs : Handlers)
    → AllLive hs
    → poll (over key hs (server_with this buffer key (socket ws_this ws_impl none)))
      ≡ left
          (over key hs (announced this buffer key (socket ws_this ws_impl (some 0))))
          (invoke_ready hs (id_of ws_this))
unfolding poll through Sessions.step Server.poll run_all run_task ready_task announce accept
    WebSocket.ready invoke Server.create
poll-over this buffer key ws_this ws_impl hs live =
    finish-ready hs ws_this
      (over key hs (announced this buffer key (socket ws_this ws_impl (some 0)))).sessions
      (over key hs (server_with this buffer key (socket ws_this ws_impl none))) live

-- The first poll of a new service whose functions are not empty calls each of its functions for readiness
-- once, in order, with the identity of the WebSocket, calls nothing else, and leaves the service
-- accepting.
pub poll-create :
    (this buffer key ws_this ws_impl : ℕ) (hs : Handlers)
    → AllLive hs
    → (s : WsServer) × (poll (with_callbacks hs (create this buffer key ws_this ws_impl))
        ≡ left s (invoke_ready hs (id_of ws_this)))
      × (s.sessions.server.accepting ≡ true)
unfolding create Sessions.create
poll-create this buffer key ws_this ws_impl hs live = (
  over key hs (announced this buffer key (socket ws_this ws_impl (some 0))),
  ap (λ v. poll (over key hs v)) (attach_callbacks-use_ws this buffer key ws_this ws_impl)
      ∙ poll-over this buffer key ws_this ws_impl hs live,
  refl,
)
