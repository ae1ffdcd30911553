-- ===== src/Ws/Server.antt =====
-- src/src/ws/server/create.cpp: an HTTP server with one WebSocket, whose calls it repeats for its own
-- callbacks.
pub mod Relay
pub mod Ready
use nil_service.Common.{
  ℕ, Bool, true, false, Option, none, some, List, [], ◌∷◌, ◌++◌, Bytes, if◌then◌else◌,
}
use nil_service.Service.{
  ServiceId, Call, on_ready, on_connect, on_disconnect, on_message, Effect, called, sent, Handlers,
  no_handlers,
}
use nil_service.Http.WebSocket
use nil_service.Http.WebSocket.{WebSocket}
use nil_service.Http.Server
use nil_service.Http.Server.{Server, find_route, replace_route, use_ws}
use nil_service.Http.Sessions
use nil_service.Http.Sessions.{Sessions, Result}

-- `ws` points to the WebSocket at the route with this key.
pub record WsServer : Type 0 where
  pub sessions : Sessions
  pub key : ℕ
  pub callbacks : Handlers

-- How code ends: it has used a pointer that is null or dangles, an exception has left the executor after
-- some calls, or it has left a state.
pub data Outcome : Type 0 where
  crashed : Outcome
  threw : List Effect → Outcome
  left : WsServer → List Effect → Outcome

-- The lambdas of `attach_callbacks` have this name at the WebSocket.
abbrev pub attached : ℕ
attached = 0

unfoldable pub attach_to : Option WebSocket → ℕ → Server → Server
attach_to none key s = s
attach_to (some w) key s = record s {
  wss =
      replace_route key
        (WebSocket.impl_on_ready (some attached) (
          WebSocket.impl_on_disconnect (some attached) (
            WebSocket.impl_on_connect (some attached)
              (WebSocket.impl_on_message (some attached) w))))
        s.wss;
}

unfoldable pub attach_callbacks : ℕ → Server → Server
unfolding attach_to
attach_callbacks key s = attach_to (find_route key s.wss) key s

-- The constructor; the WebSocket is at the addresses that are given.
unfoldable pub create : ℕ → ℕ → ℕ → ℕ → ℕ → WsServer
unfolding attach_callbacks
create this buffer key ws_this ws_impl = record {
  sessions = record (Sessions.create this buffer) {
    server = attach_callbacks key (use_ws key ws_this ws_impl (Server.create this buffer));
  };
  key = key;
  callbacks = no_handlers;
}

-- The loops of the lambdas do not look whether a function is empty: the call of one throws. The second
-- component tells that this has happened.
unfoldable pub call_each : (ℕ → Call) → List (Option ℕ) → List Effect × Bool
call_each call [] = ([], false)
call_each call (none ∷ cbs) = ([], true)
call_each call (some cb ∷ cbs) =
    let (out, thrown) = call_each call cbs in (called (call cb) ∷ out, thrown)

unfoldable pub repeat_call : Handlers → Call → List Effect × Bool
repeat_call hs (on_ready f id) = call_each (λ cb. on_ready cb id) hs.on_ready_cb
repeat_call hs (on_connect f id) = call_each (λ cb. on_connect cb id) hs.on_connect_cb
repeat_call hs (on_disconnect f id) = call_each (λ cb. on_disconnect cb id) hs.on_disconnect_cb
repeat_call hs (on_message f id payload) =
    call_each (λ cb. on_message cb id payload) hs.on_message_cb

unfoldable pub repeat_effect : Handlers → Effect → List Effect × Bool
unfolding repeat_call
repeat_effect hs (called call) = repeat_call hs call
repeat_effect hs (sent a payload) = (sent a payload ∷ [], false)

-- What the effects of the WebSocket come to; nothing happens after an exception.
unfoldable pub repeat_all : Handlers → List Effect → List Effect × Bool
repeat_all hs [] = ([], false)
repeat_all hs (x ∷ xs) =
    let (out, thrown) = repeat_effect hs x in
    let (more, thrown') = repeat_all hs xs in if thrown then (out, true) else (out ++ more, thrown')

unfoldable pub finish : Result → WsServer → Outcome
finish none s = crashed
finish (some (sessions, effects)) s =
    let (out, thrown) = repeat_all s.callbacks effects in
    if thrown then threw out else left (record s { sessions = sessions }) out

-- What the server and its WebSocket do on an event.
unfoldable pub through : Sessions.Event → WsServer → Outcome
unfolding finish
through x s = finish (Sessions.step x s.sessions) s

unfoldable pub publish : Bytes → WsServer → Outcome
publish payload s = through (Sessions.requests s.key (WebSocket.publish payload)) s

unfoldable pub publish_ex : List ServiceId → Bytes → WsServer → Outcome
publish_ex ids payload s = through (Sessions.requests s.key (WebSocket.publish_ex ids payload)) s

unfoldable pub send : List ServiceId → Bytes → WsServer → Outcome
send ids payload s = through (Sessions.requests s.key (WebSocket.send ids payload)) s

-- `run` takes one task after the other.
unfoldable pub turn : WsServer → Outcome
turn s = through Sessions.turns s

unfoldable pub poll : WsServer → Outcome
poll s = through Sessions.polls s

unfoldable pub stop : WsServer → Outcome
stop s = through Sessions.stops s

unfoldable pub restart : WsServer → Outcome
restart s = through Sessions.restarts s

unfoldable pub dispatch : ℕ → WsServer → Outcome
dispatch f s = through (Sessions.dispatches f) s

abbrev pub add {ℓ} : {A : Type ℓ} → List A → A → List A
add handlers handler = handlers ++ handler ∷ []

unfoldable pub impl_on_message : Option ℕ → WsServer → WsServer
impl_on_message f s = record s {
  callbacks = record (s.callbacks) { on_message_cb = add s.callbacks.on_message_cb f };
}

unfoldable pub impl_on_ready : Option ℕ → WsServer → WsServer
impl_on_ready f s = record s {
  callbacks = record (s.callbacks) { on_ready_cb = add s.callbacks.on_ready_cb f };
}

unfoldable pub impl_on_connect : Option ℕ → WsServer → WsServer
impl_on_connect f s = record s {
  callbacks = record (s.callbacks) { on_connect_cb = add s.callbacks.on_connect_cb f };
}

unfoldable pub impl_on_disconnect : Option ℕ → WsServer → WsServer
impl_on_disconnect f s = record s {
  callbacks = record (s.callbacks) { on_disconnect_cb = add s.callbacks.on_disconnect_cb f };
}
