-- ===== src/Tests/Web.antt =====
-- A server for requests and WebSocket connections.
use nil_service.Common.{
  arith, List, ◌≡◌, refl, true, false, none, some, [], ◌∷◌, ◌==◌, if◌then◌else◌,
}
use nil_service.Service.{no_handlers, run_all}
use nil_service.Service.Peers.{Peer}
use nil_service.Ws.Connection.{Connection, failed, run, new}
use nil_service.Ws.Client
use nil_service.Ws.Client.Activity.{FitsEvents, run_events-IsActive}
use nil_service.Ws.Client.Waiting.{IsActive}
use nil_service.Http.WebSocket
use nil_service.Http.WebSocket.{WebSocket, remote}
use nil_service.Http.Server.{
  Server, Request, Answers, responded, ok, find_route, get_route, process_request, ready_task,
  restart, request, dispatch, websocket,
}
use nil_service.Http.Server.Routing.{process_request-first}
use nil_service.Http.Server.Restart.{restart-dangles}

abbrev peer : Peer Connection
peer = record { address = 7; connection = record { buffer = 16; reading = true } }

abbrev socket : WebSocket
socket = record {
  this = 1;
  impl = 2;
  connections = peer ∷ [];
  handlers = no_handlers;
  context = some 0;
}

-- The server with the WebSocket at route 3 and two handlers of requests.
abbrev server : Server
server = record {
  this = 1;
  buffer = 16;
  context = 0;
  wss = record { route = 3; ws = socket } ∷ [];
  on_get_cb = some 10 ∷ some 11 ∷ [];
  on_ready_cb = [];
  posted = [];
  stopped = false;
  accepting = true;
}

-- The handler 11 sends a body, the handler 10 refuses.
abbrev answers : Answers
answers cb request response =
    if cb == 11 then (true, record response { status = ok; body = 5 ∷ [] }) else (false, response)

abbrev nobody : Answers
nobody cb request response = (false, response)

abbrev get : Request
get = record { get = true; target = 4; upgrade = false }

process_request-first_example :
    process_request answers get server
    ≡ responded (record { status = ok; content_type = none; body = 5 ∷ [] })
unfolding find_route get_route
process_request-first_example =
    process_request-first answers get server (some 10 ∷ []) [] 11 refl refl refl (refl, tt) refl

restart-dangles_example :
    (request 3 (WebSocket.publish (9 ∷ [])) (restart server) ≡ none)
    × (request 3 (WebSocket.publish (9 ∷ [])) (ready_task (restart server)).0
        ≡ some
            (dispatch (websocket 3 (WebSocket.publish (9 ∷ []))) (ready_task (restart server)).0))
unfolding find_route
restart-dangles_example = restart-dangles 3 (WebSocket.publish (9 ∷ [])) socket server refl refl

-- An attempt succeeds, its handshake fails, the timer expires, the next attempt and its handshake
-- succeed, a read fails and the connection is given up.
abbrev client_events : List Client.Event
client_events =
    Client.connects true
    ∷ Client.shakes none
    ∷ Client.expires
    ∷ Client.connects true
    ∷ Client.shakes (some 7)
    ∷ Client.reads failed
    ∷ Client.turns
    ∷ []

client_events-FitsEvents : FitsEvents client_events (Client.create 1 2 16)
unfolding Client.create Client.step Client.connected_to Client.handshaken Client.expired Client.read
    run new Client.on_signal run_all
client_events-FitsEvents =
    (omega arith, (omega arith, (tt, (omega arith, (omega arith, (refl, (tt, tt)))))))

run_events-IsActive_example : IsActive (Client.run_events client_events (Client.create 1 2 16)).0
run_events-IsActive_example = run_events-IsActive 1 2 16 client_events client_events-FitsEvents
