-- ===== src/Tests/Sessions.antt =====
-- The HTTP server in motion, and the server over WebSocket.
use nil_service.Common.{◌≤◌, ◌≡◌, refl, true, false, none, some, List, [], ◌∷◌, All, length}
use nil_service.Ws.Connection
use nil_service.Ws.Connection.{failed, received, new, run}
use nil_service.Http.WebSocket
use nil_service.Http.WebSocket.{WebSocket, on_signals}
use nil_service.Http.Server
use nil_service.Http.Server.{Answers, Request, find_route}
use nil_service.Http.Transaction
use nil_service.Http.Transaction.{was_read, wrote, expired, run_events}
use nil_service.Http.Transaction.Answering.{IsMeasured, IsTimed, run_events-answer}
use nil_service.Http.Sessions
use nil_service.Http.Sessions.{
  create, Event, polls, restarts, accepts, transacts, handshakes_end, reads, requests, uses_ws,
  handshake_end, read,
}
use nil_service.Http.Sessions.Late.{added, use_ws-crashes}

abbrev nobody : Answers
nobody cb request response = (false, response)

-- A request for the WebSocket at route 3.
abbrev upgrade : Request
upgrade = record { get = true; target = 3; upgrade = true }

-- A request is read, refused and answered, and then the deadline is no longer there to expire.
abbrev refused : List Transaction.Event
refused = was_read nobody upgrade (Server.create 1 16) ∷ wrote ∷ expired ∷ []

run_events-answer_example :
    (length (run_events refused (Transaction.run Transaction.new)).1 ≤ 1)
    × All IsMeasured (run_events refused (Transaction.run Transaction.new)).1
    × IsTimed (run_events refused (Transaction.run Transaction.new)).0
run_events-answer_example = run_events-answer refused

-- A server with a WebSocket announces itself and accepts; a client connects, its handshake succeeds, it
-- sends a message, is written to and leaves; the server restarts and announces itself again.
abbrev events : List Event
events =
    uses_ws 3 7 8
    ∷ polls
    ∷ accepts 20
    ∷ transacts 20 21 (was_read nobody upgrade (Server.create 1 16))
    ∷ handshakes_end true 21 22
    ∷ reads 3 22 (received (5 ∷ []))
    ∷ requests 3 (WebSocket.publish (9 ∷ []))
    ∷ polls
    ∷ reads 3 22 failed
    ∷ polls
    ∷ restarts
    ∷ polls
    ∷ []

use_ws-crashes_example :
    (r : Sessions.Sessions) × (handshake_end true 3 22
        (find_route 3 (added 3 7 8 (create 1 16)).server.wss)
        (added 3 7 8 (create 1 16))
      ≡ some (r, []))
    × (read 3 22 failed r ≡ none)
unfolding find_route create Server.create
use_ws-crashes_example = use_ws-crashes 3 7 8 22 (create 1 16) refl
