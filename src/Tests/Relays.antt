-- ===== src/Tests/Relays.antt =====
-- The server over WebSocket.
use nil_service.Common.{◌≡◌, refl, true, false, none, some, [], ◌∷◌}
use nil_service.Service.{
  ServiceId, Handlers, no_handlers, on_ready, on_message, called, invoke, invoke_message,
}
use nil_service.Stream
use nil_service.Http.WebSocket
use nil_service.Http.WebSocket.{WebSocket, on_signals}
use nil_service.Ws.Server
use nil_service.Ws.Server.{WsServer, left, poll, repeat_all, repeat_call}
use nil_service.Ws.Server.Relay.{hearing, one_each, repeat_all_lem, repeat_call-throws}
use nil_service.Ws.Server.Ready.{with_callbacks, id_of, poll-create}

-- Two functions for messages and one for readiness.
abbrev functions : Handlers
functions = record (no_handlers) { on_message_cb = some 4 ∷ some 5 ∷ []; on_ready_cb = some 6 ∷ [] }

abbrev socket : WebSocket
socket = record { this = 7; impl = 8; connections = []; handlers = no_handlers; context = some 0 }

repeat_all_lem_example :
    (repeat_all functions (on_signals 9 (Stream.message (1 ∷ []) ∷ []) (hearing one_each socket)).0
      ≡ ((on_signals 9 (Stream.message (1 ∷ []) ∷ []) (hearing functions socket)).0, false))
    × (repeat_all functions
          (WebSocket.run_task (WebSocket.publish (2 ∷ [])) (hearing one_each socket)).1
        ≡ ((WebSocket.run_task (WebSocket.publish (2 ∷ [])) (hearing functions socket)).1, false))
    × (repeat_all functions (WebSocket.ready (hearing one_each socket)).1
        ≡ ((WebSocket.ready (hearing functions socket)).1, false))
repeat_all_lem_example =
    repeat_all_lem functions socket 9 (Stream.message (1 ∷ []) ∷ []) (WebSocket.publish (2 ∷ []))
      (tt, tt, tt, tt)

-- The second function for messages is empty.
abbrev holed : Handlers
holed = record (no_handlers) { on_message_cb = some 4 ∷ none ∷ some 5 ∷ [] }

abbrev id : ServiceId
id = record { owner = 8; id = 9; to_string = 2 }

repeat_call-throws_example :
    (repeat_call holed (on_message 0 id (1 ∷ [])) ≡ (called (on_message 4 id (1 ∷ [])) ∷ [], true))
    × (invoke_message holed id (1 ∷ [])
        ≡ called (on_message 4 id (1 ∷ [])) ∷ called (on_message 5 id (1 ∷ [])) ∷ [])
unfolding invoke
repeat_call-throws_example =
    repeat_call-throws holed (some 4 ∷ []) (some 5 ∷ []) 0 id (1 ∷ []) refl tt

poll-create_example :
    (s : WsServer) × (poll (with_callbacks functions (Server.create 1 16 3 7 8))
      ≡ left s (called (on_ready 6 (id_of 7)) ∷ []))
    × (s.sessions.server.accepting ≡ true)
unfolding invoke
poll-create_example = poll-create 1 16 3 7 8 functions (tt, tt, tt, tt)
