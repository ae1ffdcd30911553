-- ===== src/Http/WebSocket.antt =====
-- src/src/http/server/WebSocket.cpp: the service at one route of the server. It posts its tasks to the
-- server's executor, to which it has a pointer.
pub mod Delivery
use nil_service.Common.{
  ℕ, Bool, true, false, Option, none, some, List, [], ◌∷◌, ◌++◌, Bytes, if◌then◌else◌,
}
use nil_service.Service.{
  ServiceId, Effect, sent, Handlers, no_handlers, invoke_ready, invoke_connect, invoke_disconnect,
  invoke_message, Action, ◌▷◌, emit, update, run_all,
}
use nil_service.Service.Peers.{
  Peer, remote_id, write_each, write_except, write_to, erase, replace, at,
}
use nil_service.Stream.{Signal, connected, disconnected, message}
use nil_service.Ws.Connection.{Connection, Completion, new, run, complete}

-- What is posted for this service.
pub data Task : Type 0 where
  publish : Bytes → Task
  publish_ex : List ServiceId → Bytes → Task
  send : List ServiceId → Bytes → Task
  disconnect : ServiceId → Task

-- `context` names the executor that the pointer leads to; it is null until the server is ready.
pub record WebSocket : Type 0 where
  pub this : ℕ
  pub impl : ℕ
  pub connections : List (Peer Connection)
  pub handlers : Handlers
  pub context : Option ℕ

abbrev pub to_string_local : ℕ
to_string_local = 1

abbrev pub to_string_remote : ℕ
to_string_remote = 2

abbrev pub remote : WebSocket → ℕ → ServiceId
remote w = remote_id w.impl to_string_remote

unfoldable pub ready : Action WebSocket
ready = emit λ w.
    invoke_ready w.handlers (record { owner = w.this; id = w.this; to_string = to_string_local })

-- `write_payload`: a message is written whole.
abbrev pub write_payload : Bytes → ℕ → Effect
write_payload msg address = sent address msg

unfoldable pub publish_task : Bytes → Action WebSocket
publish_task msg = emit λ w. write_each (remote w) (write_payload msg) w.connections

unfoldable pub publish_ex_task : List ServiceId → Bytes → Action WebSocket
publish_ex_task ids msg = emit λ w. write_except (remote w) (write_payload msg) ids w.connections

unfoldable pub send_task : List ServiceId → Bytes → Action WebSocket
send_task ids msg = emit λ w. write_to (remote w) (write_payload msg) ids w.connections

unfoldable pub disconnect_task : ServiceId → Action WebSocket
disconnect_task id =
    emit (λ w. invoke_disconnect w.handlers id)
    ▷ update λ w. record w { connections = erase (remote w) id w.connections }

unfoldable pub run_task : Task → Action WebSocket
run_task (publish msg) = publish_task msg
run_task (publish_ex ids msg) = publish_ex_task ids msg
run_task (send ids msg) = send_task ids msg
run_task (disconnect id) = disconnect_task id

-- `connect`, `message` and `disconnect`, for one signal: what is called, and what is posted.
unfoldable pub on_signal : ℕ → Signal → WebSocket → List Effect × List Task
on_signal address connected w = (invoke_connect w.handlers (remote w address), [])
on_signal address (message payload) w = (invoke_message w.handlers (remote w address) payload, [])
on_signal address disconnected w = ([], disconnect (remote w address) ∷ [])

unfoldable pub on_signals : ℕ → List Signal → WebSocket → List Effect × List Task
unfolding on_signal
on_signals address [] w = ([], [])
on_signals address (x ∷ xs) w =
    let (out, tasks) = on_signal address x w in
    let (more, rest) = on_signals address xs w in (out ++ more, tasks ++ rest)

-- The end of `async_accept`: a connection at a fresh address.
unfoldable pub accepted : ℕ → ℕ → WebSocket → WebSocket × (List Effect × List Task)
unfolding on_signals
accepted buffer address w =
    let (c, signals) = run (new buffer) in
    (
      record w { connections = w.connections ++ record { address = address; connection = c } ∷ [] },
      on_signals address signals w,
    )

unfoldable pub read_at :
    ℕ → Completion → Option (Peer Connection) → WebSocket → WebSocket × (List Effect × List Task)
unfolding on_signals
read_at address result none w = (w, ([], []))
read_at address result (some c) w =
    let (c', signals) = complete result c.connection in
    (record w { connections = replace address c' w.connections }, on_signals address signals w)

-- The handler of a read of the connection at an address.
unfoldable pub read : ℕ → Completion → WebSocket → WebSocket × (List Effect × List Task)
unfolding read_at
read address result w = read_at address result (at address w.connections) w

abbrev pub add {ℓ} : {A : Type ℓ} → List A → A → List A
add handlers handler = handlers ++ handler ∷ []

unfoldable pub impl_on_message : Option ℕ → WebSocket → WebSocket
impl_on_message f s = record s {
  handlers = record (s.handlers) { on_message_cb = add s.handlers.on_message_cb f };
}

unfoldable pub impl_on_ready : Option ℕ → WebSocket → WebSocket
impl_on_ready f s = record s {
  handlers = record (s.handlers) { on_ready_cb = add s.handlers.on_ready_cb f };
}

unfoldable pub impl_on_connect : Option ℕ → WebSocket → WebSocket
impl_on_connect f s = record s {
  handlers = record (s.handlers) { on_connect_cb = add s.handlers.on_connect_cb f };
}

unfoldable pub impl_on_disconnect : Option ℕ → WebSocket → WebSocket
impl_on_disconnect f s = record s {
  handlers = record (s.handlers) { on_disconnect_cb = add s.handlers.on_disconnect_cb f };
}
