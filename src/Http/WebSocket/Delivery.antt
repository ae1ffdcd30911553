-- ===== src/Http/WebSocket/Delivery.antt =====
-- Whom the messages of src/src/http/server/WebSocket.cpp reach.
use nil_service.Common.{ℕ, ◌≡◌, ap, ◌∙◌, some, List, Bytes, if◌then◌else◌}
use nil_service.Service.{ServiceId, contains_id}
use nil_service.Service.Peers.{Peer, addresses, at}
use nil_service.Service.Peers.Delivery.{
  Distinct, writes_of, times, occurs-at, writes_of-write_each, writes_of-write_except,
  writes_of-write_to,
}
use nil_service.Ws.Connection.{Connection}
use nil_service.Http.WebSocket.{
  WebSocket, publish, publish_ex, send, run_task, publish_task, publish_ex_task, send_task,
  to_string_remote, remote,
}

-- If no two connections share an address, the task of `publish` writes once to each connection, that
-- of `publish_ex` once unless its identity is named, and that of `send` as often as its identity is
-- named.
pub writes_of-websocket :
    (w : WebSocket) (b : ℕ) (c : Peer Connection) (ids : List ServiceId) (msg : Bytes)
    → Distinct (addresses w.connections)
    → at b w.connections ≡ some c
    → (writes_of b (run_task (publish msg) w).1 ≡ 1)
      × (writes_of b (run_task (publish_ex ids msg) w).1
          ≡ (if contains_id ids (remote w b) then 0 else 1))
      × (writes_of b (run_task (send ids msg) w).1 ≡ times (remote w b) ids)
unfolding run_task publish_task publish_ex_task send_task
writes_of-websocket w b c ids msg d q = (
  writes_of-write_each w.impl to_string_remote msg b w.connections
      ∙ occurs-at b c w.connections d q,
  writes_of-write_except w.impl to_string_remote msg b ids w.connections
      ∙ ap (λ (n : ℕ). if contains_id ids (remote w b) then 0 else n)
          (occurs-at b c w.connections d q),
  writes_of-write_to w.impl to_string_remote msg b ids w.connections ∙ rw q,
)
