-- ===== src/Udp/Server/Delivery.antt =====
-- What src/src/udp/server/create.cpp makes of a datagram, and whom its messages reach.
use nil_service.Common.{
  ℕ, ◌≡◌, refl, ap, ◌∙◌, Option, none, some, true, false, List, [], Bytes, drop,
}
use nil_service.Codec.{Endian}
use nil_service.Service.{Effect, invoke_message}
use nil_service.Service.Peers.{Peer}
use nil_service.Udp.{external}
use nil_service.Udp.Datagram.{external-parts}
use nil_service.Udp.Server.{
  Connection, Server, find_endpoint, external_message, message, complete, received, receive, remote,
}

-- The calls of the message handlers for a datagram, if its sender has a connection.
abbrev pub heard_from : Server → Bytes → Option (Peer Connection) → List Effect
heard_from s msg none = []
heard_from s msg (some c) = invoke_message s.handlers (remote s.this c.address) msg

external_message-heard :
    (msg : Bytes) (found : Option (Peer Connection)) (s : Server)
    → external_message msg found s ≡ (s, heard_from s (drop 1 msg) found)
unfolding external_message
external_message-heard msg none s = refl
external_message-heard msg (some c) s = refl

-- A message datagram is handed without its marker to every message handler, with the identity of
-- the connection of its sender, if there is one, and is dropped if there is none. Neither changes
-- the server.
pub message-external :
    (e e' : Endian) (fresh p : ℕ) (msg : Bytes) (s : Server)
    → message e fresh p (external e' msg) s ≡ (s, heard_from s msg (find_endpoint p s.connections))
unfolding message
message-external e e' fresh p msg s =
    let (long, marker, rest) = external-parts e e' msg in
    rw (long, marker)
      (external_message-heard (external e' msg) (find_endpoint p s.connections) s
        ∙ ap (λ (m : Bytes). (s, heard_from s m (find_endpoint p s.connections))) rest)

-- The receive of such a datagram ends, and the next one is outstanding.
pub complete-external :
    (e e' : Endian) (fresh p : ℕ) (msg : Bytes) (s : Server)
    → complete e (received fresh p (external e' msg)) s
      ≡ (record s { receiving = true }, heard_from s msg (find_endpoint p s.connections))
unfolding complete receive
complete-external e e' fresh p msg s =
    ap (λ (r : Server × List Effect). (receive r.0, r.1))
      (message-external e e' fresh p msg (record s { receiving = false }))
