-- ===== src/Tests/Exchanges.antt =====
-- A client and a server of src/src/tcp, and of src/src/udp, that talk to each other.
use nil_service.Common.{◌≡◌, refl, true, some, List, [], ◌∷◌, arith, Bytes}
use nil_service.Codec.{little, big, to_array, digits}
use nil_service.Service.{called, on_message, no_handlers, same_id, contains_id, invoke, run_all}
use nil_service.Service.Peers.{
  Peer, at, write_each, write_except, write_to, write_found, find_connection, erase,
}
use nil_service.Service.Peers.Delivery.{times}
use nil_service.Tcp.Connection.{Connection, run, new, offered}
use nil_service.Tcp.Client
use nil_service.Tcp.Server
use nil_service.Tcp.Server.Delivery.{reading_events}
use nil_service.Tcp.Client.Delivery
use nil_service.Tcp.Exchange.ToServer.{reading-poll}
use nil_service.Tcp.Exchange.ToClient.{reading-poll_server}
use nil_service.Udp.{external}
use nil_service.Udp.Client as UdpClient
use nil_service.Udp.Server as UdpServer
use nil_service.Tests.Connections.{fresh, fresh-IsValid, chunks, chunks-Fits}
use nil_service.Tests.Datagrams
use nil_service.Tests.Servers.{peer, server}

-- The client's end of the connection, at address 5.
abbrev end : Peer Connection
end = record { address = 5; connection = (run (new 16)).0 }

-- It publishes a message, another to all but the server, and asks to be disconnected.
abbrev client : Client.Client
client = record (Client.create 3 4 16) {
  connection = some end;
  posted =
      Client.publish (7 ∷ 8 ∷ [])
      ∷ Client.publish_ex (record { owner = 4; id = 5; to_string = 2 } ∷ []) (9 ∷ [])
      ∷ Client.disconnect 5
      ∷ Client.publish (9 ∷ [])
      ∷ [];
}

reading-poll_example :
    (Server.run_events little (reading_events 7 chunks) server).1
    ≡ called (on_message 5 (Server.remote server 7) (7 ∷ 8 ∷ [])) ∷ []
unfolding at invoke same_id contains_id Client.create Client.connect Client.poll Client.run_task
    Client.write_if_connected Client.has_remote_id Client.disconnect_at Client.reconnect run_all
    offered to_array digits
reading-poll_example =
    reading-poll big little client end server peer 7 chunks refl refl refl fresh-IsValid refl
      (omega arith, tt) chunks-Fits refl

-- A client of udp publishes two messages.
abbrev publisher : UdpClient.Client
publisher = record (Datagrams.client true) {
  posted = UdpClient.publish (7 ∷ []) ∷ UdpClient.publish (8 ∷ []) ∷ [];
}

-- The second arrives twice, before and after the first.
abbrev arrived : List Bytes
arrived = external little (8 ∷ []) ∷ external little (7 ∷ []) ∷ external little (8 ∷ []) ∷ []

-- A server that publishes a message to all but the client, sends it another, and disconnects it.
abbrev sender : Server.Server
sender = record (server) {
  posted =
      Server.publish_ex (Server.remote server 7 ∷ []) (9 ∷ [])
      ∷ Server.send (Server.remote server 7 ∷ []) (7 ∷ 8 ∷ [])
      ∷ Server.disconnect (Server.remote server 7)
      ∷ Server.publish (9 ∷ [])
      ∷ [];
}

abbrev listener_end : Peer Connection
listener_end = record { address = 5; connection = fresh }

abbrev listener : Client.Client
listener = record (client) {
  connection = some listener_end;
  handlers = record (no_handlers) { on_message_cb = some 6 ∷ [] };
}

reading-poll_server_example :
    (Client.run_events little (Delivery.reading_events chunks) listener).1
    ≡ called (on_message 6 (Client.remote listener 5) (7 ∷ 8 ∷ [])) ∷ []
unfolding at invoke same_id contains_id Client.create Client.connect Server.poll Server.run_task
    Server.publish_task Server.publish_ex_task Server.send_task Server.disconnect_task write_each
    write_except write_to write_found find_connection erase times run_all offered to_array digits
reading-poll_server_example =
    reading-poll_server big little sender 7 peer listener_end listener chunks refl (tt, tt) refl
      refl fresh-IsValid refl (omega arith, tt) chunks-Fits refl
