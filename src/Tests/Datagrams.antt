-- ===== src/Tests/Datagrams.antt =====
-- Services over udp with a connection, and services over pipes.
use nil_service.Common.{replicate, ◌≡◌, refl, Bool, true, false, some, List, [], ◌∷◌, ◌++◌, arith}
use nil_service.Codec.{little, big}
use nil_service.Service.{Handlers}
use nil_service.Service.Peers.{Peer}
use nil_service.Udp.{probe}
use nil_service.Udp.Server
use nil_service.Udp.Server.Invariant.{FitsEvents, run_events-Keeps}
use nil_service.Udp.Server.Handling.{Keeps, IsHeard}
use nil_service.Udp.Client
use nil_service.Udp.Client.Session.{run_events-KeepsSession}
use nil_service.Udp.Client.Telling.{KeepsSession}
use nil_service.Udp.Client.Restart.{restart-silent}
use nil_service.Pipe
use nil_service.Pipe.Opening
use nil_service.Pipe.Hearing.{KeepsPeer}
use nil_service.Pipe.Session.Events.{run_events-KeepsPeer}
use nil_service.Pipe.Notify.{readies, never_ready}

-- One callback of each kind.
abbrev handlers : Handlers
handlers = record {
  on_message_cb = some 1 ∷ [];
  on_ready_cb = some 2 ∷ [];
  on_connect_cb = some 3 ∷ [];
  on_disconnect_cb = some 4 ∷ [];
}

-- The server at address 10 with a connection at address 7 for endpoint 90.
abbrev peer : Peer Server.Connection
peer = record { address = 7; connection = record { endpoint = 90; waiting = true } }

abbrev pub server : Server.Server
server = record {
  this = 10;
  connections = peer ∷ [];
  handlers = handlers;
  posted = [];
  stopped = false;
  receiving = true;
}

server-IsSound : Server.Handling.IsValid server
server-IsSound = record { distinct = (tt, tt); separate = (tt, tt); waiting = (refl, tt) }

server-IsHeard : IsHeard server
server-IsHeard = record { connect_heard = refl; disconnect_heard = refl }

-- A probe from endpoint 91, and the end of the wait for endpoint 90.
abbrev server_events : List Server.Event
server_events = Server.completes (Server.received 8 91 (1 ∷ [])) ∷ Server.expires 7 ∷ []

server_events-FitsEvents : FitsEvents little server_events server
server_events-FitsEvents = ((omega arith, tt), (tt, tt))

run_events-Keeps_example : Keeps 7 server (Server.run_events little server_events server)
run_events-Keeps_example =
    run_events-Keeps 7 little server_events server server-IsSound server-IsHeard
      server_events-FitsEvents

-- The client at address 20 of a server at endpoint 80.
abbrev pub client : Bool → Client.Client
client connected = record {
  this = 20;
  server = 80;
  connected = connected;
  handlers = handlers;
  posted = [];
  stopped = false;
  open_ = true;
  receiving = true;
  pinging = true;
  waiting = connected;
}

abbrev opening : Client.Opening
opening = record { address_ok = true; open_ok = true; option_ok = true }

-- A probe comes back, and then the time runs out.
abbrev client_events : List Client.Event
client_events = Client.completes (Client.received (1 ∷ [])) ∷ Client.times_out opening ∷ []

run_events-KeepsSession_example :
    KeepsSession (client false) (Client.run_events little client_events (client false))
run_events-KeepsSession_example =
    run_events-KeepsSession little client_events (client false)
      (record { connect_heard = refl; disconnect_heard = refl; timed = refl }) (tt, (tt, tt))

restart-silent_example :
    ((Client.message little (probe big) (Client.restart little opening (client true)).0).1 ≡ [])
    × ((Client.restart little opening (client true)).0.waiting ≡ false)
restart-silent_example = restart-silent little big opening (client true) refl

-- A service whose user asks to be told that it is ready, and to which a peer then connects.
abbrev pipe_events : List Pipe.Event
pipe_events =
    Pipe.hears_ready (some 2)
    ∷ Pipe.completes Opening.no_fd (Pipe.received (0 ∷ 0 ∷ 0 ∷ 0 ∷ 0 ∷ 0 ∷ 0 ∷ 0 ∷ []))
    ∷ Pipe.restarts (Opening.fd 3) (Opening.fd 4)
    ∷ []

never_ready_example :
    readies (
      (Pipe.create 30 16 true true (Opening.fd 3) (Opening.fd 4)).1
      ++ (Pipe.run_events little pipe_events
          (Pipe.create 30 16 true true (Opening.fd 3) (Opening.fd 4)).0).1)
    ≡ 0
never_ready_example = never_ready little 30 16 true true (Opening.fd 3) (Opening.fd 4) pipe_events

-- A service at address 30 with a reader and a writer, and a header that is awaited.
abbrev pipe : Opening.Pipe
pipe = record {
  this = 30;
  buffer = 16;
  make_read = true;
  make_write = true;
  reader = some 3;
  writer = some 4;
  r_buffer = replicate 24 0;
  reading = Opening.header 0 8;
  ready_notified = true;
  connected = false;
  read_loop_active = true;
  handlers = handlers;
  posted = [];
  stopped = false;
  retry = Opening.off;
  probe = true;
}

-- A probe of the peer comes, the peer closes its end, and there is no other reader.
abbrev peer_events : List Pipe.Event
peer_events =
    Pipe.completes Opening.no_fd (Pipe.received (0 ∷ 0 ∷ 0 ∷ 0 ∷ 0 ∷ 0 ∷ 0 ∷ 0 ∷ []))
    ∷ Pipe.completes Opening.no_fd (Pipe.failed Pipe.broken)
    ∷ []

run_events-KeepsPeer_example : KeepsPeer pipe (Pipe.run_events little peer_events pipe)
run_events-KeepsPeer_example =
    run_events-KeepsPeer little peer_events pipe
      (record { connect_heard = refl; disconnect_heard = refl }) (tt, (tt, tt))
