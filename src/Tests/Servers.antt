-- ===== src/Tests/Servers.antt =====
-- Services over tcp with one connection.
use nil_service.Common.{true, false, some, List, [], ◌∷◌, arith}
use nil_service.Codec.{little}
use nil_service.Service.{no_handlers, run_all}
use nil_service.Service.Peers.{Peer, at}
use nil_service.Tcp.Connection.{Connection, failed, closed, run}
use nil_service.Tcp.Server.{
  Server, disconnect, remote, create, run_task, Event, turns, accepts, reads, step, run_events,
  turn, accepted, read, on_signal, ready_task,
}
use nil_service.Tcp.Server.Invariant.{IsValid, FitsEvents}
use nil_service.Tcp.Server.Invariant.Preservation.{run_events-IsValid}
use nil_service.Tests.Connections.{fresh}

-- A socket is accepted at address 7, its first read fails, and the task that this has posted runs.
abbrev events : List Event
events = turns ∷ accepts (some 7) ∷ reads 7 failed ∷ turns ∷ []

events-FitsEvents : FitsEvents little events (create 1 2 16)
unfolding create step turn accepted read at run_task ready_task run_all run on_signal
events-FitsEvents = (tt, (tt, (tt, (tt, tt))))

run_events-IsValid_example : IsValid (run_events little events (create 1 2 16)).0
run_events-IsValid_example = run_events-IsValid little 1 2 16 events (omega arith) events-FitsEvents

abbrev pub peer : Peer Connection
peer = record { address = 7; connection = fresh }

abbrev pub server : Server
server = record {
  this = 1;
  impl = 2;
  buffer = 16;
  connections = peer ∷ [];
  handlers = record (no_handlers) { on_message_cb = some 5 ∷ [] };
  posted = [];
  stopped = false;
  accepting = true;
}

-- The same with a connection whose read has failed.
abbrev ended : Peer Connection
ended = record { address = 7; connection = record (fresh) { reading = closed } }

abbrev closing : Server
closing = record (server) { connections = ended ∷ []; posted = disconnect (remote server 7) ∷ [] }
