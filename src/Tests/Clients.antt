-- ===== src/Tests/Clients.antt =====
-- A client of src/src/tcp/client/create.cpp.
use nil_service.Common.{none, some, List, [], ◌∷◌, arith}
use nil_service.Codec.{little}
use nil_service.Service.{run_all}
use nil_service.Tcp.Connection.{failed, run, new}
use nil_service.Tcp.Client
use nil_service.Tcp.Client.Activity.{FitsEvents, run_events-IsBusy}
use nil_service.Tcp.Client.Waiting.{IsValid}

-- An attempt fails, the timer expires, the next attempt succeeds, a read fails and the connection is
-- given up.
abbrev tcp_events : List Client.Event
tcp_events =
    Client.connects none
    ∷ Client.expires
    ∷ Client.connects (some 7)
    ∷ Client.reads failed
    ∷ Client.turns
    ∷ []

tcp_events-FitsEvents : FitsEvents little tcp_events (Client.create 1 2 16)
unfolding Client.create Client.step Client.connected_to Client.expired Client.read run new
    Client.on_signal run_all
tcp_events-FitsEvents = (omega arith, (tt, (omega arith, (tt, (tt, tt)))))

run_events-IsBusy_example : IsValid (Client.run_events little tcp_events (Client.create 1 2 16)).0
run_events-IsBusy_example = run_events-IsBusy little 1 2 16 tcp_events tcp_events-FitsEvents
