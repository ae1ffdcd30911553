-- ===== src/Udp/Exchange.antt =====
-- src/src/udp/client/create.cpp and src/src/udp/server/create.cpp with a network between them.
use nil_service.Common.{ℕ, List, [], ◌∷◌, ◌++◌, if◌then◌else◌, ◌==◌, Bytes, drop}
use nil_service.Codec.{Endian}
use nil_service.Service.{ServiceId, contains_id, Effect, called, sent}
use nil_service.Udp.{external}
use nil_service.Udp.Client
use nil_service.Udp.Client.{Task, publish, publish_ex, user}
use nil_service.Udp.Server

-- The datagrams that a list of effects sends to an endpoint.
abbrev pub datagrams_to : ℕ → List Effect → List Bytes
datagrams_to a [] = []
datagrams_to a (called call ∷ out) = datagrams_to a out
datagrams_to a (sent b bytes ∷ out) =
    if b == a then bytes ∷ datagrams_to a out else datagrams_to a out

-- The payloads that tasks mean for the server of a client.
abbrev pub meant : ServiceId → List Task → List Bytes
meant id [] = []
meant id (publish msg ∷ tasks) = msg ∷ meant id tasks
meant id (publish_ex ids msg ∷ tasks) =
    if contains_id ids id then meant id tasks else msg ∷ meant id tasks
meant id (user f ∷ tasks) = meant id tasks

abbrev pub externals : Endian → List Bytes → List Bytes
externals e [] = []
externals e (m ∷ ms) = external e m ∷ externals e ms

-- What follows the marker of each datagram.
abbrev pub payloads : List Bytes → List Bytes
payloads [] = []
payloads (d ∷ ds) = drop 1 d ∷ payloads ds

-- Datagrams that arrive from one endpoint.
abbrev pub arrivals : ℕ → ℕ → List Bytes → List Server.Event
arrivals fresh q [] = []
arrivals fresh q (d ∷ ds) = Server.completes (Server.received fresh q d) ∷ arrivals fresh q ds

abbrev pub for_each : (Bytes → List Effect) → List Bytes → List Effect
for_each f [] = []
for_each f (m ∷ ms) = f m ++ for_each f ms
