-- ===== src/Lib.antt =====
-- nil-service: services that send messages to their peers over tcp, udp, pipes, WebSocket and HTTP.
--
-- The program. A service (src/publish/nil/service/structs.hpp) publishes payloads to its peers, sends
-- them to some of them, and calls the user's functions when it is ready, when a peer connects or
-- disconnects, and when a message comes. Each transport implements this with Boost.Asio: methods post
-- tasks to an executor, whose strand runs one handler at a time. Payloads are made by codecs and read
-- back by the same; a message's first value may choose the handler that takes it.
--
-- The model. A service is a record of the members of its class. A method or a handler is a function
-- from the state to the new state and the list of its effects: calls of the user's functions, and
-- writes. What Boost.Asio does is the environment's: a run is a list of events, in any order that the
-- environment likes, each of which is a call of a method, the end of an outstanding operation, or a
-- turn of the executor. Hypotheses named Fits… say what the environment keeps to: a read ends with at
-- least one and at most as many bytes as were asked for, a new object is at a fresh address, and a
-- service is restarted only while nothing is connected. What a restart does otherwise is among the
-- results for Tcp.Server, Udp.Client and Http.Server. A run of Http.Sessions restarts at any time.
--
-- Files, and the code that they model:
--   Common          lists, options and memory; `add64` and `sub64` are the operations of
--                   `std::uint64_t`, modulo 2 ^ 64
--   Codec           src/src/utils.hpp (to_array, from_array), src/publish/nil/service/codec.hpp and
--                   src/src/codec.cpp; Codec.Message is concat.hpp and consume.hpp, Codec.Array is
--                   codec<T[N]>
--   Service         src/publish/nil/service/ID.hpp and `utils::invoke`; Service.Requests is
--                   IMessageService, Service.Callbacks is ICallbackService; Service.MessageHandler is
--                   detail/create_handler.hpp and detail/create_message_handler.hpp; Service.Mapping
--                   is map.hpp; Service.Peers is the list of connections of a server
--   Stream          the framing that tcp and pipes share, described without regard to the code
--   Tcp.Connection  src/src/tcp/Connection.cpp
--   Tcp.Server      src/src/tcp/server/create.cpp
--   Tcp.Client      src/src/tcp/client/create.cpp
--   Tcp.Exchange    the two ends of one stream: one side polls, the other reads; Tcp.Hearing is the
--                   calls that both make for what a connection tells them
--   Udp.Server      src/src/udp/server/create.cpp
--   Udp.Client      src/src/udp/client/create.cpp
--   Udp.Exchange    a client that polls, a network that loses, reorders and repeats datagrams, and the
--                   server that receives
--   Pipe            src/src/pipe/create.cpp; Pipe.Fifo is src/src/pipe/mfkifo.cpp
--   Self            src/src/self/create.cpp
--   Gateway         src/src/gateway/create.cpp; its services stand behind the interface
--                   Service.EventService, the virtual calls of structs.hpp
--   Ws.Connection   src/src/ws/Connection.cpp
--   Ws.Client       src/src/ws/client/create.cpp
--   Ws.Server       src/src/ws/server/create.cpp, over Http.Sessions
--   Http.WebSocket  src/src/http/server/WebSocket.cpp
--   Http.Server     src/src/http/server/create.cpp and src/src/structs/WebTransaction.cpp: the server, its
--                   routes and its answers; Http.Transaction is one request on a socket,
--                   Http.Sessions is the server with its transactions, handshakes and reads
--   CInterface      src/src/c/service.cpp and src/publish/nil/service.h; CInterface.Callbacks is the
--                   functions that C gives to a service, CInterface.Web the HTTP server as C uses it,
--                   CInterface.Creation the functions that make services, CInterface.Handles
--                   the handles with their conversions and calls
--   Tests           the theorems at concrete inputs
-- A definition has the name of the function that it models. The handlers of an asynchronous operation
-- are `complete`, `accepted`, `connected_to`, `read` and `expired`; `turn` runs the task that is first
-- in the executor's queue, and `poll` runs all that are there.
--
-- Bounds. Numbers are natural numbers; where the code adds or subtracts positions in 64 bits, the model
-- wraps around, and the theorems show or assume that it does not happen. Every function is recursive on
-- its input, but for the loop of `to_cpp_ids`, whose counter has 32 bits: it has fuel for the tests of its
-- condition, of which it needs one more than there are identities. A read or write past the end of a
-- buffer is `none`, as is a use of a pointer that is null or dangles in Http.Sessions.
--
-- Not modelled: the text of an identity (`to_string`), the choice of an address and a port and the
-- failure of a bind, threads other than the one that runs the executor, failures of a synchronous write,
-- and what Boost.Asio and Boost.Beast do inside. A user's function is called and logged; what it calls in
-- turn is a later event. Of the C interface, the lifetime of a callback's context, a class of another
-- library, is not modelled; nor are the bindings for Lua and Python.
pub mod Common
pub mod Service
pub mod CInterface
pub mod Codec
pub mod Stream
pub mod Tcp
pub mod Udp
pub mod Pipe
pub mod Ws
pub mod Http
pub mod Self
pub mod Gateway
mod Tests
