-- ===== src/CInterface/Creation.antt =====
-- The functions of src/src/c/service.cpp that make services. A service is at the addresses that are
-- given; its host and port are not modelled. A path is a C string, `none` if it is null.
use nil_service.Common.{ℕ, true, Option, none, some, List, Bytes}
use nil_service.Codec.{Endian}
use nil_service.Service.{Effect}
use nil_service.Service.EventService.{EventService}
use nil_service.Tcp.Server as TcpServer
use nil_service.Tcp.Client as TcpClient
use nil_service.Udp.Server as UdpServer
use nil_service.Udp.Client as UdpClient
use nil_service.Udp.Client.{Opening}
use nil_service.Ws.Server as WsServer
use nil_service.Ws.Client as WsClient
use nil_service.Http.Sessions as HttpSessions
use nil_service.Gateway
use nil_service.Gateway.{Gateway}
use nil_service.Pipe
use nil_service.Pipe.{}
use nil_service.Pipe.Opening.{no_fd, Pipe, Fd}
use nil_service.Pipe.Fifo
use nil_service.Pipe.Fifo.{System}
use nil_service.CInterface.Web.{route_or_root}

unfoldable pub create_gateway {ℓ} : {S : Type ℓ} → ℕ → Gateway S
create_gateway forwarder = Gateway.create forwarder

unfoldable pub gateway_add_service {ℓ} :
    {S : Type ℓ} (ops : EventService S) → S → Gateway S → Gateway S
gateway_add_service ops service gateway = Gateway.add_service ops service gateway

unfoldable pub create_tcp_server : ℕ → ℕ → ℕ → TcpServer.Server
create_tcp_server this impl buffer = TcpServer.create this impl buffer

unfoldable pub create_tcp_client : ℕ → ℕ → ℕ → TcpClient.Client
create_tcp_client this impl buffer = TcpClient.create this impl buffer

unfoldable pub create_udp_server : ℕ → UdpServer.Server
create_udp_server this = UdpServer.create this

unfoldable pub create_udp_client : Endian → ℕ → ℕ → Opening → UdpClient.Client × List Effect
create_udp_client e this server o = UdpClient.create e this server o

unfoldable pub create_ws_client : ℕ → ℕ → ℕ → WsClient.Client
create_ws_client this impl buffer = WsClient.create this impl buffer

-- A null route is "/".
unfoldable pub create_ws_server : ℕ → Option ℕ → ℕ → ℕ → ℕ → WsServer.WsServer
unfolding route_or_root
create_ws_server this route buffer ws_this ws_impl =
    WsServer.create this buffer (route_or_root route) ws_this ws_impl

unfoldable pub create_http_server : ℕ → ℕ → HttpSessions.Sessions
create_http_server this buffer = HttpSessions.create this buffer

unfoldable pub pipe_mkfifo : System → Option Bytes → Fd
pipe_mkfifo sys none = no_fd
pipe_mkfifo sys (some path) = Fifo.mkfifo sys path

unfoldable pub pipe_r_mkfifo : System → Option Bytes → Fd
pipe_r_mkfifo sys none = no_fd
pipe_r_mkfifo sys (some path) = Fifo.r_mkfifo sys path

unfoldable pub pipe_w_mkfifo : System → Option Bytes → Fd
pipe_w_mkfifo sys none = no_fd
pipe_w_mkfifo sys (some path) = Fifo.w_mkfifo sys path

-- `nil_service_pipe_fd_provider`: what its function returns when it is called, or a null function.
unfoldable pub provide : Option Fd → Fd
provide none = no_fd
provide (some result) = result

-- Both functions of the options are there, whatever the providers have.
unfoldable pub create_pipe : ℕ → Option Fd → Option Fd → ℕ → Pipe × List Effect
unfolding provide
create_pipe this read_fd write_fd buffer =
    Pipe.create this buffer true true (provide read_fd) (provide write_fd)
