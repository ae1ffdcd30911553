-- ===== src/Http/Sessions.antt =====
-- src/src/http/server/create.cpp in motion: the server with the transactions and handshakes that its
-- executor runs, and the reads of its WebSockets. The environment ends what is outstanding, in any order.
pub mod Soundness
pub mod Late
use nil_service.Common.{
  ℕ, Bool, true, false, Option, none, some, List, [], ◌∷◌, ◌++◌, Bytes, if◌then◌else◌, ◌==◌, ◌&&◌,
  ◌>>=◌,
}
use mathlib.Core.Option
use nil_service.Service.{Effect}
use nil_service.Service.Peers.{Peer}
use nil_service.Ws.Connection.{Connection, Completion}
use nil_service.Http.WebSocket
use nil_service.Http.WebSocket.{WebSocket}
use nil_service.Http.Server
use nil_service.Http.Server.{
  Server, Answers, Request, websocket, find_route, replace_route, dispatch, accept,
}
use nil_service.Http.Transaction
use nil_service.Http.Transaction.{
  Transaction, Answer, written, handshake, was_read, read_failed, write_failed, wrote, expired,
  is_alive, run, new,
}

-- A transaction has the address of its object; `handshakes` are the routes of the WebSockets whose
-- `async_accept` is outstanding, and the addresses that their streams have.
pub record Sessions : Type 0 where
  pub server : Server
  pub transactions : List (Peer Transaction)
  pub handshakes : List (Peer ℕ)

unfoldable pub create : ℕ → ℕ → Sessions
create this buffer = record {
  server = Server.create this buffer;
  transactions = [];
  handshakes = [];
}

-- What a run of code leaves, and its effects; `none` is a use of a pointer that is null or dangles.
abbrev pub Result : Type 0
Result = Option (Sessions × List Effect)

-- The post of `WebSocket::disconnect`, which does not look whether the pointer is null.
unfoldable pub post_signal : ℕ → Option ℕ → WebSocket.Task → Server → Option Server
post_signal key none task s = none
post_signal key (some context) task s =
    if context == s.context then some (dispatch (websocket key task) s) else none

unfoldable pub post_signals : ℕ → Option ℕ → List WebSocket.Task → Server → Option Server
post_signals key context [] s = some s
post_signals key context (task ∷ tasks) s =
    post_signal key context task s >>= λ s'. post_signals key context tasks s'

-- A handler of the WebSocket at a route has run: its new state, its effects and its posts.
unfoldable pub after_signals :
    ℕ → WebSocket × (List Effect × List WebSocket.Task) → Sessions → Result
after_signals key (w, (out, tasks)) s =
    Option.map (λ server. (record s { server = server }, out))
      (post_signals key w.context tasks
        (record (s.server) { wss = replace_route key w s.server.wss }))

-- The handler of `async_accept`: a transaction at a fresh address, and the next accept.
unfoldable pub accepted : ℕ → Sessions → Sessions
accepted address s =
    if s.server.accepting
    then record s {
      server = accept s.server;
      transactions = s.transactions ++ record { address = address; connection = run new } ∷ [];
    }
    else s

unfoldable pub accept_failed : Sessions → Sessions
accept_failed s = if s.server.accepting then record s { server = accept s.server } else s

-- The handshake that `handle_ws` starts: the stream is a new object.
unfoldable pub start_answers : ℕ → List Answer → List (Peer ℕ)
start_answers fresh [] = []
start_answers fresh (written response n ∷ out) = start_answers fresh out
start_answers fresh (handshake key ∷ out) =
    record { address = fresh; connection = key } ∷ start_answers fresh out

-- A handler of the transaction at an address. One that no handler holds any longer is destroyed.
unfoldable pub step_transactions :
    ℕ → Transaction.Event → List (Peer Transaction) → List (Peer Transaction) × List Answer
step_transactions address x [] = ([], [])
step_transactions address x (t ∷ ts) =
    let (t', out) = Transaction.step x t.connection in
    let (rest, more) = step_transactions address x ts in
    if t.address == address
    then ((if is_alive t' then record t { connection = t' } ∷ ts else ts), out)
    else (t ∷ rest, more)

-- A request is answered by the server as it is when it has been read.
abbrev pub with_server : Server → Transaction.Event → Transaction.Event
with_server server read_failed = read_failed
with_server server write_failed = write_failed
with_server server wrote = wrote
with_server server expired = expired
with_server server (was_read answer request s) = was_read answer request server

unfoldable pub transact : ℕ → ℕ → Transaction.Event → Sessions → Sessions
unfolding step_transactions start_answers
transact address fresh x s =
    let (ts, out) = step_transactions address (with_server s.server x) s.transactions in
    record s { transactions = ts; handshakes = s.handshakes ++ start_answers fresh out }

unfoldable pub handshake_at : ℕ → List (Peer ℕ) → Option ℕ
handshake_at address [] = none
handshake_at address (h ∷ hs) =
    if h.address == address then some h.connection else handshake_at address hs

unfoldable pub drop_handshake : ℕ → List (Peer ℕ) → List (Peer ℕ)
drop_handshake address [] = []
drop_handshake address (h ∷ hs) =
    let rest = drop_handshake address hs in if h.address == address then hs else h ∷ rest

-- The handler of a WebSocket's `async_accept`: the connection is at a fresh address.
unfoldable pub handshake_end : Bool → ℕ → ℕ → Option WebSocket → Sessions → Result
unfolding after_signals
handshake_end good key fresh none s = some (s, [])
handshake_end good key fresh (some w) s =
    if good then after_signals key (WebSocket.accepted s.server.buffer fresh w) s else some (s, [])

unfoldable pub handshaken_at : Bool → ℕ → ℕ → Option ℕ → Sessions → Result
unfolding handshake_end
handshaken_at good address fresh none s = some (s, [])
handshaken_at good address fresh (some key) s =
    handshake_end good key fresh (find_route key s.server.wss)
      (record s { handshakes = drop_handshake address s.handshakes })

unfoldable pub handshaken : Bool → ℕ → ℕ → Sessions → Result
unfolding handshake_at handshaken_at
handshaken good address fresh s =
    handshaken_at good address fresh (handshake_at address s.handshakes) s

unfoldable pub read_of : ℕ → ℕ → Completion → Option WebSocket → Sessions → Result
unfolding after_signals
read_of key address result none s = some (s, [])
read_of key address result (some w) s = after_signals key (WebSocket.read address result w) s

-- The handler of a read of the connection at an address of the WebSocket at a route.
unfoldable pub read : ℕ → ℕ → Completion → Sessions → Result
unfolding read_of
read key address result s = read_of key address result (find_route key s.server.wss) s

-- A new executor: what the old one runs is destroyed.
unfoldable pub restart : Sessions → Sessions
restart s = record { server = Server.restart s.server; transactions = []; handshakes = [] }

abbrev pub on_server : (Server → Server) → Sessions → Sessions
on_server f s = record s { server = f s.server }

abbrev pub run_server : (Server → Server × List Effect) → Sessions → Sessions × List Effect
run_server act s = let (server, out) = act s.server in (record s { server = server }, out)

unfoldable pub request : ℕ → WebSocket.Task → Sessions → Result
request key task s =
    Option.map (λ server. (record s { server = server }, [])) (Server.request key task s.server)

pub data Event : Type 0 where
  turns polls stops restarts accept_fails : Event
  accepts : ℕ → Event
  transacts : ℕ → ℕ → Transaction.Event → Event
  handshakes_end : Bool → ℕ → ℕ → Event
  reads : ℕ → ℕ → Completion → Event
  requests : ℕ → WebSocket.Task → Event
  uses_ws : ℕ → ℕ → ℕ → Event
  dispatches : ℕ → Event
  hears_get hears_ready : Option ℕ → Event

unfoldable pub step : Event → Sessions → Result
step turns s = some (run_server Server.turn s)
step polls s = some (run_server Server.poll s)
step stops s = some (on_server Server.stop s, [])
step restarts s = some (restart s, [])
step accept_fails s = some (accept_failed s, [])
step (accepts address) s = some (accepted address s, [])
step (transacts address fresh x) s = some (transact address fresh x s, [])
step (handshakes_end good address fresh) s = handshaken good address fresh s
step (reads key address result) s = read key address result s
step (requests key task) s = request key task s
step (uses_ws key this impl) s = some (on_server (Server.use_ws key this impl) s, [])
step (dispatches f) s = some (on_server (Server.dispatch (Server.user f)) s, [])
step (hears_get f) s = some (on_server (Server.impl_on_get f) s, [])
step (hears_ready f) s = some (on_server (Server.impl_on_ready f) s, [])

unfoldable pub run_events : List Event → Sessions → Result
run_events [] s = some (s, [])
run_events (x ∷ xs) s = step x s >>= λ (r : Sessions × List Effect).
    Option.map (λ (q : Sessions × List Effect). (q.0, r.1 ++ q.1)) (run_events xs r.0)
