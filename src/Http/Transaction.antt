-- ===== src/Http/Transaction.antt =====
-- `Transaction` of src/src/http/server/create.cpp: one request on a socket that the server has accepted.
-- The environment ends the read, the write and the wait of the deadline.
pub mod Answering
use nil_service.Common.{
  ℕ, Bool, true, false, Option, none, some, List, [], ◌∷◌, ◌++◌, length, if◌then◌else◌, ◌||◌,
}
use nil_service.Service.{Action, run_all}
use nil_service.Service.MessageHandler.{is_some}
use nil_service.Http.Server
use nil_service.Http.Server.{Response, Request, Server, Answers, Outcome, responded, upgrading}

-- The socket: its connection is up, its sending side is shut down, it is closed, or it has been moved
-- into a WebSocket.
pub data Socket : Type 0 where
  up shut closed moved : Socket

-- What a transaction starts: the write of a response with its content length, or the handshake of the
-- WebSocket at a route.
pub data Answer : Type 0 where
  written : Response → ℕ → Answer
  handshake : ℕ → Answer

-- The operations that are outstanding, each of which keeps the transaction alive.
pub record Transaction : Type 0 where
  pub socket : Socket
  pub reading : Bool
  pub writing : Bool
  pub deadline : Bool

-- The constructor: the timer is set, but nothing waits for it.
unfoldable pub new : Transaction
new = record { socket = up; reading = false; writing = false; deadline = false }

unfoldable pub run : Transaction → Transaction
run t = record t { reading = true; deadline = true }

-- `socket.close`, which does nothing to a socket that has been moved from.
abbrev pub close : Socket → Socket
close up = closed
close shut = closed
close closed = closed
close moved = moved

-- `socket.shutdown`
abbrev pub shutdown : Socket → Socket
shutdown up = shut
shutdown shut = shut
shutdown closed = closed
shutdown moved = moved

unfoldable pub write_response : Response → Transaction → Transaction × List Answer
write_response response t =
    (record t { writing = true }, written response (length response.body) ∷ [])

unfoldable pub process_outcome : Outcome → Transaction → Transaction × List Answer
unfolding write_response
process_outcome (responded response) t = write_response response t
process_outcome (upgrading key) t = (record t { socket = moved }, handshake key ∷ [])

unfoldable pub process_request :
    Answers → Request → Server → Transaction → Transaction × List Answer
unfolding process_outcome
process_request answer request s t = process_outcome (Server.process_request answer request s) t

-- How an outstanding operation ends. The handlers of the server are those that it has when the request
-- has been read.
pub data Event : Type 0 where
  read_failed write_failed wrote expired : Event
  was_read : Answers → Request → Server → Event

unfoldable pub read_end : Answers → Request → Server → Transaction → Transaction × List Answer
unfolding process_request
read_end answer request s t =
    if t.reading then process_request answer request s (record t { reading = false }) else (t, [])

unfoldable pub write_end : Transaction → Transaction
write_end t =
    if t.writing
    then record t { writing = false; deadline = false; socket = shutdown t.socket }
    else t

unfoldable pub deadline_end : Transaction → Transaction
deadline_end t = if t.deadline then record t { deadline = false; socket = close t.socket } else t

unfoldable pub step : Event → Transaction → Transaction × List Answer
unfolding read_end write_end deadline_end
step read_failed t = (record t { reading = false }, [])
step write_failed t = (record t { writing = false }, [])
step wrote t = (write_end t, [])
step expired t = (deadline_end t, [])
step (was_read answer request s) t = read_end answer request s t

-- Whether a handler still holds the transaction.
unfoldable pub is_alive : Transaction → Bool
is_alive t = t.reading || t.writing || t.deadline

unfoldable pub run_events : List Event → Transaction → Transaction × List Answer
run_events [] t = (t, [])
run_events (x ∷ xs) t =
    let (t', out) = step x t in let (t'', more) = run_events xs t' in (t'', out ++ more)
