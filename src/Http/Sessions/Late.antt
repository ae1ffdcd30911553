-- ===== src/Http/Sessions/Late.antt =====
-- `use_ws` of src/src/http/server/create.cpp after the server has announced itself.
use nil_service.Common.{
  ℕ, ◌≡◌, ◌∙◌, ap, true, none, some, List, [], ◌∷◌, ◌++◌, ==-self, ◌==◌, if-true, arith,
}
use nil_service.Service.{no_handlers, invoke}
use nil_service.Service.Peers.{Peer, at}
use nil_service.Ws.Connection
use nil_service.Ws.Connection.{Connection, failed, complete, complete_read, run, new}
use nil_service.Http.WebSocket
use nil_service.Http.WebSocket.{WebSocket, on_signals, on_signal, read_at, accepted}
use nil_service.Http.Server.{Route, find_route, replace_route, use_ws, use_ws_at}
use nil_service.Http.Sessions.{
  Sessions, on_server, handshake_end, read, read_of, after_signals, post_signals, post_signal,
}

-- The WebSocket that `use_ws` makes.
abbrev pub made : ℕ → ℕ → WebSocket
made this impl = record {
  this = this;
  impl = impl;
  connections = [];
  handlers = no_handlers;
  context = none;
}

found_here :
    (key : ℕ) (w : WebSocket) (rs : List Route)
    → find_route key (record { route = key; ws = w } ∷ rs) ≡ some w
unfolding find_route
found_here key w rs = if-true (key == key) (some w) (find_route key rs) (==-self key)

find_route-last :
    (key : ℕ) (w : WebSocket) (rs : List Route)
    → find_route key rs ≡ none
    → find_route key (rs ++ record { route = key; ws = w } ∷ []) ≡ some w
unfolding find_route
find_route-last key w [] q = found_here key w []
find_route-last key w (r ∷ rs) q = ground (arith, find_route-last key w rs)

find_route-replace_route :
    (key : ℕ) (v w : WebSocket) (rs : List Route)
    → find_route key rs ≡ some v
    → find_route key (replace_route key w rs) ≡ some w
unfolding find_route replace_route
find_route-replace_route key v w [] q = absurd (cc)
find_route-replace_route key v w (r ∷ rs) q = ground (arith, find_route-replace_route key v w rs)

-- The sessions after `use_ws`.
abbrev pub added : ℕ → ℕ → ℕ → Sessions → Sessions
added key this impl s = on_server (use_ws key this impl) s

-- The WebSocket with the connection that a handshake has made.
abbrev pub joined : ℕ → ℕ → ℕ → ℕ → WebSocket
joined this impl buffer fresh = (accepted buffer fresh (made this impl)).0

module _ (key this impl fresh : ℕ) (s : Sessions) where
  -- The sessions after the handshake.
  abbrev pub connected : Sessions
  connected = record (added key this impl s) {
    server = record (added key this impl s).server {
      wss =
          replace_route key (joined this impl (added key this impl s).server.buffer fresh)
            (added key this impl s).server.wss;
    };
  }

  added-find_route :
      find_route key s.server.wss ≡ none
      → find_route key (added key this impl s).server.wss ≡ some (made this impl)
  unfolding use_ws use_ws_at
  added-find_route free =
      ap (λ o. find_route key (use_ws_at key this impl o s.server).wss) free
      ∙ find_route-last key (made this impl) s.server.wss free

  handshake_end-connected :
      find_route key s.server.wss ≡ none
      → handshake_end true key fresh
          (find_route key (added key this impl s).server.wss)
          (added key this impl s)
        ≡ some (connected, [])
  unfolding handshake_end after_signals accepted run on_signals on_signal invoke post_signals
  handshake_end-connected free =
      ap (λ o. handshake_end true key fresh o (added key this impl s)) (added-find_route free)

  -- The end of the connection's read posts through a null pointer.
  read_of-joined :
      (buffer : ℕ) (r : Sessions)
      → read_of key fresh failed (some (joined this impl buffer fresh)) r ≡ none
  unfolding read_of accepted WebSocket.read read_at at run new complete complete_read
      Connection.read on_signals on_signal after_signals post_signals post_signal invoke
  read_of-joined buffer r =
      let w = joined this impl buffer fresh in
      let c : Peer Connection = record {
        address = fresh;
        connection = record { buffer = buffer; reading = true };
      } in
      ap (λ o. after_signals key (read_at fresh failed o w) r)
        (if-true (fresh == fresh) (some c) none (==-self fresh))

-- A WebSocket that is added to a server at a new route has a null pointer: when a handshake makes a
-- connection to it and the read of the connection ends with an error before the server announces itself
-- again, the WebSocket posts through the null pointer.
pub use_ws-crashes :
    (key this impl fresh : ℕ) (s : Sessions)
    → find_route key s.server.wss ≡ none
    → (r : Sessions) × (handshake_end true key fresh
          (find_route key (added key this impl s).server.wss)
          (added key this impl s)
        ≡ some (r, []))
      × (read key fresh failed r ≡ none)
unfolding read
use_ws-crashes key this impl fresh s free =
    let r = connected key this impl fresh s in
    (
      r,
      handshake_end-connected key this impl fresh s free,
      ap (λ o. read_of key fresh failed o r)
            (find_route-replace_route key (made this impl)
              (joined this impl (added key this impl s).server.buffer fresh)
              (added key this impl s).server.wss (added-find_route key this impl fresh s free))
          ∙ read_of-joined key this impl fresh s (added key this impl s).server.buffer r,
    )
