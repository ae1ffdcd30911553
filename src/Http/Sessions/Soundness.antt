-- ===== src/Http/Sessions/Soundness.antt =====
-- src/src/http/server/create.cpp: what holds of the pointers of its WebSockets to the executor.
pub mod Tasks
pub mod Signals
pub mod Runs
pub mod Steps
use nil_service.Common.{
  ℕ, ◌≡◌, refl, sym, ap, ◌∙◌, Bool, true, false, Option, none, some, List, [], ◌∷◌, ◌++◌, All,
  All-append, arith, map, if_both, if-true, ==-self, append-nil, append_assoc, ◌==◌, if◌then◌else◌,
}
use mathlib.Core.Path.{subst}
use mathlib.Core.Option.{some-injective}
use nil_service.Service.Peers.{Peer}
use nil_service.Ws.Connection.{Connection}
use nil_service.Http.WebSocket
use nil_service.Http.WebSocket.{WebSocket}
use nil_service.Http.Server.{
  Route, Server, websocket, dispatch, find_route, replace_route, use_ws, use_ws_at, restart,
  drop_reads, drop_all_reads,
}
use nil_service.Http.Sessions.{Sessions, Result, post_signal, post_signals, after_signals}

-- The WebSocket posts to the executor with this name.
abbrev pub IsCurrent : ℕ → Route → Type 0
IsCurrent context r = r.ws.context ≡ some context

-- No connection of the WebSocket reads.
abbrev pub IsQuiet : Peer Connection → Type 0
IsQuiet c = c.connection.reading ≡ false

abbrev pub IsIdle : Route → Type 0
IsIdle r = All IsQuiet r.ws.connections

-- A server that accepts has announced itself to all its WebSockets; one that does not has none that
-- reads.
abbrev pub IsSound : Server → Type 0
IsSound s =
    (s.accepting ≡ true → All (IsCurrent s.context) s.wss)
    × (s.accepting ≡ false → All IsIdle s.wss)

-- A server that does not accept has no transactions and no handshakes either.
abbrev pub AllSound : Sessions → Type 0
AllSound s =
    IsSound s.server × (s.server.accepting ≡ false → (s.transactions ≡ []) × (s.handshakes ≡ []))

module _ (P : WebSocket → Type 0) where
  found-or :
      (b : Bool) (v w : WebSocket) (rest : Option WebSocket)
      → (if b then some v else rest) ≡ some w
      → P v
      → (rest ≡ some w → P w)
      → P w
  found-or true v w rest q here there = subst P (some-injective v w q) here
  found-or false v w rest q here there = there q

  pub find_route-All :
      (key : ℕ) (w : WebSocket) (rs : List Route)
      → find_route key rs ≡ some w
      → All (λ r. P r.ws) rs
      → P w
  unfolding find_route
  find_route-All key w [] q all = absurd (cc)
  find_route-All key w (r ∷ rs) q all =
      found-or (r.route == key) r.ws w (find_route key rs) q all.0
        (λ e. find_route-All key w rs e all.1)

  pub replace_route-All :
      (key : ℕ) (w : WebSocket) (rs : List Route)
      → All (λ r. P r.ws) rs
      → P w
      → All (λ r. P r.ws) (replace_route key w rs)
  unfolding replace_route
  replace_route-All key w [] all here = tt
  replace_route-All key w (r ∷ rs) all here =
      if_both (All (λ (t : Route). P t.ws)) (r.route == key) (record r { ws = w } ∷ rs)
        (r ∷ replace_route key w rs) (here, all.1) (all.0, replace_route-All key w rs all.1 here)

drop_reads-IsQuiet : (cs : List (Peer Connection)) → All IsQuiet (drop_reads cs)
unfolding drop_reads
drop_reads-IsQuiet [] = tt
drop_reads-IsQuiet (c ∷ cs) = (refl, drop_reads-IsQuiet cs)

pub drop_all_reads-IsIdle : (rs : List Route) → All IsIdle (drop_all_reads rs)
unfolding drop_all_reads
drop_all_reads-IsIdle [] = tt
drop_all_reads-IsIdle (r ∷ rs) = (drop_reads-IsQuiet r.ws.connections, drop_all_reads-IsIdle rs)

post_signal-current :
    (key : ℕ) (context : Option ℕ) (task : WebSocket.Task) (s : Server)
    → context ≡ some s.context
    → post_signal key context task s ≡ some (dispatch (websocket key task) s)
unfolding post_signal
post_signal-current key context task s current = rw current (
    if-true (s.context == s.context) (some (dispatch (websocket key task) s)) none
      (==-self s.context))

-- The posts of a WebSocket whose pointer leads to the executor all arrive.
pub post_signals-current :
    (key : ℕ) (context : Option ℕ) (tasks : List WebSocket.Task) (s : Server)
    → context ≡ some s.context
    → post_signals key context tasks s
      ≡ some (record s { posted = s.posted ++ map (websocket key) tasks })
unfolding post_signals
post_signals-current key context [] s current =
    ap (λ ts. some (record s { posted = ts })) (sym (append-nil s.posted))
post_signals-current key context (task ∷ tasks) s current =
    rw (post_signal-current key context task s current) (
      post_signals-current key context tasks (dispatch (websocket key task) s) current
      ∙ ap (λ ts. some (record s { posted = ts }))
          (append_assoc s.posted (websocket key task ∷ []) (map (websocket key) tasks)))
