-- ===== src/Http/Sessions/Soundness/Signals.antt =====
-- The handlers of the connections of src/src/http/server/WebSocket.cpp keep the pointers sound.
use nil_service.Common.{
  ℕ, ◌≡◌, ◌∙◌, refl, sym, ap, true, false, Option, none, some, List, [], ◌∷◌, ◌++◌, All, if_both,
  if-false, ◌==◌, map, arith,
}
use mathlib.Core.Path.{subst}
use mathlib.Core.Option
use mathlib.Core.Option.{some-injective}
use nil_service.Service.{Effect}
use nil_service.Service.Peers.{Peer, replace, at}
use nil_service.Stream.{Signal}
use nil_service.Ws.Connection.{Connection, Completion, complete}
use nil_service.Http.WebSocket
use nil_service.Http.WebSocket.{WebSocket, on_signals, read_at}
use nil_service.Http.Server.{Server, websocket, find_route, replace_route}
use nil_service.Http.Sessions.{Sessions, Result, post_signals, after_signals}
use nil_service.Http.Sessions.Soundness.{
  IsQuiet, AllSound, find_route-All, replace_route-All, post_signals-current,
}

-- What a handler of a WebSocket leaves: its state, its effects and its posts.
abbrev pub Handled : Type 0
Handled = WebSocket × (List Effect × List WebSocket.Task)

-- The code uses no pointer that is null or dangles, and leaves sound sessions.
abbrev pub Works : Result → Type 0
Works r = (q : Sessions × List Effect) × (r ≡ some q) × AllSound q.0

pub after_signals-accepting :
    (key : ℕ) (w : WebSocket) (h : Handled) (s : Sessions)
    → find_route key s.server.wss ≡ some w
    → s.server.accepting ≡ true
    → AllSound s
    → h.0.context ≡ w.context
    → Works (after_signals key h s)
unfolding after_signals
after_signals-accepting key w h s found accepting (sound, none_left) kept =
    let current = sound.0 accepting in
    let same =
      kept
      ∙ find_route-All (λ v. v.context ≡ some s.server.context) key w s.server.wss found current in
    let server = record (s.server) { wss = replace_route key h.0 s.server.wss } in
    (
      (
        record s { server = record server { posted = server.posted ++ map (websocket key) h.1.1 } },
        h.1.0,
      ),
      ap (Option.map (λ (v : Server). (record s { server = v }, h.1.0)))
          (post_signals-current key h.0.context h.1.1 server same),
      (
        (
          λ e.
              replace_route-All (λ v. v.context ≡ some s.server.context) key h.0 s.server.wss
                current same,
          λ e. absurd (cc),
        ),
        none_left,
      ),
    )

pub after_signals-idle :
    (key : ℕ) (h : Handled) (s : Sessions)
    → s.server.accepting ≡ false
    → AllSound s
    → h.1.1 ≡ []
    → All IsQuiet h.0.connections
    → Works (after_signals key h s)
unfolding after_signals post_signals
after_signals-idle key h s idle (sound, none_left) nothing quiet =
    let server = record (s.server) { wss = replace_route key h.0 s.server.wss } in
    (
      (record s { server = server }, h.1.0),
      ap
          (λ tasks.
            Option.map (λ (v : Server). (record s { server = v }, h.1.0))
              (post_signals key h.0.context tasks server))
          nothing,
      (
        (
          λ e. absurd (cc),
          λ e.
              replace_route-All (λ v. All IsQuiet v.connections) key h.0 s.server.wss (sound.1 e)
                quiet,
        ),
        none_left,
      ),
    )

-- A read of a connection keeps the pointer.
read_at-context :
    (address : ℕ) (result : Completion) (o : Option (Peer Connection)) (w : WebSocket)
    → (read_at address result o w).0.context ≡ w.context
unfolding read_at
read_at-context address result none w = refl
read_at-context address result (some c) w = refl

pub read-context :
    (address : ℕ) (result : Completion) (w : WebSocket)
    → (WebSocket.read address result w).0.context ≡ w.context
unfolding WebSocket.read
read-context address result w = read_at-context address result (at address w.connections) w

at-IsQuiet :
    (address : ℕ) (c : Peer Connection) (cs : List (Peer Connection))
    → at address cs ≡ some c
    → All IsQuiet cs
    → IsQuiet c
unfolding at
at-IsQuiet address c [] q all = absurd (cc)
at-IsQuiet address c (d ∷ cs) q all = ground (arith, at-IsQuiet address c cs)

replace-IsQuiet :
    (address : ℕ) (c : Connection) (cs : List (Peer Connection))
    → c.reading ≡ false
    → All IsQuiet cs
    → All IsQuiet (replace address c cs)
unfolding replace
replace-IsQuiet address c [] q all = tt
replace-IsQuiet address c (d ∷ cs) q all =
    if_both (All IsQuiet) (d.address == address) (record d { connection = c } ∷ cs)
      (d ∷ replace address c cs) (q, all.1) (all.0, replace-IsQuiet address c cs q all.1)

complete-quiet :
    (result : Completion) (c : Connection) → c.reading ≡ false → complete result c ≡ (c, [])
unfolding complete
complete-quiet result c q = if-false c.reading _ (c, []) q

-- Where no connection reads, the end of a read posts nothing.
read_at-IsQuiet :
    (address : ℕ) (result : Completion) (o : Option (Peer Connection)) (w : WebSocket)
    → at address w.connections ≡ o
    → All IsQuiet w.connections
    → ((read_at address result o w).1.1 ≡ [])
      × All IsQuiet (read_at address result o w).0.connections
unfolding read_at on_signals
read_at-IsQuiet address result none w found quiet = (refl, quiet)
read_at-IsQuiet address result (some c) w found quiet =
    let still = at-IsQuiet address c w.connections found quiet in
    (
      ap (λ (r : Connection × List Signal). (on_signals address r.1 w).1)
          (complete-quiet result c.connection still),
      subst (λ (r : Connection × List Signal). All IsQuiet (replace address r.0 w.connections))
          (sym (complete-quiet result c.connection still))
          (replace-IsQuiet address c.connection w.connections still quiet),
    )

pub read-IsQuiet :
    (address : ℕ) (result : Completion) (w : WebSocket)
    → All IsQuiet w.connections
    → ((WebSocket.read address result w).1.1 ≡ [])
      × All IsQuiet (WebSocket.read address result w).0.connections
unfolding WebSocket.read
read-IsQuiet address result w quiet =
    read_at-IsQuiet address result (at address w.connections) w refl quiet
