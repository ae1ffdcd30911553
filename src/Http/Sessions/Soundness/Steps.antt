-- ===== src/Http/Sessions/Soundness/Steps.antt =====
-- The handlers and methods of src/src/http/server/create.cpp keep the pointers sound.
use nil_service.Common.{
  ℕ, ◌≡◌, ◌∙◌, refl, sym, ap, Bool, true, false, Option, none, some, List, [], ◌++◌, All,
  All-append, if_both, if_each, if-true, ==-self, ◌==◌, Bool-cases, inl, inr, ap₂,
}
use mathlib.Core.Option
use mathlib.Core.Option.{some-injective}
use nil_service.Service.{Effect}
use nil_service.Service.Peers.{Peer}
use nil_service.Ws.Connection.{Completion}
use nil_service.Http.WebSocket
use nil_service.Http.WebSocket.{WebSocket}
use nil_service.Http.Server
use nil_service.Http.Server.{
  Server, Route, find_route, use_ws_at, accept, dispatch, websocket, use_ws, post_to, post_at,
}
use nil_service.Http.Transaction
use nil_service.Http.Transaction.{Transaction, Answer}
use nil_service.Http.Sessions.{
  Sessions, accepted, accept_failed, transact, with_server, step_transactions, start_answers,
  handshake_at, handshake_end, handshaken_at, read_of, request,
}
use nil_service.Http.Sessions.Soundness.{IsQuiet, IsIdle, IsSound, AllSound, find_route-All}
use nil_service.Http.Sessions.Soundness.Tasks.{KeepsServer}
use nil_service.Http.Sessions.Soundness.Signals.{
  Works, after_signals-accepting, after_signals-idle, read-context, read-IsQuiet,
}

-- The code of the executor.
pub runs-Works :
    (s : Sessions) (r : Server × List Effect)
    → AllSound s
    → KeepsServer s.server r.0
    → Works (some (record s { server = r.0 }, r.1))
runs-Works s r (sound, none_left) (kept, on) =
    ((record s { server = r.0 }, r.1), refl, (kept, λ e. none_left (on e)))

pub use_ws-IsSound :
    (key this impl : ℕ) (o : Option WebSocket) (s : Server)
    → s.accepting ≡ false
    → IsSound s
    → KeepsServer s (use_ws_at key this impl o s)
unfolding use_ws_at
use_ws-IsSound key this impl none s idle sound =
    ((λ e. absurd (cc), λ e. All-append IsIdle s.wss _ (sound.1 e) (tt, tt)), λ e. e)
use_ws-IsSound key this impl (some w) s idle sound = (sound, λ e. e)

pub read_of-Works :
    (key address : ℕ) (result : Completion) (o : Option WebSocket) (s : Sessions)
    → find_route key s.server.wss ≡ o
    → AllSound s
    → Works (read_of key address result o s)
unfolding read_of
read_of-Works key address result none s found sound = ((s, []), refl, sound)
read_of-Works key address result (some w) s found sound = elim (Bool-cases s.server.accepting) [
  | inl accepting ↦
      after_signals-accepting key w (WebSocket.read address result w) s found accepting sound
        (read-context address result w)
  | inr idle ↦
      let (nothing, quiet) = read-IsQuiet address result w (
        find_route-All (λ v. All IsQuiet v.connections) key w s.server.wss found
          (sound.0.1 idle)) in
      after_signals-idle key (WebSocket.read address result w) s idle sound nothing quiet
]

handshake_end-Works :
    (good : Bool) (key fresh : ℕ) (o : Option WebSocket) (s : Sessions)
    → find_route key s.server.wss ≡ o
    → s.server.accepting ≡ true
    → AllSound s
    → Works (handshake_end good key fresh o s)
unfolding handshake_end WebSocket.accepted
handshake_end-Works good key fresh none s found accepting sound = ((s, []), refl, sound)
handshake_end-Works good key fresh (some w) s found accepting sound =
    if_both Works good _ (some (s, []))
      (after_signals-accepting key w (WebSocket.accepted s.server.buffer fresh w) s found accepting
        sound refl)
      ((s, []), refl, sound)

pub handshaken-Works :
    (good : Bool) (address fresh : ℕ) (o : Option ℕ) (s : Sessions)
    → handshake_at address s.handshakes ≡ o
    → AllSound s
    → Works (handshaken_at good address fresh o s)
unfolding handshaken_at handshake_at
handshaken-Works good address fresh none s found sound = ((s, []), refl, sound)
handshaken-Works good address fresh (some key) s found (sound, none_left) =
    elim (Bool-cases s.server.accepting) [
      | inl accepting ↦
          handshake_end-Works good key fresh (find_route key s.server.wss) _ refl accepting
            (sound, λ e. absurd (cc))
      | inr idle ↦
          let gone : none ≡ some key = sym (ap (handshake_at address) (none_left idle).1) ∙ found in
          absurd (cc)
    ]

-- A request to a WebSocket whose pointer leads to the executor.
post_to-current :
    (key : ℕ) (task : WebSocket.Task) (context : Option ℕ) (s : Server)
    → context ≡ some s.context
    → post_to key task context s ≡ some (dispatch (websocket key task) s)
unfolding post_to
post_to-current key task context s current = rw current (
    if-true (s.context == s.context) (some (dispatch (websocket key task) s)) none
      (==-self s.context))

post_at-kept :
    (key : ℕ) (task : WebSocket.Task) (o : Option WebSocket) (s : Server)
    → find_route key s.wss ≡ o
    → s.accepting ≡ true
    → IsSound s
    → (s' : Server) × (post_at key task o s ≡ some s') × KeepsServer s s'
unfolding post_at
post_at-kept key task none s found accepting sound = (s, refl, (sound, λ e. e))
post_at-kept key task (some w) s found accepting sound = (
  dispatch (websocket key task) s,
  post_to-current key task w.context s
      (find_route-All (λ v. v.context ≡ some s.context) key w s.wss found (sound.0 accepting)),
  (sound, λ e. e),
)

pub request-Works :
    (key : ℕ) (task : WebSocket.Task) (s : Sessions)
    → s.server.accepting ≡ true
    → AllSound s
    → Works (request key task s)
unfolding request Server.request
request-Works key task s accepting (sound, none_left) =
    let (server, posted, (kept, on)) =
      post_at-kept key task (find_route key s.server.wss) s.server refl accepting sound in
    (
      (record s { server = server }, []),
      ap (Option.map (λ (v : Server). (record s { server = v }, []))) posted,
      (kept, λ e. none_left (on e)),
    )

step_transactions-none :
    (address : ℕ) (x : Transaction.Event) (ts : List (Peer Transaction))
    → ts ≡ []
    → step_transactions address x ts ≡ ([], [])
unfolding step_transactions
step_transactions-none address x ts q = ap (step_transactions address x) q

pub transact-AllSound :
    (address fresh : ℕ) (x : Transaction.Event) (s : Sessions)
    → AllSound s
    → AllSound (transact address fresh x s)
unfolding transact start_answers
transact-AllSound address fresh x s (sound, none_left) = (
  sound,
  λ e.
      let stays =
        step_transactions-none address (with_server s.server x) s.transactions (none_left e).0 in
      (
        ap (λ (r : List (Peer Transaction) × List Answer). r.0) stays,
        ap₂
            (λ (hs : List (Peer ℕ)) (r : List (Peer Transaction) × List Answer).
              hs ++ start_answers fresh r.1)
            (none_left e).1 stays,
      ),
)

pub accepted-AllSound : (address : ℕ) (s : Sessions) → AllSound s → AllSound (accepted address s)
unfolding accepted accept
accepted-AllSound address s sound =
    if_each AllSound s.server.accepting _ s
      (λ e. ((λ e'. sound.0.0 e, λ e'. absurd (cc)), λ e'. absurd (cc))) (λ e. sound)

pub accept_failed-AllSound : (s : Sessions) → AllSound s → AllSound (accept_failed s)
unfolding accept_failed accept
accept_failed-AllSound s sound =
    if_each AllSound s.server.accepting _ s
      (λ e. ((λ e'. sound.0.0 e, λ e'. absurd (cc)), λ e'. absurd (cc))) (λ e. sound)
