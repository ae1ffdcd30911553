-- ===== src/Http/Sessions/Soundness/Tasks.antt =====
-- The tasks of the executor of src/src/http/server/create.cpp keep the pointers sound.
use nil_service.Common.{ℕ, ◌≡◌, ◌∙◌, refl, false, Option, none, some, List, [], ◌∷◌, All, if_both}
use nil_service.Service.{Effect, run_all, ServiceId}
use nil_service.Service.Peers.{Peer, erase}
use nil_service.Ws.Connection.{Connection}
use nil_service.Http.WebSocket
use nil_service.Http.WebSocket.{WebSocket, remote}
use nil_service.Http.Server.{
  Route, Server, Task, ready, websocket, user, find_route, announce, accept, ready_task,
  run_websocket, run_task, turn_of, turn, poll,
}
use nil_service.Http.Sessions.Soundness.{
  IsCurrent, IsQuiet, IsSound, find_route-All, replace_route-All,
}

-- What a piece of the executor's code keeps: the server stays sound, and goes on accepting.
abbrev pub KeepsServer : Server → Server → Type 0
KeepsServer s s' = IsSound s' × (s'.accepting ≡ false → s.accepting ≡ false)

announce-IsCurrent :
    (context : ℕ) (rs : List Route) → All (IsCurrent context) (announce context rs).0
unfolding announce WebSocket.ready
announce-IsCurrent context [] = tt
announce-IsCurrent context (r ∷ rs) = (refl, announce-IsCurrent context rs)

erase-IsQuiet :
    (remote : ℕ → ServiceId) (id : ServiceId) (cs : List (Peer Connection))
    → All IsQuiet cs
    → All IsQuiet (erase remote id cs)
unfolding erase
erase-IsQuiet remote id [] all = tt
erase-IsQuiet remote id (c ∷ cs) all =
    if_both (All IsQuiet) _ (erase remote id cs) (c ∷ erase remote id cs)
      (erase-IsQuiet remote id cs all.1) (all.0, erase-IsQuiet remote id cs all.1)

-- A task of a WebSocket keeps its pointer, and starts no read.
run_task-context :
    (task : WebSocket.Task) (w : WebSocket) → (WebSocket.run_task task w).0.context ≡ w.context
unfolding WebSocket.run_task WebSocket.publish_task WebSocket.publish_ex_task WebSocket.send_task
    WebSocket.disconnect_task
run_task-context (WebSocket.publish msg) w = refl
run_task-context (WebSocket.publish_ex ids msg) w = refl
run_task-context (WebSocket.send ids msg) w = refl
run_task-context (WebSocket.disconnect id) w = refl

run_task-IsQuiet :
    (task : WebSocket.Task) (w : WebSocket)
    → All IsQuiet w.connections
    → All IsQuiet (WebSocket.run_task task w).0.connections
unfolding WebSocket.run_task WebSocket.publish_task WebSocket.publish_ex_task WebSocket.send_task
    WebSocket.disconnect_task
run_task-IsQuiet (WebSocket.publish msg) w all = all
run_task-IsQuiet (WebSocket.publish_ex ids msg) w all = all
run_task-IsQuiet (WebSocket.send ids msg) w all = all
run_task-IsQuiet (WebSocket.disconnect id) w all = erase-IsQuiet (remote w) id w.connections all

run_websocket-KeepsServer :
    (key : ℕ) (task : WebSocket.Task) (o : Option WebSocket) (s : Server)
    → find_route key s.wss ≡ o
    → IsSound s
    → KeepsServer s (run_websocket key task o s).0
unfolding run_websocket
run_websocket-KeepsServer key task none s found sound = (sound, λ e. e)
run_websocket-KeepsServer key task (some w) s found (current, idle) = (
  (
    λ e.
        replace_route-All (λ v. v.context ≡ some s.context) key (WebSocket.run_task task w).0 s.wss
          (current e)
          (run_task-context task w
            ∙ find_route-All (λ v. v.context ≡ some s.context) key w s.wss found (current e)),
    λ e.
        replace_route-All (λ v. All IsQuiet v.connections) key (WebSocket.run_task task w).0 s.wss
          (idle e)
          (run_task-IsQuiet task w
            (find_route-All (λ v. All IsQuiet v.connections) key w s.wss found (idle e))),
  ),
  λ e. e,
)

pub run_task-KeepsServer :
    (task : Task) (s : Server) → IsSound s → KeepsServer s (run_task task s).0
unfolding run_task ready_task accept
run_task-KeepsServer ready s sound =
    ((λ e. announce-IsCurrent s.context s.wss, λ e. absurd (cc)), λ e. absurd (cc))
run_task-KeepsServer (websocket key task) s sound =
    run_websocket-KeepsServer key task (find_route key s.wss) s refl sound
run_task-KeepsServer (user f) s sound = (sound, λ e. e)

run_all-KeepsServer :
    (tasks : List Task) (s : Server) → IsSound s → KeepsServer s (run_all run_task tasks s).0
unfolding run_all
run_all-KeepsServer [] s sound = (sound, λ e. e)
run_all-KeepsServer (task ∷ tasks) s sound =
    let (sound', on) = run_task-KeepsServer task s sound in
    let (sound'', on') = run_all-KeepsServer tasks (run_task task s).0 sound' in
    (sound'', λ e. on (on' e))

pub poll-KeepsServer : (s : Server) → IsSound s → KeepsServer s (poll s).0
unfolding poll
poll-KeepsServer s sound =
    if_both (λ (r : Server × List Effect). KeepsServer s r.0) s.stopped (s, [])
      (run_all run_task s.posted (record s { posted = [] })) (sound, λ e. e)
      (run_all-KeepsServer s.posted (record s { posted = [] }) sound)

turn_of-KeepsServer :
    (tasks : List Task) (s : Server) → IsSound s → KeepsServer s (turn_of tasks s).0
unfolding turn_of
turn_of-KeepsServer [] s sound = (sound, λ e. e)
turn_of-KeepsServer (task ∷ tasks) s sound =
    if_both (λ (r : Server × List Effect). KeepsServer s r.0) s.stopped (s, [])
      (run_task task (record s { posted = tasks })) (sound, λ e. e)
      (run_task-KeepsServer task (record s { posted = tasks }) sound)

pub turn-KeepsServer : (s : Server) → IsSound s → KeepsServer s (turn s).0
unfolding turn
turn-KeepsServer s sound = turn_of-KeepsServer s.posted s sound
