-- ===== src/Http/Server/Restart.antt =====
-- src/src/http/server/create.cpp: the pointers of the WebSockets to the executor, over a restart.
use nil_service.Common.{ℕ, suc, ◌≡◌, refl, none, some, List, [], ◌∷◌, ==-self, arith}
use nil_service.Http.WebSocket
use nil_service.Http.WebSocket.{WebSocket}
use nil_service.Http.Server.{
  Route, Server, websocket, find_route, announce, ready_task, drop_reads, drop_all_reads, restart,
  dispatch, post_to, request, accept,
}

find_route-drop_all_reads :
    (key : ℕ) (w : WebSocket) (rs : List Route)
    → find_route key rs ≡ some w
    → find_route key (drop_all_reads rs)
      ≡ some (record w { connections = drop_reads w.connections })
unfolding find_route drop_all_reads
find_route-drop_all_reads key w [] q = absurd (cc)
find_route-drop_all_reads key w (r ∷ rs) q = ground (arith, find_route-drop_all_reads key w rs)

find_route-announce :
    (context key : ℕ) (w : WebSocket) (rs : List Route)
    → find_route key rs ≡ some w
    → find_route key (announce context rs).0 ≡ some (record w { context = some context })
unfolding find_route announce WebSocket.ready
find_route-announce context key w [] q = absurd (cc)
find_route-announce context key w (r ∷ rs) q = ground (arith, find_route-announce context key w rs)

post_to-current :
    (key : ℕ) (task : WebSocket.Task) (s : Server)
    → post_to key task (some s.context) s ≡ some (dispatch (websocket key task) s)
unfolding post_to
post_to-current key task s = rw (==-self s.context) refl

post_to-old :
    (key context : ℕ) (task : WebSocket.Task) (s : Server)
    → s.context ≡ suc context
    → post_to key task (some context) s ≡ none
unfolding post_to
post_to-old key context task s q = ground arith

-- After the restart of a server, a request to a WebSocket that has been announced uses the executor that
-- the restart has destroyed; after the server's next announcement it is posted to the new one.
pub restart-dangles :
    (key : ℕ) (task : WebSocket.Task) (w : WebSocket) (s : Server)
    → find_route key s.wss ≡ some w
    → w.context ≡ some s.context
    → (request key task (restart s) ≡ none)
      × (request key task (ready_task (restart s)).0
          ≡ some (dispatch (websocket key task) (ready_task (restart s)).0))
unfolding request restart ready_task accept
restart-dangles key task w s found current = (
  rw (find_route-drop_all_reads key w s.wss found, current)
      (post_to-old key s.context task (restart s) refl),
  rw
      (find_route-announce (suc s.context) key (record w { connections = drop_reads w.connections })
        (drop_all_reads s.wss) (find_route-drop_all_reads key w s.wss found))
      (post_to-current key task (ready_task (restart s)).0),
)
