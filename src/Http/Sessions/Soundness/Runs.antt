-- ===== src/Http/Sessions/Soundness/Runs.antt =====
-- Runs of src/src/http/server/create.cpp never use a pointer to an executor that is null or dangles, if
-- its user keeps to the order of calls.
use nil_service.Common.{◌≡◌, true, false, none, some, List, [], ◌∷◌}
use mathlib.Core.Option
use nil_service.Http.Server
use nil_service.Http.Server.{Server, Route, accept, dispatch, websocket, post_to, post_at}
use nil_service.Http.Sessions.{Sessions, Result, Event, requests, uses_ws, step}

-- A WebSocket is added before the server accepts, a request to a WebSocket is made while it does.
abbrev pub FitsEvent : Event → Sessions → Type 0
FitsEvent (uses_ws key this impl) s = s.server.accepting ≡ false
FitsEvent (requests key task) s = s.server.accepting ≡ true
FitsEvent _ s = Unit

abbrev pub HoldsAfter : (Sessions → Type 0) → Result → Type 0
HoldsAfter P none = Unit
HoldsAfter P (some r) = P r.0

abbrev pub FitsEvents : List Event → Sessions → Type 0
FitsEvents [] s = Unit
FitsEvents (x ∷ xs) s = FitsEvent x s × HoldsAfter (FitsEvents xs) (step x s)
