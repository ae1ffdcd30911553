-- ===== src/Tcp/Hearing.antt =====
-- The calls of src/src/tcp for what a connection tells its service.
use nil_service.Common.{◌≡◌, refl, List, [], ◌∷◌, ◌++◌, append_assoc}
use nil_service.Stream.{Signal, connected, disconnected, message}
use nil_service.Service.{ServiceId, Effect, Handlers, invoke_connect, invoke_message}

-- The calls of the user's functions for the signals of a connection.
abbrev pub calls_for : Handlers → ServiceId → List Signal → List Effect
calls_for hs id [] = []
calls_for hs id (connected ∷ out) = invoke_connect hs id ++ calls_for hs id out
calls_for hs id (message payload ∷ out) = invoke_message hs id payload ++ calls_for hs id out
calls_for hs id (disconnected ∷ out) = calls_for hs id out

pub calls_for-append :
    (hs : Handlers) (id : ServiceId) (xs ys : List Signal)
    → calls_for hs id (xs ++ ys) ≡ calls_for hs id xs ++ calls_for hs id ys
calls_for-append hs id [] ys = refl
calls_for-append hs id (connected ∷ xs) ys = rw (calls_for-append hs id xs ys, append_assoc)
calls_for-append hs id (message payload ∷ xs) ys = rw (calls_for-append hs id xs ys, append_assoc)
calls_for-append hs id (disconnected ∷ xs) ys = calls_for-append hs id xs ys
