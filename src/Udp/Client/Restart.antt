-- ===== src/Udp/Client/Restart.antt =====
-- src/src/udp/client/create.cpp: what the client makes of a datagram, also after a restart.
use nil_service.Common.{◌≡◌, refl, ap, true, false, [], ◌++◌, arith, Bytes}
use nil_service.Codec.{Endian}
use nil_service.Service.{invoke_ready, invoke_connect}
use nil_service.Udp.{probe, external}
use nil_service.Udp.Datagram.{external-parts, probe-parts}
use nil_service.Udp.Client.{Client, Opening, restart, pong, usermsg, message, local_id, remote_id}

-- The client hands a message datagram to the user without its marker, takes a probe as a sign of
-- life of the server, and ignores an empty datagram, whatever the byte order of either side.
pub message_cases :
    (e e' : Endian) (msg : Bytes) (s : Client)
    → (message e (external e' msg) s ≡ usermsg msg s)
      × (message e (probe e') s ≡ pong s)
      × (message e [] s ≡ (s, []))
unfolding message
message_cases e e' msg s =
    let (long, marker, rest) = external-parts e e' msg in
    let (long', marker') = probe-parts e e' in
    (rw (long, marker) (ap (λ (m : Bytes). usermsg m s) rest), rw (long', marker'), refl)

-- If no server is connected, a probe that comes back calls every `on_ready` callback with the
-- local identity, and then every `on_connect` callback with the server's.
pub probe-announces :
    (e e' : Endian) (s : Client)
    → s.connected ≡ false
    → (message e (probe e') s).1
      ≡ invoke_ready s.handlers (local_id s) ++ invoke_connect s.handlers (remote_id s)
unfolding pong
probe-announces e e' s q = rw ((message_cases e e' [] s).1, q)

restart-connected :
    (e : Endian) (o : Opening) (s : Client) → (restart e o s).0.connected ≡ s.connected
unfolding restart
restart-connected e o s = ground arith

restart-waiting : (e : Endian) (o : Opening) (s : Client) → (restart e o s).0.waiting ≡ false
unfolding restart
restart-waiting e o s = ground arith

-- After the restart of a client that is connected, the timer that ends the session is not set, and
-- a probe that comes back calls no callback.
pub restart-silent :
    (e e' : Endian) (o : Opening) (s : Client)
    → s.connected ≡ true
    → ((message e (probe e') (restart e o s).0).1 ≡ []) × ((restart e o s).0.waiting ≡ false)
unfolding pong
restart-silent e e' o s q = (
  rw ((message_cases e e' [] (restart e o s).0).1, restart-connected e o s, q),
  restart-waiting e o s,
)
