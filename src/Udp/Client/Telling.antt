-- ===== src/Udp/Client/Telling.antt =====
-- src/src/udp/client/create.cpp: what the handlers of datagrams and timers tell the user of the session.
use nil_service.Common.{
  ℕ, ◌+◌, ◌≡◌, refl, Bool, true, false, not, ◌||◌, List, arith, Bytes, if_both, leb, length, drop,
}
use nil_service.Codec.{Endian, from_array}
use nil_service.Service.{Effect, invoke_connect, invoke_ready}
use nil_service.Service.Calls.{
  live, connects_of, disconnects_of, connects_of-append, disconnects_of-append, invoke_connect-Told,
  invoke_disconnect-Told, invoke_ready-Told, invoke_message-Told,
}
use nil_service.Udp.Client.{
  Client, remote_id, local_id, Opening, usermsg, pong, recreate_socket, timed_out, message,
  is_internal,
}

abbrev pub count : Bool → ℕ
count true = 1
count false = 0

-- One callback of each kind is registered, and while a server is connected its time runs.
pub record IsValid (s : Client) : Type 0 where
  pub connect_heard : live s.handlers.on_connect_cb ≡ 1
  pub disconnect_heard : live s.handlers.on_disconnect_cb ≡ 1
  pub timed : (not s.connected || s.waiting) ≡ true

-- What a piece of code keeps, and what it tells of the server.
pub record KeepsSession (s : Client) (r : Client × List Effect) : Type 0 where
  pub valid : IsValid r.0
  pub this_same : r.0.this ≡ s.this
  pub balance :
      count r.0.connected + disconnects_of s.this r.1 ≡ count s.connected + connects_of s.this r.1

pong-KeepsSession : (s : Client) → IsValid s → KeepsSession s (pong s)
unfolding pong
pong-KeepsSession s v = record {
  valid = ground (arith, v.connect_heard, v.disconnect_heard);
  this_same = ground arith;
  balance = ground (
    arith,
    connects_of-append s.this (invoke_ready s.handlers (local_id s))
        (invoke_connect s.handlers (remote_id s)),
    disconnects_of-append s.this (invoke_ready s.handlers (local_id s))
        (invoke_connect s.handlers (remote_id s)),
    invoke_ready-Told s.this s.handlers (local_id s),
    invoke_connect-Told s.this s.handlers (remote_id s),
    v.connect_heard,
  );
}

usermsg-KeepsSession :
    (payload : Bytes) (s : Client) → IsValid s → KeepsSession s (usermsg payload s)
unfolding usermsg
usermsg-KeepsSession payload s v = record {
  valid = v;
  this_same = refl;
  balance = omega (arith, invoke_message-Told s.this s.handlers (remote_id s) payload);
}

-- What opening the socket leaves as it is.
abbrev pub Same : Client → Client → Type 0
Same s r =
    (r.connected ≡ s.connected)
    × (r.handlers ≡ s.handlers)
    × (r.this ≡ s.this)
    × (r.waiting ≡ s.waiting)

recreate_socket-Same : (o : Opening) (s : Client) → Same s (recreate_socket o s)
unfolding recreate_socket
recreate_socket-Same o s = ground arith

pub timed_out-KeepsSession : (o : Opening) (s : Client) → IsValid s → KeepsSession s (timed_out o s)
unfolding timed_out
timed_out-KeepsSession o s v =
    let same : Same (record s { connected = false; waiting = false })
        (recreate_socket o (record s { connected = false; waiting = false })) =
      recreate_socket-Same o (record s { connected = false; waiting = false }) in
    record {
      valid = record {
        connect_heard = ground (arith, same, v.connect_heard);
        disconnect_heard = ground (arith, same, v.disconnect_heard);
        timed = ground (arith, same);
      };
      this_same = ground (arith, same);
      balance =
          ground (
            arith,
            same,
            invoke_disconnect-Told s.this s.handlers (remote_id s),
            v.disconnect_heard,
          );
    }

pub message-KeepsSession :
    (e : Endian) (bytes : Bytes) (s : Client) → IsValid s → KeepsSession s (message e bytes s)
unfolding message
message-KeepsSession e bytes s v =
    if_both (KeepsSession s) (leb 1 (length bytes)) _ _
      (if_both (KeepsSession s) (is_internal (from_array e 1 bytes)) _ _ (pong-KeepsSession s v)
        (usermsg-KeepsSession (drop 1 bytes) s v))
      (record { valid = v; this_same = refl; balance = refl })

-- What a step that tells nothing keeps.
