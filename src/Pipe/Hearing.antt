-- ===== src/Pipe/Hearing.antt =====
-- src/src/pipe/create.cpp: what the user is told of the peer, and the code that does not change it.
use nil_service.Common.{
  ℕ, ◌+◌, ◌≡◌, refl, ap, ◌∙◌, Bool, true, false, Option, none, some, List, ◌++◌, arith, Bytes,
}
use nil_service.Codec.{Endian}
use nil_service.Service.{Effect}
use nil_service.Service.Calls.{
  live, connects_of, disconnects_of, connects_of-append, disconnects_of-append, Told,
}
use nil_service.Pipe.Opening.{
  Fd, Reading, Pipe, schedule_probe, schedule_read_wait, write_to, write_message, start_reading,
  read_header, read_next_header, reset_writer, reconnect_write, stop_unless,
}

abbrev pub count : Bool → ℕ
count true = 1
count false = 0

-- One callback of each kind is registered.
pub record IsHeard (s : Pipe) : Type 0 where
  pub connect_heard : live s.handlers.on_connect_cb ≡ 1
  pub disconnect_heard : live s.handlers.on_disconnect_cb ≡ 1

-- What a piece of code keeps, and what it tells of the peer.
pub record KeepsPeer (s : Pipe) (r : Pipe × List Effect) : Type 0 where
  pub heard : IsHeard r.0
  pub this_same : r.0.this ≡ s.this
  pub balance :
      count r.0.connected + disconnects_of s.this r.1 ≡ count s.connected + connects_of s.this r.1

-- What code that is not about the peer leaves as it is.
abbrev pub Same : Pipe → Pipe → Type 0
Same s r =
    (r.connected ≡ s.connected)
    × (r.this ≡ s.this)
    × (r.handlers.on_connect_cb ≡ s.handlers.on_connect_cb)
    × (r.handlers.on_disconnect_cb ≡ s.handlers.on_disconnect_cb)

pub quiet :
    (s r : Pipe) (out : List Effect)
    → IsHeard s
    → Same s r
    → Told s.this out 0 0
    → KeepsPeer s (r, out)
quiet s r out h same told = record {
  heard = record {
    connect_heard = ap live same.2 ∙ h.connect_heard;
    disconnect_heard = ap live same.3 ∙ h.disconnect_heard;
  };
  this_same = same.1;
  balance = omega (arith, ap count same.0, told);
}

-- The same from a state that differs in nothing that matters.
pub moved : (s s' : Pipe) (r : Pipe × List Effect) → Same s s' → KeepsPeer s' r → KeepsPeer s r
moved s s' r same k = record {
  heard = k.heard;
  this_same = k.this_same ∙ same.1;
  balance = rw (same.1, same.0) at (k.balance);
}

pub then-KeepsPeer :
    (s : Pipe) (r q : Pipe × List Effect)
    → KeepsPeer s r
    → KeepsPeer r.0 q
    → KeepsPeer s (q.0, r.1 ++ q.1)
then-KeepsPeer s r q k l = record {
  heard = l.heard;
  this_same = l.this_same ∙ k.this_same;
  balance = omega (
    arith,
    connects_of-append s.this r.1 q.1,
    disconnects_of-append s.this r.1 q.1,
    k.balance,
    rw (k.this_same) at (l.balance),
  );
}

pub moved-IsHeard : (s s' : Pipe) → Same s s' → IsHeard s → IsHeard s'
moved-IsHeard s s' same h = record {
  connect_heard = ap live same.2 ∙ h.connect_heard;
  disconnect_heard = ap live same.3 ∙ h.disconnect_heard;
}

pub start_reading-Same : (s : Pipe) → Same s (start_reading s)
unfolding start_reading read_next_header read_header
start_reading-Same s = ground arith

pub read_next_header-Same : (s : Pipe) → Same s (read_next_header s)
unfolding read_next_header read_header
read_next_header-Same s = ground arith

pub read_header-Same : (pos size : ℕ) (s : Pipe) → Same s (read_header pos size s)
unfolding read_header
read_header-Same pos size s = ground arith

pub schedule_read_wait-Same : (r : Reading) (s : Pipe) → Same s (schedule_read_wait r s)
unfolding schedule_read_wait
schedule_read_wait-Same r s = ground arith

pub stop_unless-Same : (b : Bool) (s : Pipe) → Same s (stop_unless b s)
unfolding stop_unless
stop_unless-Same b s = ground arith

pub reconnect_write-Same : (r : Fd) (s : Pipe) → Same s (reconnect_write r s).0
unfolding reconnect_write reset_writer schedule_probe
reconnect_write-Same r s = ground arith

write_to-Told : (b : ℕ) (e : Endian) (msg : Bytes) (w : Option ℕ) → Told b (write_to e msg w) 0 0
unfolding write_to
write_to-Told b e msg none = (refl, refl)
write_to-Told b e msg (some w) = (refl, refl)

pub write_message-KeepsPeer :
    (e : Endian) (msg : Bytes) (s : Pipe) → IsHeard s → KeepsPeer s (write_message e msg s)
unfolding write_message
write_message-KeepsPeer e msg s h =
    quiet s s (write_to e msg s.writer) h (refl, refl, refl, refl)
      (write_to-Told s.this e msg s.writer)
