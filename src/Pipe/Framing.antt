-- ===== src/Pipe/Framing.antt =====
-- src/src/pipe/create.cpp: its reads of framed messages, by way of those of src/src/tcp/Connection.cpp.
use nil_service.Common.{
  ◌+◌, ◌≤◌, ◌≡◌, refl, sym, ap, ◌∙◌, List, [], ◌∷◌, ◌++◌, arith, length, Bytes, All, flatten, map,
  append_assoc,
}
use mathlib.Core.Path.{subst}
use nil_service.Codec.{Endian}
use nil_service.Service.{ServiceId, Effect, Handlers, invoke_message, run_all}
use nil_service.Stream.{Signal, connected, disconnected, message, frames, deliveries, Partial}
use nil_service.Tcp.Connection
use nil_service.Tcp.Connection.{Connection}
use nil_service.Tcp.Connection.Refinement.{complete_all-frames, view}
use nil_service.Tcp.Connection.Disconnects.{disconnects}
use nil_service.Tcp.Connection.Bounds.{Fits, IsValid, complete-IsValid}
use nil_service.Pipe.{received, Event, completes, run_events, step}
use nil_service.Pipe.Opening.{Pipe, Fd, Reading, header, body, idle, self_id}
use nil_service.Pipe.Simulation.{
  as_tcp, heard, IsOpen, from_tcp, moved, moved_with, connection_of, complete-moved,
}

as_tcp-from_tcp : (r : Connection.Reading) → as_tcp (from_tcp r) ≡ r
as_tcp-from_tcp (Connection.header pos size) = refl
as_tcp-from_tcp (Connection.body pos size) = refl
as_tcp-from_tcp Connection.closed = refl

connection_of-moved : (s : Pipe) (c : Connection) → connection_of (moved s c) ≡ c
connection_of-moved s c =
    ap (λ r. record { r_buffer = c.r_buffer; reading = r }) (as_tcp-from_tcp c.reading)

from_tcp-as_tcp : (r : Reading) → from_tcp (as_tcp r) ≡ r
from_tcp-as_tcp (header pos size) = refl
from_tcp-as_tcp (body pos size) = refl
from_tcp-as_tcp idle = refl

-- The events by which a pipe reads a stream.
abbrev pub reads : Fd → List Bytes → List Event
reads rfd chunks = map (λ chunk. completes rfd (received chunk)) chunks

moved-IsOpen : (s : Pipe) (c : Connection) → IsOpen s → IsValid s.buffer c → IsOpen (moved s c)
moved-IsOpen s c valid kept = record {
  representable = valid.representable;
  buffered = kept.buffered;
  reads = valid.reads;
  heard_before = valid.heard_before;
}

disconnects-append :
    (xs ys : List Signal) → disconnects (xs ++ ys) ≡ disconnects xs + disconnects ys
disconnects-append [] ys = omega arith
disconnects-append (connected ∷ xs) ys = disconnects-append xs ys
disconnects-append (disconnected ∷ xs) ys = omega (arith, disconnects-append xs ys)
disconnects-append (message payload ∷ xs) ys = disconnects-append xs ys

heard-append :
    (hs : Handlers) (id : ServiceId) (xs ys : List Signal)
    → heard hs id (xs ++ ys) ≡ heard hs id xs ++ heard hs id ys
heard-append hs id [] ys = refl
heard-append hs id (connected ∷ xs) ys = heard-append hs id xs ys
heard-append hs id (disconnected ∷ xs) ys = heard-append hs id xs ys
heard-append hs id (message payload ∷ xs) ys =
    ap (◌++◌ (invoke_message hs id payload)) (heard-append hs id xs ys)
    ∙ sym (append_assoc (invoke_message hs id payload) (heard hs id xs) (heard hs id ys))

module _ (e : Endian) (rfd : Fd) where
  -- A pipe reads a stream as the connection does, while this asks for no disconnect.
  run_events-moved :
      (chunks : List Bytes) (s : Pipe)
      → IsOpen s
      → IsValid s.buffer (connection_of s)
      → Fits e chunks (connection_of s)
      → disconnects (Connection.complete_all e chunks (connection_of s)).1 ≡ 0
      → run_events e (reads rfd chunks) s
        ≡ moved_with s (Connection.complete_all e chunks (connection_of s))
  unfolding run_events run_all step Connection.complete_all
  run_events-moved [] s valid sound fits stays =
      ap (λ r. (record s { reading = r }, [])) (sym (from_tcp-as_tcp s.reading))
  run_events-moved (chunk ∷ chunks) s valid sound fits stays =
      let (c, out) = Connection.complete e (Connection.received chunk) (connection_of s) in
      let more = (Connection.complete_all e chunks c).1 in
      let kept =
        complete-IsValid e s.buffer (Connection.received chunk) (connection_of s) sound fits.0 in
      let first =
        complete-moved e rfd chunk s valid sound.bounded fits.0
          (omega (arith, disconnects-append out more)) in
      let back = sym (connection_of-moved s c) in
      let rest =
        run_events-moved chunks (moved s c) (moved-IsOpen s c valid kept)
          (subst (IsValid s.buffer) back kept) (subst (Fits e chunks) back fits.1)
          (ap (λ d. disconnects (Connection.complete_all e chunks d).1) (sym back)
            ∙ omega (arith, disconnects-append out more)) in
      let hear = heard s.handlers (self_id s) in
      ap
        (λ (r : Pipe × List Effect).
          let (s', xs) = run_events e (reads rfd chunks) r.0 in (s', r.1 ++ xs))
        first
      ∙ ap (λ (q : Pipe × List Effect). (q.0, hear out ++ q.1)) rest
      ∙ ap
          (λ d.
            let (d', xs) = Connection.complete_all e chunks d in (moved s d', hear out ++ hear xs))
          (sym back)
      ∙ ap (λ xs. (moved s (Connection.complete_all e chunks c).0, xs))
          (sym (heard-append s.handlers (self_id s) out more))

disconnects-deliveries : (ms : List Bytes) → disconnects (deliveries ms) ≡ 0
disconnects-deliveries [] = refl
disconnects-deliveries ([] ∷ ms) = disconnects-deliveries ms
disconnects-deliveries ((b ∷ m) ∷ ms) = disconnects-deliveries ms

-- The calls for the messages, the empty ones excepted.
abbrev pub messages_heard : Handlers → ServiceId → List Bytes → List Effect
messages_heard hs id [] = []
messages_heard hs id ([] ∷ ms) = messages_heard hs id ms
messages_heard hs id ((b ∷ m) ∷ ms) = invoke_message hs id (b ∷ m) ++ messages_heard hs id ms

heard-deliveries :
    (hs : Handlers) (id : ServiceId) (ms : List Bytes)
    → heard hs id (deliveries ms) ≡ messages_heard hs id ms
heard-deliveries hs id [] = refl
heard-deliveries hs id ([] ∷ ms) = heard-deliveries hs id ms
heard-deliveries hs id ((b ∷ m) ∷ ms) =
    ap (◌++◌ (invoke_message hs id (b ∷ m))) (heard-deliveries hs id ms)

-- A pipe that waits for a header from a peer that it has heard before hands framed messages of at most
-- `buffer` bytes to its message handlers, in order and uncut, the empty ones excepted, and calls nothing
-- else, however the reads that fit cut the stream; it then waits for a header again.
pub run_events-frames :
    (e : Endian) (rfd : Fd) (chunks ms : List Bytes) (s : Pipe)
    → IsOpen s
    → s.reading ≡ header 0 8
    → Fits e chunks (connection_of s)
    → All (λ m. length m ≤ s.buffer) ms
    → flatten chunks ≡ frames ms
    → ((run_events e (reads rfd chunks) s).1 ≡ messages_heard s.handlers (self_id s) ms)
      × (view (connection_of (run_events e (reads rfd chunks) s).0) ≡ Partial.header [])
run_events-frames e rfd chunks ms s valid waits fits small same =
    let sound : IsValid s.buffer (connection_of s) = record {
      representable = valid.representable;
      buffered = valid.buffered;
      bounded = rw waits (refl, omega arith);
    } in
    let (left, out) =
      complete_all-frames e s.buffer chunks ms (connection_of s) sound (ap as_tcp waits) fits small
        same in
    let runs =
      run_events-moved e rfd chunks s valid sound fits
        (ap disconnects out ∙ disconnects-deliveries ms) in
    (
      ap (λ (r : Pipe × List Effect). r.1) runs
          ∙ ap (heard s.handlers (self_id s)) out
          ∙ heard-deliveries s.handlers (self_id s) ms,
      ap (λ (r : Pipe × List Effect). view (connection_of r.0)) runs
          ∙ ap view (connection_of-moved s (Connection.complete_all e chunks (connection_of s)).0)
          ∙ left,
    )
