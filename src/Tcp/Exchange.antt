-- ===== src/Tcp/Exchange.antt =====
-- The two ends of one stream of src/src/tcp.
pub mod ToServer
pub mod Written
pub mod ToClient
use nil_service.Common.{
  ℕ, ==-self, ◌≤◌, ◌≡◌, refl, ap, ap₂, ◌∙◌, true, false, Option, none, some, List, [], ◌∷◌, ◌++◌,
  if◌then◌else◌, ◌==◌, append_assoc, append-nil, flatten, length, Bytes, All, Bool-cases, if-false,
  inl, inr,
}
use nil_service.Codec.{Endian}
use nil_service.Codec.ByteOrder.{to_array-digits}
use nil_service.Stream.{frame, frames, deliveries}
use nil_service.Service.{
  ServiceId, contains_id, Call, on_disconnect, Effect, called, sent, invoke, invoke_disconnect,
  run_all,
}
use nil_service.Service.Peers.{Peer, at}
use nil_service.Tcp.Connection.Bounds.{IsValid, Fits}
use nil_service.Tcp.Connection.{Connection, offered}
use nil_service.Tcp.Connection.Refinement.{IsIdle}
use nil_service.Tcp.Client
use nil_service.Tcp.Client.{Task, publish, publish_ex, send, disconnect, user}
use nil_service.Tcp.Server
use nil_service.Tcp.Hearing.{calls_for}
use nil_service.Tcp.Server.Delivery.{reading_events, reading-frames}

-- The bytes that a list of effects puts on the stream to an address, if the socket takes them whole.
abbrev pub stream_to : ℕ → List Effect → Bytes
stream_to a [] = []
stream_to a (called call ∷ out) = stream_to a out
stream_to a (sent b bytes ∷ out) = if b == a then bytes ++ stream_to a out else stream_to a out

pub stream_to-append :
    (a : ℕ) (xs ys : List Effect) → stream_to a (xs ++ ys) ≡ stream_to a xs ++ stream_to a ys
stream_to-append a [] ys = refl
stream_to-append a (called call ∷ xs) ys = stream_to-append a xs ys
stream_to-append a (sent b bytes ∷ xs) ys = elim (Bool-cases (b == a)) [
  | inl h ↦ rw (h, stream_to-append a xs ys, append_assoc)
  | inr h ↦ rw (h, stream_to-append a xs ys)
]

pub stream_to-invoke :
    (a : ℕ) (call : ℕ → Call) (cbs : List (Option ℕ)) → stream_to a (invoke call cbs) ≡ []
unfolding invoke
stream_to-invoke a call [] = refl
stream_to-invoke a call (none ∷ cbs) = stream_to-invoke a call cbs
stream_to-invoke a call (some cb ∷ cbs) = stream_to-invoke a call cbs

pub offered-frame : (e : Endian) (msg : Bytes) → offered e msg ≡ frame msg
unfolding offered frame
offered-frame e msg = ap (λ (h : Bytes). h ++ msg) (to_array-digits e 8 (length msg))
