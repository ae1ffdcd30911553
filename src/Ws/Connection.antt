-- ===== src/Ws/Connection.antt =====
-- src/src/ws/Connection.cpp. The framing is Boost.Beast's: a read ends with one whole message, or with an
-- error, which it also does if the message is larger than the buffer.
use nil_service.Common.{ℕ, Bool, true, false, List, [], ◌∷◌, Bytes, if◌then◌else◌}
use nil_service.Stream.{Signal, connected, disconnected, message}

-- `buffer` is the limit of `flat_buffer`; `reading` tells that an `async_read` is outstanding.
pub record Connection : Type 0 where
  pub buffer : ℕ
  pub reading : Bool

-- The constructor.
unfoldable pub new : ℕ → Connection
new buffer = record { buffer = buffer; reading = false }

unfoldable pub read : Connection → Connection
read c = record c { reading = true }

unfoldable pub run : Connection → Connection × List Signal
unfolding read
run c = (read c, connected ∷ [])

pub data Completion : Type 0 where
  failed : Completion
  received : Bytes → Completion

-- The handler of `read`.
unfoldable pub complete_read : Completion → Connection → Connection × List Signal
unfolding read
complete_read failed c = (record c { reading = false }, disconnected ∷ [])
complete_read (received payload) c = (read (record c { reading = false }), message payload ∷ [])

unfoldable pub complete : Completion → Connection → Connection × List Signal
complete result c = if c.reading then complete_read result c else (c, [])
