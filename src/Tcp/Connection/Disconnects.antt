-- ===== src/Tcp/Connection/Disconnects.antt =====
-- src/src/tcp/Connection.cpp: when a connection asks to be disconnected.
use nil_service.Common.{ℕ, suc, ◌+◌, ◌≡◌, refl, List, [], ◌∷◌, arith, length, add64}
use nil_service.Codec.{Endian}
use nil_service.Stream.{Signal, connected, disconnected, message}
use nil_service.Tcp.Connection.{
  Reading, header, body, closed, Connection, payload_size, received_at, store_received, read_body,
  Completion, failed, received, header_received, body_received, complete_at, complete,
}
use nil_service.Tcp.Connection.Bounds.{FitsCompletion}

-- How many disconnects a list of signals announces.
abbrev pub disconnects : List Signal → ℕ
disconnects [] = 0
disconnects (disconnected ∷ out) = suc (disconnects out)
disconnects (connected ∷ out) = disconnects out
disconnects (message payload ∷ out) = disconnects out

abbrev pub closed_reading : Reading → ℕ
closed_reading closed = 1
closed_reading (header pos size) = 0
closed_reading (body pos size) = 0

disconnects-read_body :
    (pos n : ℕ) (c : Connection)
    → closed_reading (read_body pos n c).0.reading ≡ disconnects (read_body pos n c).1
unfolding read_body
disconnects-read_body pos n c = ground arith

disconnects-complete_at :
    (e : Endian) (r : Reading) (result : Completion) (c : Connection)
    → c.reading ≡ r
    → FitsCompletion r result
    → closed_reading (complete_at e r result c).0.reading
      ≡ closed_reading r + disconnects (complete_at e r result c).1
unfolding complete_at header_received body_received
disconnects-complete_at e closed failed c q fits = ground arith
disconnects-complete_at e closed (received chunk) c q fits = absurd fits
disconnects-complete_at e (header pos size) failed c q fits = refl
disconnects-complete_at e (body pos size) failed c q fits = refl
disconnects-complete_at e (header pos size) (received chunk) c q fits = ground (
  arith,
  disconnects-read_body 0 (payload_size e (received_at pos chunk c.r_buffer))
      (store_received pos chunk c),
)
disconnects-complete_at e (body pos size) (received chunk) c q fits =
    ground
      (arith, disconnects-read_body (add64 pos (length chunk)) size (store_received pos chunk c))

-- At the end of a read, with an error or with bytes that fit, a connection asks to be disconnected
-- exactly as often (0 or 1) as it stops reading.
pub disconnects-complete :
    (e : Endian) (result : Completion) (c : Connection)
    → FitsCompletion c.reading result
    → closed_reading (complete e result c).0.reading
      ≡ closed_reading c.reading + disconnects (complete e result c).1
unfolding complete
disconnects-complete e result c fits = disconnects-complete_at e c.reading result c refl fits
