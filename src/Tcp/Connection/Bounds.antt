-- ===== src/Tcp/Connection/Bounds.antt =====
-- src/src/tcp/Connection.cpp: the bounds of its reads.
use nil_service.Common.{
  ℕ, ◌+◌, ◌≤◌, ◌<◌, ◌≡◌, refl, ◌∙◌, List, [], ◌∷◌, ◌++◌, arith, length, take, drop, Bytes,
  length-append, length-take, length-drop, u64_mod,
}
use nil_service.Codec.{Endian}
use nil_service.Tcp.Connection.{
  Reading, header, body, closed, Connection, payload_size, received_at, store_received, read_body,
  Completion, failed, received, header_received, body_received, complete_at, complete,
}

-- The region of the outstanding read is inside the buffer and not empty.
abbrev pub InBounds : ℕ → Reading → Type 0
InBounds limit (header pos size) = (size ≡ 8) × (pos < 8)
InBounds limit (body pos size) = (pos < size) × (size ≤ limit)
InBounds limit closed = Unit

pub record IsValid (limit : ℕ) (c : Connection) : Type 0 where
  pub representable : limit + 8 < u64_mod
  pub buffered : length c.r_buffer ≡ limit + 8
  pub bounded : InBounds limit c.reading

-- The environment's part: a read ends with at least one byte, and with at most what was asked for.
abbrev pub FitsRead : Reading → ℕ → Type 0
FitsRead (header pos size) n = (0 < n) × (pos + n ≤ size)
FitsRead (body pos size) n = (0 < n) × (pos + n ≤ size)
FitsRead closed n = ⊥

abbrev pub Fits : Endian → List Bytes → Connection → Type 0
Fits e [] c = Unit
Fits e (chunk ∷ chunks) c =
    FitsRead c.reading (length chunk) × Fits e chunks (complete e (received chunk) c).0

pub length-received_at :
    (pos : ℕ) (bytes buf : Bytes)
    → pos + length bytes ≤ length buf
    → length (received_at pos bytes buf) ≡ length buf
length-received_at pos bytes buf h = omega (
  arith,
  length-append (take pos buf ++ bytes) (drop (pos + length bytes) buf),
  length-append (take pos buf) bytes,
  length-take pos buf (omega arith),
  length-drop (pos + length bytes) buf,
)

read_body-IsValid :
    (limit pos n : ℕ) (c : Connection)
    → limit + 8 < u64_mod
    → length c.r_buffer ≡ limit + 8
    → (0 < n → pos < n)
    → IsValid limit (read_body pos n c).0
unfolding read_body
read_body-IsValid limit pos n c h k p = ground arith

header_received-IsValid :
    (e : Endian) (limit pos size n : ℕ) (c : Connection)
    → limit + 8 < u64_mod
    → length c.r_buffer ≡ limit + 8
    → size ≡ 8
    → pos + n ≤ 8
    → IsValid limit (header_received e pos size n c).0
unfolding header_received
header_received-IsValid e limit pos size n c h k s fits = ground (
  arith,
  read_body-IsValid limit 0 (payload_size e c.r_buffer) c h k
      (λ (q : 0 < payload_size e c.r_buffer). q),
)

body_received-IsValid :
    (limit pos size n : ℕ) (c : Connection)
    → limit + 8 < u64_mod
    → length c.r_buffer ≡ limit + 8
    → size ≤ limit
    → pos + n ≤ size
    → IsValid limit (body_received pos size n c).0
unfolding body_received read_body
body_received-IsValid limit pos size n c h k s fits = ground arith

complete_at-IsValid :
    (e : Endian) (limit : ℕ) (r : Reading) (chunk : Bytes) (c : Connection)
    → limit + 8 < u64_mod
    → length c.r_buffer ≡ limit + 8
    → InBounds limit r
    → FitsRead r (length chunk)
    → IsValid limit (complete_at e r (received chunk) c).0
unfolding complete_at
complete_at-IsValid e limit closed chunk c h k b fits = absurd fits
complete_at-IsValid e limit (header pos size) chunk c h k b fits =
    header_received-IsValid e limit pos size (length chunk) (store_received pos chunk c) h
      (length-received_at pos chunk c.r_buffer (omega arith) ∙ k) b.0 (omega arith)
complete_at-IsValid e limit (body pos size) chunk c h k b fits =
    body_received-IsValid limit pos size (length chunk) (store_received pos chunk c) h
      (length-received_at pos chunk c.r_buffer (omega arith) ∙ k) b.1 fits.1

failed-IsValid :
    (e : Endian) (limit : ℕ) (r : Reading) (c : Connection)
    → IsValid limit c
    → c.reading ≡ r
    → IsValid limit (complete_at e r failed c).0
unfolding complete_at
failed-IsValid e limit closed c v q = v
failed-IsValid e limit (header pos size) c v q = record {
  representable = v.representable;
  buffered = v.buffered;
  bounded = tt;
}
failed-IsValid e limit (body pos size) c v q = record {
  representable = v.representable;
  buffered = v.buffered;
  bounded = tt;
}

-- What the environment may answer to the outstanding read.
abbrev pub FitsCompletion : Reading → Completion → Type 0
FitsCompletion r failed = Unit
FitsCompletion r (received chunk) = FitsRead r (length chunk)

-- However a read of a valid connection ends, with an error or with bytes that fit, the connection
-- stays valid: its buffer keeps its length and the next read lies inside it.
pub complete-IsValid :
    (e : Endian) (limit : ℕ) (result : Completion) (c : Connection)
    → IsValid limit c
    → FitsCompletion c.reading result
    → IsValid limit (complete e result c).0
unfolding complete
complete-IsValid e limit failed c v fits = failed-IsValid e limit c.reading c v refl
complete-IsValid e limit (received chunk) c v fits =
    complete_at-IsValid e limit c.reading chunk c v.representable v.buffered v.bounded fits
