-- ===== src/Tests/Connections.antt =====
-- A connection of src/src/tcp/Connection.cpp with a buffer of 16 bytes.
use nil_service.Common.{◌≡◌, refl, List, [], ◌∷◌, arith, Bytes, flatten, replicate}
use nil_service.Codec.{little, big, to_array, digits, from_array, number}
use nil_service.Stream.{message, frame, Partial, take_bytes}
use nil_service.Tcp.Connection.{
  header, Connection, payload_size, read_header, read_body, received, header_received,
  body_received, complete_at, complete, complete_all, write, offered,
}
use nil_service.Tcp.Connection.Refinement.{view, seen, complete_all-take_bytes, complete_all-frames}
use nil_service.Tcp.Connection.Bounds.{IsValid, Fits, complete-IsValid}
use nil_service.Tcp.Connection.Writing.{short_write-corrupts}

abbrev pub fresh : Connection
fresh = record { r_buffer = replicate 24 0; reading = header 0 8 }

pub fresh-IsValid : IsValid 16 fresh
fresh-IsValid = record {
  representable = omega arith;
  buffered = refl;
  bounded = (refl, omega arith);
}

-- The message 7, 8, in reads that cut the header and the body.
abbrev pub chunks : List Bytes
chunks = (2 ∷ 0 ∷ 0 ∷ []) ∷ (0 ∷ 0 ∷ 0 ∷ 0 ∷ 0 ∷ []) ∷ (7 ∷ []) ∷ (8 ∷ []) ∷ []

pub chunks-Fits : Fits little chunks fresh
unfolding complete complete_at header_received read_header read_body body_received payload_size
    from_array number
chunks-Fits = (omega arith, (omega arith, (omega arith, (omega arith, tt))))

complete_all-frames_example :
    (view (complete_all little chunks fresh).0 ≡ Partial.header [])
    × ((complete_all little chunks fresh).1 ≡ message (7 ∷ 8 ∷ []) ∷ [])
unfolding frame digits
complete_all-frames_example =
    complete_all-frames little 16 chunks ((7 ∷ 8 ∷ []) ∷ []) fresh fresh-IsValid refl chunks-Fits
      (omega arith, tt) refl

complete_all-take_bytes_example :
    seen (complete_all little chunks fresh) ≡ take_bytes 16 (flatten chunks) (Partial.header [])
complete_all-take_bytes_example =
    complete_all-take_bytes little 16 chunks fresh fresh-IsValid chunks-Fits

complete-IsValid_example : IsValid 16 (complete little (received (2 ∷ 0 ∷ 0 ∷ [])) fresh).0
complete-IsValid_example =
    complete-IsValid little 16 (received (2 ∷ 0 ∷ 0 ∷ [])) fresh fresh-IsValid
      (omega arith, omega arith)

-- The message 7, 8, 9, of which one byte is written, and the start of the next frame.
abbrev mixed : List Bytes
mixed = (3 ∷ 0 ∷ 0 ∷ 0 ∷ 0 ∷ 0 ∷ 0 ∷ 0 ∷ []) ∷ (7 ∷ 2 ∷ 0 ∷ []) ∷ []

mixed-Fits : Fits little mixed fresh
unfolding complete complete_at header_received read_header read_body body_received payload_size
    from_array number
mixed-Fits = (omega arith, (omega arith, tt))

short_write-corrupts_example : (complete_all little mixed fresh).1 ≡ message (7 ∷ 2 ∷ 0 ∷ []) ∷ []
unfolding write offered to_array digits
short_write-corrupts_example =
    short_write-corrupts big little 16 1 (7 ∷ 8 ∷ 9 ∷ []) (2 ∷ 0 ∷ []) mixed fresh fresh-IsValid
      refl mixed-Fits (omega arith) (omega arith) (omega arith) refl

-- The header of a message of 17 bytes.
abbrev oversize : List Bytes
oversize = (17 ∷ 0 ∷ 0 ∷ 0 ∷ 0 ∷ 0 ∷ 0 ∷ 0 ∷ []) ∷ []
