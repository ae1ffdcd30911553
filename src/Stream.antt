-- ===== src/Stream.antt =====
-- The byte stream of tcp and pipe services, described independently of the code that reads it: a
-- message is 8 bytes of little-endian length and its payload, and a receiver takes one byte after
-- the other.
pub mod Decoding
use nil_service.Common.{ℕ, ◌+◌, ◌≤◌, List, [], ◌∷◌, ◌++◌, length, Bytes, if◌then◌else◌, ◌==◌, ltb}
use nil_service.Codec.{digits, number}

-- What a connection tells the service that owns it.
pub data Signal : Type 0 where
  connected disconnected : Signal
  message : Bytes → Signal

unfoldable pub frame : Bytes → Bytes
frame msg = digits 8 (length msg) ++ msg

abbrev pub frames : List Bytes → Bytes
frames [] = []
frames (m ∷ ms) = frame m ++ frames ms

-- Empty messages are not delivered.
abbrev pub delivery : Bytes → List Signal
delivery [] = []
delivery (b ∷ bs) = message (b ∷ bs) ∷ []

abbrev pub deliveries : List Bytes → List Signal
deliveries [] = []
deliveries (m ∷ ms) = delivery m ++ deliveries ms

-- The part of a message that has been received. `dead` reads no more.
pub data Partial : Type 0 where
  header : Bytes → Partial
  body : ℕ → Bytes → Partial
  dead : Partial

-- A complete header, at a receiver that takes at most `limit` bytes.
unfoldable pub start : ℕ → ℕ → Partial × List Signal
start limit n =
    if n == 0
    then (header [], [])
    else if ltb limit n
    then (dead, disconnected ∷ [])
    else (body n [], [])

unfoldable pub grown : ℕ → Partial → Partial × List Signal
grown limit (header got) = if length got == 8 then start limit (number got) else (header got, [])
grown limit (body n got) =
    if length got == n then (header [], message got ∷ []) else (body n got, [])
grown limit dead = (dead, [])

abbrev pub append : Partial → Bytes → Partial
append (header got) bs = header (got ++ bs)
append (body n got) bs = body n (got ++ bs)
append dead bs = dead

pub take_byte : ℕ → ℕ → Partial → Partial × List Signal
take_byte limit b p = grown limit (append p (b ∷ []))

unfoldable pub take_bytes : ℕ → Bytes → Partial → Partial × List Signal
take_bytes limit [] p = (p, [])
take_bytes limit (b ∷ bs) p =
    let (p', out) = take_byte limit b p in
    let (p'', more) = take_bytes limit bs p' in (p'', out ++ more)

-- The bytes that are missing to the end of the header or of the body.
abbrev pub HasRoom : Partial → ℕ → Type 0
HasRoom (header got) n = length got + n ≤ 8
HasRoom (body size got) n = length got + n ≤ size
HasRoom dead n = ⊥
