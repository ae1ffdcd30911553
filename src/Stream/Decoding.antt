-- ===== src/Stream/Decoding.antt =====
-- The receiver of Stream on chunks and on frames.
use nil_service.Common.{
  ℕ, zero, suc, ◌≤◌, ◌<◌, ◌≡◌, refl, ap, ◌∙◌, List, [], ◌∷◌, ◌++◌, arith, length, Bytes, append-nil,
  append_assoc, length-append, All, ◌^◌, ◌%◌, ◌/◌,
}
use nil_service.Codec.{digits}
use nil_service.Codec.ByteOrder.{number-digits}
use nil_service.Stream.{
  disconnected, message, frame, frames, delivery, deliveries, Partial, header, body, dead, start,
  grown, append, take_byte, take_bytes, HasRoom,
}

pub take_bytes-append :
    (limit : ℕ) (xs ys : Bytes) (p : Partial)
    → take_bytes limit (xs ++ ys) p ≡ (
      (take_bytes limit ys (take_bytes limit xs p).0).0,
      (take_bytes limit xs p).1 ++ (take_bytes limit ys (take_bytes limit xs p).0).1,
    )
unfolding take_bytes
take_bytes-append limit [] ys p = refl
take_bytes-append limit (b ∷ xs) ys p =
    rw (take_bytes-append limit xs ys (take_byte limit b p).0, append_assoc)

-- Before the last byte of the header or of the body nothing happens.
grown-quiet :
    (limit b b' : ℕ) (bs : Bytes) (p : Partial)
    → HasRoom p (length (b ∷ b' ∷ bs))
    → take_byte limit b p ≡ (append p (b ∷ []), [])
unfolding take_byte grown
grown-quiet limit b b' bs (header got) h = ground (arith, length-append got (b ∷ []))
grown-quiet limit b b' bs (body n got) h = ground (arith, length-append got (b ∷ []))
grown-quiet limit b b' bs dead h = absurd h

append-HasRoom :
    (b : ℕ) (bs : Bytes) (p : Partial)
    → HasRoom p (length (b ∷ bs))
    → HasRoom (append p (b ∷ [])) (length bs)
append-HasRoom b bs (header got) h = omega (arith, length-append got (b ∷ []))
append-HasRoom b bs (body n got) h = omega (arith, length-append got (b ∷ []))
append-HasRoom b bs dead h = absurd h

append-append : (p : Partial) (xs ys : Bytes) → append (append p xs) ys ≡ append p (xs ++ ys)
append-append (header got) xs ys = ap header (append_assoc got xs ys)
append-append (body n got) xs ys = ap (body n) (append_assoc got xs ys)
append-append dead xs ys = refl

-- A chunk that stays within the header or the body acts once, at its end.
pub take_bytes-chunk :
    (limit b : ℕ) (bs : Bytes) (p : Partial)
    → HasRoom p (length (b ∷ bs))
    → take_bytes limit (b ∷ bs) p ≡ grown limit (append p (b ∷ bs))
unfolding take_bytes take_byte
take_bytes-chunk limit b [] p h = rw (append-nil (take_byte limit b p).1)
take_bytes-chunk limit b (b' ∷ bs) p h = rw (grown-quiet limit b b' bs p h) (
    take_bytes-chunk limit b' bs (append p (b ∷ [])) (append-HasRoom b (b' ∷ bs) p h)
    ∙ ap (grown limit) (append-append p (b ∷ []) (b' ∷ bs)))

-- A header alone.
pub take_bytes-header :
    (limit n : ℕ) → n < 256 ^ 8 → take_bytes limit (digits 8 n) (header []) ≡ start limit n
unfolding digits grown
take_bytes-header limit n h =
    take_bytes-chunk limit (n % 256) (digits 7 (n / 256)) (header []) (omega arith)
    ∙ ap (start limit) (number-digits 8 n h)

start-quiet : (limit n : ℕ) → n ≤ limit → (start limit n).1 ≡ []
unfolding start
start-quiet limit n h = ground arith

start-oversize : (limit n : ℕ) → limit < n → start limit n ≡ (dead, disconnected ∷ [])
unfolding start
start-oversize limit n h = ground arith

start-body : (limit n : ℕ) → suc n ≤ limit → (start limit (suc n)).0 ≡ body (suc n) []
unfolding start
start-body limit n h = ground arith

grown-full : (limit : ℕ) (m : Bytes) → grown limit (body (length m) m) ≡ (header [], message m ∷ [])
unfolding grown
grown-full limit m = ground arith

pub take_bytes-nil : (limit : ℕ) (p : Partial) → take_bytes limit [] p ≡ (p, [])
unfolding take_bytes
take_bytes-nil limit p = refl

start-zero : (limit : ℕ) → (start limit 0).0 ≡ header []
unfolding start
start-zero limit = refl

-- As many bytes as a header has announced are one message.
pub take_bytes-body :
    (limit n : ℕ) (bs : Bytes)
    → 0 < n
    → n ≤ limit
    → length bs ≡ n
    → take_bytes limit bs (start limit n).0 ≡ (header [], message bs ∷ [])
take_bytes-body limit n [] p h k = absurd (omega arith)
take_bytes-body limit zero (b ∷ bs) p h k = absurd (omega arith)
take_bytes-body limit (suc n) (b ∷ bs) p h k =
    rw (start-body limit n h, ← k)
      (take_bytes-chunk limit b bs (body (suc (length bs)) []) (omega arith)
        ∙ grown-full limit (b ∷ bs))

take_bytes-payload :
    (limit : ℕ) (m : Bytes)
    → length m ≤ limit
    → take_bytes limit m (start limit (length m)).0 ≡ (header [], delivery m)
take_bytes-payload limit [] h = rw start-zero (take_bytes-nil limit (header []))
take_bytes-payload limit (b ∷ bs) h =
    take_bytes-body limit (length (b ∷ bs)) (b ∷ bs) (omega arith) h refl

-- A header that is followed by too few bytes of its message takes the rest from what comes next.
pub take_bytes-cut :
    (limit n : ℕ) (bs : Bytes)
    → 0 < n
    → n ≤ limit
    → limit < 256 ^ 8
    → length bs ≡ n
    → take_bytes limit (digits 8 n ++ bs) (header []) ≡ (header [], message bs ∷ [])
take_bytes-cut limit n bs p h k l = rw (
  take_bytes-append limit (digits 8 n) bs (header []),
  take_bytes-header limit n (omega arith),
  start-quiet limit n h,
  take_bytes-body limit n bs p h l,
)

-- The header of a message that is too large ends the connection.
pub take_bytes-oversize :
    (limit n : ℕ)
    → limit < n
    → n < 256 ^ 8
    → take_bytes limit (digits 8 n) (header []) ≡ (dead, disconnected ∷ [])
take_bytes-oversize limit n h k = take_bytes-header limit n k ∙ start-oversize limit n h

take_bytes-frame :
    (limit : ℕ) (m : Bytes)
    → length m ≤ limit
    → length m < 256 ^ 8
    → take_bytes limit (frame m) (header []) ≡ (header [], delivery m)
unfolding frame
take_bytes-frame limit m h k = rw (
  take_bytes-append limit (digits 8 (length m)) m (header []),
  take_bytes-header limit (length m) k,
  start-quiet limit (length m) h,
  take_bytes-payload limit m h,
)

-- Whole frames are decoded to their payloads, in order, and the receiver is back at its start.
pub take_bytes-frames :
    (limit : ℕ) (ms : List Bytes)
    → All (λ m. length m ≤ limit) ms
    → limit < 256 ^ 8
    → take_bytes limit (frames ms) (header []) ≡ (header [], deliveries ms)
unfolding take_bytes
take_bytes-frames limit [] h k = refl
take_bytes-frames limit (m ∷ ms) h k = rw (
  take_bytes-append limit (frame m) (frames ms) (header []),
  take_bytes-frame limit m h.0 (omega arith),
  take_bytes-frames limit ms h.1 k,
)
