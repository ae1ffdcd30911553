-- ===== src/Tcp/Connection/Writing.antt =====
-- src/src/tcp/Connection.cpp: the start of a connection, and what `write` puts on the stream.
use nil_service.Common.{
  ℕ, zero, suc, ◌+◌, ◌-◌, ◌≤◌, ◌<◌, ◌^◌, ◌≡◌, refl, sym, ap, ◌∙◌, List, [], ◌∷◌, ◌++◌, arith,
  length, take, Bytes, length-append, length-take, length-replicate, append_assoc, add64, u64_mod,
  flatten,
}
use native.Mathlib.Nat.{zero-add, suc-add}
use nil_service.Codec.{Endian, digits}
use nil_service.Codec.ByteOrder.{to_array-digits, length-digits}
use nil_service.Stream.{Signal, connected, disconnected, message, frame, Partial}
use nil_service.Stream.Decoding.{take_bytes-cut, take_bytes-oversize}
use nil_service.Tcp.Connection.{Connection, new, run, complete_all, write}
use nil_service.Tcp.Connection.Refinement.{IsIdle, seen, complete_all-take_bytes}
use nil_service.Tcp.Connection.Bounds.{IsValid, Fits}

-- A new connection that runs is valid and waits for a header, and it has announced itself once, if
-- its buffer size leaves room for a header in 64 bits.
pub run-IsValid :
    (limit : ℕ)
    → limit + 8 < u64_mod
    → IsValid limit (run (new limit)).0
      × IsIdle (run (new limit)).0
      × ((run (new limit)).1 ≡ connected ∷ [])
unfolding run new
run-IsValid limit h =
    (record { representable = h; buffered = long; bounded = (refl, omega arith) }, refl, refl)
  where
    long : length (run (new limit)).0.r_buffer ≡ limit + 8
    long = length-replicate (add64 limit 8) 0 ∙ omega arith

take-all : (n : ℕ) (xs : Bytes) → length xs ≤ n → take n xs ≡ xs
take-all zero [] h = refl
take-all zero (x ∷ xs) h = absurd (omega arith)
take-all (suc n) [] h = refl
take-all (suc n) (x ∷ xs) h = ap (◌∷◌ x) (take-all n xs (omega arith))

take-past : (n : ℕ) (xs ys : Bytes) → take (length xs + n) (xs ++ ys) ≡ xs ++ take n ys
take-past n [] ys = rw zero-add
take-past n (x ∷ xs) ys = rw suc-add (ap (◌∷◌ x) (take-past n xs ys))

-- If the socket takes the header and the whole message, `write` puts the frame of the message on
-- the stream, on a target of either byte order.
pub write-frame :
    (e : Endian) (accepted : ℕ) (m : Bytes) → 8 + length m ≤ accepted → write e accepted m ≡ frame m
unfolding write frame
write-frame e accepted m h = rw (to_array-digits e 8 (length m)) (
    take-all accepted (digits 8 (length m) ++ m)
      (omega (arith, length-append (digits 8 (length m)) m, length-digits 8 (length m))))

write-part : (e : Endian) (j : ℕ) (m : Bytes) → write e (8 + j) m ≡ digits 8 (length m) ++ take j m
unfolding write
write-part e j m = rw (to_array-digits e 8 (length m)) (
    ap (λ k. take (k + j) (digits 8 (length m) ++ m)) (sym (length-digits 8 (length m)))
    ∙ take-past j (digits 8 (length m)) m)

-- If the socket takes the header and j bytes only of a message of more than j and at most `limit`
-- bytes, and what is sent next has the missing number of bytes, a valid idle peer delivers the j
-- bytes followed by the first of the next ones as one message.
pub short_write-corrupts :
    (e e' : Endian) (limit j : ℕ) (m next : Bytes) (chunks : List Bytes) (c : Connection)
    → IsValid limit c
    → IsIdle c
    → Fits e' chunks c
    → length m ≤ limit
    → j < length m
    → length m ≤ j + length next
    → flatten chunks ≡ write e (8 + j) m ++ take (length m - j) next
    → (complete_all e' chunks c).1 ≡ message (take j m ++ take (length m - j) next) ∷ []
short_write-corrupts e e' limit j m next chunks c v idle fits small cut enough same =
    let all : seen (complete_all e' chunks c)
        ≡ (Partial.header [], message (take j m ++ take (length m - j) next) ∷ []) =
      complete_all-take_bytes e' limit chunks c v fits
      ∙ rw (same, write-part e j m, idle, append_assoc)
          (take_bytes-cut limit (length m) (take j m ++ take (length m - j) next) (omega arith)
            small (omega (arith, v.representable)) filled) in
    ap (λ (q : Partial × List Signal). q.1) all
  where
    filled : length (take j m ++ take (length m - j) next) ≡ length m
    filled = omega (
      arith,
      length-append (take j m) (take (length m - j) next),
      length-take j m (omega arith),
      length-take (length m - j) next (omega arith),
    )

-- A header that announces more than `limit` bytes makes a valid idle connection ask to be
-- disconnected, deliver nothing and read no more, however the reads that fit cut the header.
pub oversize-disconnects :
    (e : Endian) (limit n : ℕ) (chunks : List Bytes) (c : Connection)
    → IsValid limit c
    → IsIdle c
    → Fits e chunks c
    → limit < n
    → n < 256 ^ 8
    → flatten chunks ≡ digits 8 n
    → seen (complete_all e chunks c) ≡ (Partial.dead, disconnected ∷ [])
oversize-disconnects e limit n chunks c v idle fits large k same =
    complete_all-take_bytes e limit chunks c v fits
    ∙ rw (same, idle) (take_bytes-oversize limit n large k)
