-- ===== src/Common/Memory.antt =====
-- Raw buffers: `std::copy` and `memcpy` at an offset, and reads of a prefix. `none` is an access
-- past the end of the allocation, which the language leaves undefined.
use Prim.Native.Nat.{ℕ, zero, suc, ◌≤◌, ◌<◌}
use mathlib.Core.Path.{◌≡◌, refl, ap, ◌∙◌}
use mathlib.Core.List.{List, [], ◌∷◌, ◌++◌, append-nil}
use mathlib.Core.Option.{Option, none, some}
use native.Mathlib.Omega.{arith}
use nil_service.Common.Lists.{length, take, drop, drop-whole}

abbrev pub Bytes : Type 0
Bytes = List ℕ

-- The first n bytes behind a pointer.
abbrev pub read : ℕ → Bytes → Option Bytes
read zero xs = some []
read (suc n) [] = none
read (suc n) (x ∷ xs) = elim (read n xs) [ none ↦ none | some ys ↦ some (x ∷ ys) ]

-- Overwrites the bytes from the start of the buffer on.
abbrev pub overwrite : Bytes → Bytes → Option Bytes
overwrite [] buf = some buf
overwrite (x ∷ xs) [] = none
overwrite (x ∷ xs) (b ∷ buf) = elim (overwrite xs buf) [ none ↦ none | some r ↦ some (x ∷ r) ]

-- Writes the bytes at an offset of the buffer.
abbrev pub copy_at : ℕ → Bytes → Bytes → Option Bytes
copy_at zero xs buf = overwrite xs buf
copy_at (suc off) xs [] = elim xs [ [] ↦ some [] | _ ∷ _ ↦ none ]
copy_at (suc off) xs (b ∷ buf) = elim (copy_at off xs buf) [ none ↦ none | some r ↦ some (b ∷ r) ]

pub read-append : (xs ys : Bytes) → read (length xs) (xs ++ ys) ≡ some xs
read-append [] ys = refl
read-append (x ∷ xs) ys = rw (read-append xs ys)

pub overwrite_lem :
    (xs mid rest : Bytes) → length mid ≡ length xs → overwrite xs (mid ++ rest) ≡ some (xs ++ rest)
overwrite_lem [] [] rest h = refl
overwrite_lem [] (m ∷ mid) rest h = absurd (omega arith)
overwrite_lem (x ∷ xs) [] rest h = absurd (omega arith)
overwrite_lem (x ∷ xs) (m ∷ mid) rest h = rw (overwrite_lem xs mid rest (omega arith))

-- A copy that fits replaces exactly the bytes that it covers.
pub copy_at_lem :
    (pre xs mid rest : Bytes)
    → length mid ≡ length xs
    → copy_at (length pre) xs (pre ++ mid ++ rest) ≡ some (pre ++ xs ++ rest)
copy_at_lem [] xs mid rest h = overwrite_lem xs mid rest h
copy_at_lem (p ∷ pre) xs mid rest h = rw (copy_at_lem pre xs mid rest h)

pub read-take : (n : ℕ) (xs : Bytes) → n ≤ length xs → read n xs ≡ some (take n xs)
read-take zero xs h = refl
read-take (suc n) [] h = absurd (omega arith)
read-take (suc n) (x ∷ xs) h = rw (read-take n xs (omega arith))

-- A copy to the start of a buffer that is long enough, and of one that is not.
pub copy_at-start :
    (xs buf : Bytes) → length xs ≤ length buf → copy_at 0 xs buf ≡ some (xs ++ drop (length xs) buf)
copy_at-start [] buf h = refl
copy_at-start (x ∷ xs) [] h = absurd (omega arith)
copy_at-start (x ∷ xs) (b ∷ buf) h = rw (copy_at-start xs buf (omega arith)) refl

pub copy_at-none : (xs buf : Bytes) → length buf < length xs → copy_at 0 xs buf ≡ none
copy_at-none [] buf h = absurd (omega arith)
copy_at-none (x ∷ xs) [] h = refl
copy_at-none (x ∷ xs) (b ∷ buf) h = rw (copy_at-none xs buf (omega arith)) refl

-- The byte behind what has been copied.
pub copy_at-next :
    (b : ℕ) (xs buf : Bytes)
    → length xs < length buf
    → copy_at (length xs) (b ∷ []) (xs ++ drop (length xs) buf)
      ≡ some (xs ++ b ∷ drop (suc (length xs)) buf)
copy_at-next b [] [] h = absurd (omega arith)
copy_at-next b [] (c ∷ buf) h = refl
copy_at-next b (x ∷ xs) [] h = absurd (omega arith)
copy_at-next b (x ∷ xs) (c ∷ buf) h = rw (copy_at-next b xs buf (omega arith)) refl

copy_at-past : (b : ℕ) (xs : Bytes) → copy_at (length xs) (b ∷ []) xs ≡ none
copy_at-past b [] = refl
copy_at-past b (x ∷ xs) = rw (copy_at-past b xs) refl

-- What is copied to a buffer of its own length leaves no room for another byte.
pub copy_at-full :
    (b : ℕ) (xs buf : Bytes)
    → length buf ≤ length xs
    → copy_at (length xs) (b ∷ []) (xs ++ drop (length xs) buf) ≡ none
copy_at-full b xs buf h =
    ap (λ ys. copy_at (length xs) (b ∷ []) (xs ++ ys)) (drop-whole (length xs) buf h)
    ∙ ap (copy_at (length xs) (b ∷ [])) (append-nil xs)
    ∙ copy_at-past b xs
