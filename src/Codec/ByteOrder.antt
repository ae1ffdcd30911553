-- ===== src/Codec/ByteOrder.antt =====
-- The wire format of src/src/utils.hpp on targets of either byte order.
use nil_service.Common.{
  ℕ, zero, suc, ◌/◌, ◌^◌, ◌<◌, ◌≡◌, refl, ap, ◌∙◌, some, ◌++◌, arith, length, Bytes, read,
  read-append, Option-cases, sym, inl, inr,
}
use native.Mathlib.Nat.{pow-suc}
use mathlib.Core.List.{reverse-reverse}
use mathlib.Core.Option
use nil_service.Codec.{Endian, little, big, digits, number, to_array, from_array}

pub length-digits : (w n : ℕ) → length (digits w n) ≡ w
unfolding digits
length-digits zero n = refl
length-digits (suc w) n = ap suc (length-digits w (n / 256))

pub number-digits : (w n : ℕ) → n < 256 ^ w → number (digits w n) ≡ n
unfolding number digits
number-digits zero n h = omega arith
number-digits (suc w) n h = omega (arith, number-digits w (n / 256) (omega (arith, pow-suc 256 w)))

-- Both targets send the bytes of a number least significant first.
pub to_array-digits : (e : Endian) (w n : ℕ) → to_array e w n ≡ digits w n
unfolding to_array
to_array-digits little w n = refl
to_array-digits big w n = reverse-reverse (digits w n)

pub length-to_array : (e : Endian) (w n : ℕ) → length (to_array e w n) ≡ w
length-to_array e w n = ap length (to_array-digits e w n) ∙ length-digits w n

-- Both targets read the first bytes as a little-endian number.
pub from_array_lem :
    (e : Endian) (w : ℕ) (bytes : Bytes) → from_array e w bytes ≡ Option.map number (read w bytes)
unfolding from_array
from_array_lem little w bytes = refl
from_array_lem big w bytes = elim (Option-cases (read w bytes)) [
  | inl e ↦ rw e
  | inr (xs, e) ↦ rw e (ap some (ap number (reverse-reverse xs)))
]

-- A number below 256 ^ w that a target of either byte order has written in w bytes is read back by
-- a target of either byte order, whatever follows in memory.
pub from_array-to_array :
    (e e' : Endian) (w n : ℕ) (rest : Bytes)
    → n < 256 ^ w
    → from_array e (w) (to_array e' w n ++ rest) ≡ some n
from_array-to_array e e' w n rest h =
    rw (from_array_lem e w (to_array e' w n ++ rest), to_array-digits e' w n)
      (rw (read_digits) (ap some (number-digits w n h)))
  where
    read_digits : read w (digits w n ++ rest) ≡ some (digits w n)
    read_digits =
        ap (λ k. read k (digits w n ++ rest)) (sym (length-digits w n))
        ∙ read-append (digits w n) rest
