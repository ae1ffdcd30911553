-- ===== src/Codec.antt =====
-- src/src/utils.hpp (`to_array`, `from_array`) and src/publish/nil/service/codec.hpp with src/src/codec.cpp.
-- A value of an integer or floating type is its object representation, a number below
-- 256 ^ sizeof: `std::memcpy` is all that the code does with it.
pub mod ByteOrder
pub mod Message
pub mod Array
use nil_service.Common.{
  ℕ, zero, suc, ◌+◌, ◌*◌, ◌/◌, ◌%◌, ◌^◌, ◌≤◌, ◌<◌, ◌≡◌, refl, Bool, true, false, not, Option, none,
  some, List, [], ◌∷◌, ◌++◌, arith, length, Bytes, read, copy_at, if◌then◌else◌, ◌==◌,
}
use mathlib.Core.List.{reverse}
use mathlib.Core.Option

-- `std::endian::native` of the target.
pub data Endian : Type 0 where
  little big : Endian

-- The bytes of a number, least significant first.
unfoldable pub digits : ℕ → ℕ → Bytes
digits zero value = []
digits (suc width) value = value % 256 ∷ digits width (value / 256)

-- The number that little-endian bytes stand for.
unfoldable pub number : Bytes → ℕ
number [] = 0
number (b ∷ bs) = b + 256 * number bs

-- `std::memcpy` out of an object of `width` bytes, and back, in the target's byte order.
store : Endian → ℕ → ℕ → Bytes
store little width value = digits width value
store big width value = reverse (digits width value)

load : Endian → Bytes → ℕ
load little bytes = number bytes
load big bytes = number (reverse bytes)

-- `std::reverse` under `if constexpr (std::endian::native == std::endian::big)`.
swap_if_big : Endian → Bytes → Bytes
swap_if_big little bytes = bytes
swap_if_big big bytes = reverse bytes

unfoldable pub to_array : Endian → ℕ → ℕ → Bytes
unfolding store swap_if_big
to_array e width value = swap_if_big e (store e width value)

unfoldable pub from_array : Endian → ℕ → Bytes → Option ℕ
unfolding load swap_if_big
from_array e width bytes = Option.map (λ temp. load e (swap_if_big e temp)) (read width bytes)

unfoldable pub to_array_bool : Bool → Bytes
to_array_bool value = (if value then 1 else 0) ∷ []

unfoldable pub from_array_bool : Bytes → Option Bool
from_array_bool [] = none
from_array_bool (b ∷ bytes) = some (not (b == 0))

pub data ScalarType : Type 0 where
  uint8 uint16 uint32 uint64 int8 int16 int32 int64 char float double : ScalarType

abbrev pub sizeof : ScalarType → ℕ
sizeof uint8 = 1
sizeof uint16 = 2
sizeof uint32 = 4
sizeof uint64 = 8
sizeof int8 = 1
sizeof int16 = 2
sizeof int32 = 4
sizeof int64 = 8
sizeof char = 1
sizeof float = 4
sizeof double = 8

-- The types that have a codec.
pub data CodecType : Type 0 where
  string boolean : CodecType
  scalar : ScalarType → CodecType

pub data Value : Type 0 where
  text : Bytes → Value
  flag : Bool → Value
  bits : ScalarType → ℕ → Value

-- `codec<T>::size`
unfoldable pub size : Value → ℕ
size (text message) = length message
size (flag b) = 1
size (bits t n) = sizeof t

-- The bytes that `std::copy` takes.
unfoldable pub image : Endian → Value → Bytes
image e (text message) = message
image e (flag b) = to_array_bool b
image e (bits t n) = to_array e (sizeof t) n

-- `codec<T>::serialize` at an offset of the buffer: the buffer that it leaves, and the size that it
-- returns. `none` is a write past the end of the buffer.
unfoldable pub serialize : Endian → ℕ → Value → Bytes → Option (Bytes × ℕ)
serialize e offset value output =
    Option.map (λ buffer. (buffer, size value)) (copy_at offset (image e value) output)

-- `codec<T>::deserialize`: the argument `size` counts for a string only. `none` is a read past the
-- end of the input.
unfoldable pub deserialize : Endian → CodecType → Bytes → ℕ → Option Value
deserialize e string input n = Option.map text (read n input)
deserialize e boolean input n = Option.map flag (from_array_bool input)
deserialize e (scalar t) input n = Option.map (bits t) (from_array e (sizeof t) input)

-- The values of each type.
abbrev pub type_of : Value → CodecType
type_of (text message) = string
type_of (flag b) = boolean
type_of (bits t n) = scalar t

abbrev pub InRange : Value → Type 0
InRange (text message) = Unit
InRange (flag b) = Unit
InRange (bits t n) = n < 256 ^ sizeof t
