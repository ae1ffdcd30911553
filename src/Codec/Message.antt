-- ===== src/Codec/Message.antt =====
-- src/publish/nil/service/concat.hpp and consume.hpp: a message is made of the codecs of its parts.
pub mod RoundTrip
use nil_service.Common.{
  ℕ, zero, suc, ◌+◌, ◌≡◌, Option, none, some, List, [], ◌∷◌, ◌++◌, length, drop, replicate, ◌>>=◌,
  Bytes, sub64,
}
use mathlib.Core.Option
use nil_service.Codec.{Endian, CodecType, Value, size, serialize, deserialize}

-- The fold `((current += codec<T>::serialize(current, data)), ...)`, from an offset of the buffer on.
unfoldable pub concat_from : Endian → ℕ → List Value → Bytes → Option (Bytes × ℕ)
concat_from e current [] buffer = some (buffer, current)
concat_from e current (v ∷ vs) buffer =
    serialize e current v buffer >>= λ out. concat_from e (current + out.1) vs out.0

-- The buffer that is left, and `std::distance(start, current)`.
unfoldable pub concat_into : Endian → List Value → Bytes → Option (Bytes × ℕ)
unfolding concat_from
concat_into e vs buffer = concat_from e 0 vs buffer

-- `(0 + ... + codec<T>::size(data))`
unfoldable pub total_size : List Value → ℕ
total_size [] = 0
total_size (v ∷ vs) = size v + total_size vs

unfoldable pub concat : Endian → List Value → Option Bytes
unfolding total_size
concat e vs = Option.map (λ out. out.0) (concat_into e vs (replicate (total_size vs) 0))

-- The value, and what `data` and `size` are moved to. The difference wraps in `std::uint64_t`.
unfoldable pub consume : Endian → CodecType → Bytes → ℕ → Option (Value × Bytes × ℕ)
consume e t input n = deserialize e t input n >>= λ casted.
    some (casted, drop (size casted) input, sub64 n (size casted))

-- A handler that takes the parts of a message in turn.
pub consume_all : Endian → List CodecType → Bytes → ℕ → Option (List Value × Bytes × ℕ)
consume_all e [] input n = some ([], input, n)
consume_all e (t ∷ ts) input n = consume e t input n >>= λ one.
    consume_all e ts one.1 one.2 >>= λ more. some (one.0 ∷ more.0, more.1, more.2)
