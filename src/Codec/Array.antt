-- ===== src/Codec/Array.antt =====
-- `codec<T[N]>` of src/publish/nil/service/codec.hpp: the codec of an array is that of its elements, in a
-- loop.
use nil_service.Common.{
  ℕ, ◌+◌, ◌<◌, ◌≡◌, refl, ◌∙◌, Option, some, List, [], ◌∷◌, Bytes, ◌>>=◌, add64, u64_mod, arith,
  Option-cases, inl, inr,
}
use nil_service.Codec.{Endian, Value, size, serialize, image}
use nil_service.Common.{copy_at}
use nil_service.Codec.Message.{concat_from, concat_into, total_size}

unfoldable pub size_from : ℕ → List Value → ℕ
size_from total [] = total
size_from total (v ∷ vs) = size_from (add64 total (size v)) vs

-- `size`
unfoldable pub size_array : List Value → ℕ
unfolding size_from
size_array vs = size_from 0 vs

unfoldable pub serialize_from : Endian → ℕ → List Value → Bytes → Option (Bytes × ℕ)
serialize_from e total [] output = some (output, total)
serialize_from e total (v ∷ vs) output =
    serialize e total v output >>= λ one. serialize_from e (add64 total one.1) vs one.0

-- `serialize`, to the memory that `output` points to.
unfoldable pub serialize_array : Endian → List Value → Bytes → Option (Bytes × ℕ)
unfolding serialize_from
serialize_array e vs output = serialize_from e 0 vs output

size_from_lem :
    (total : ℕ) (vs : List Value)
    → total + total_size vs < u64_mod
    → size_from total vs ≡ total + total_size vs
unfolding size_from total_size
size_from_lem total [] h = omega arith
size_from_lem total (v ∷ vs) h =
    let same : add64 total (size v) ≡ total + size v = omega arith in
    rw same (size_from_lem (total + size v) vs (omega arith) ∙ omega arith)

serialize_from_lem :
    (e : Endian) (total : ℕ) (vs : List Value) (output : Bytes)
    → total + total_size vs < u64_mod
    → serialize_from e total vs output ≡ concat_from e total vs output
unfolding serialize_from concat_from total_size serialize
serialize_from_lem e total [] output h = refl
serialize_from_lem e total (v ∷ vs) output h =
    elim (Option-cases (copy_at total (image e v) output)) [
      | inl past ↦ rw past refl
      | inr (one, written) ↦
          let same : add64 total (size v) ≡ total + size v = omega arith in
          rw (written, same) (serialize_from_lem e (total + size v) vs one (omega arith))
    ]

-- An array whose size is below 2 ^ 64 is encoded as its elements are by `concat_into`, one behind the
-- other, into the same bytes or, where the buffer is too short for these, past its end; its size is the
-- sum of theirs.
pub serialize_array-concat_into :
    (e : Endian) (vs : List Value) (output : Bytes)
    → total_size vs < u64_mod
    → (serialize_array e vs output ≡ concat_into e vs output) × (size_array vs ≡ total_size vs)
unfolding serialize_array concat_into size_array
serialize_array-concat_into e vs output h =
    (serialize_from_lem e 0 vs output (omega arith), size_from_lem 0 vs (omega arith) ∙ omega arith)
