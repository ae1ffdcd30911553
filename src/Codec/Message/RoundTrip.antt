-- ===== src/Codec/Message/RoundTrip.antt =====
-- Messages of src/publish/nil/service/concat.hpp at the receiver, in consume.hpp.
use nil_service.Common.{
  ℕ, ◌+◌, ◌<◌, ◌≡◌, refl, ap, sym, ◌∙◌, some, List, [], ◌∷◌, ◌++◌, arith, length, length-append,
  length-replicate, length-take, length-drop, take, drop, drop-append, drop-append_of, All,
  replicate, take-append-drop, Bytes, read-append, copy_at_lem, map, append_assoc, append-nil,
  sub64, u64_mod,
}
use mathlib.Core.Path.{subst}
use native.Mathlib.Nat.{add-zero, zero-add}
use nil_service.Codec.{
  Endian, Value, text, flag, bits, string, sizeof, size, image, serialize, deserialize, type_of,
  InRange, to_array, to_array_bool, from_array_bool,
}
use nil_service.Codec.ByteOrder.{length-to_array, from_array-to_array}
use nil_service.Codec.Message.{concat_from, concat_into, concat, total_size, consume, consume_all}

pub length-image : (e : Endian) (v : Value) → length (image e v) ≡ size v
unfolding image size to_array_bool
length-image e (text message) = refl
length-image e (flag b) = refl
length-image e (bits t n) = length-to_array e (sizeof t) n

-- The encodings of the parts, one behind the other.
abbrev pub images : Endian → List Value → Bytes
images e [] = []
images e (v ∷ vs) = image e v ++ images e vs

pub length-images : (e : Endian) (vs : List Value) → length (images e vs) ≡ total_size vs
unfolding total_size
length-images e [] = refl
length-images e (v ∷ vs) =
    omega (arith, length-append (image e v) (images e vs), length-image e v, length-images e vs)

serialize_lem :
    (e : Endian) (v : Value) (pre mid rest : Bytes)
    → length mid ≡ size v
    → serialize e (length pre) v (pre ++ mid ++ rest) ≡ some (pre ++ image e v ++ rest, size v)
unfolding serialize
serialize_lem e v pre mid rest h =
    rw (copy_at_lem pre (image e v) mid rest (h ∙ sym (length-image e v)))

concat_from_step :
    (e : Endian) (v : Value) (vs : List Value) (pre now later rest : Bytes)
    → length now ≡ size v
    → concat_from e (length (pre ++ image e v)) vs ((pre ++ image e v) ++ later ++ rest)
      ≡ some ((pre ++ image e v) ++ images e vs ++ rest, length (pre ++ image e v) + total_size vs)
    → concat_from e (length pre) (v ∷ vs) (pre ++ (now ++ later) ++ rest)
      ≡ some (pre ++ images e (v ∷ vs) ++ rest, length pre + total_size (v ∷ vs))
unfolding concat_from total_size
concat_from_step e v vs pre now later rest h ih =
    rw (regroup pre now later rest, serialize_lem e v pre now (later ++ rest) h)
      (rw (sizes, regrouped) (ih ∙ ap some (λ i. (regroup_out i, total i))))
  where
    regroup : (a b c d : Bytes) → a ++ (b ++ c) ++ d ≡ a ++ b ++ (c ++ d)
    regroup a b c d = simp append_assoc

    sizes : length pre + size v ≡ length (pre ++ image e v)
    sizes = omega (arith, length-append pre (image e v), length-image e v)

    regrouped : pre ++ image e v ++ (later ++ rest) ≡ (pre ++ image e v) ++ later ++ rest
    regrouped = simp append_assoc

    regroup_out :
        (pre ++ image e v) ++ images e vs ++ rest ≡ pre ++ (image e v ++ images e vs) ++ rest
    regroup_out = simp append_assoc

    total : length (pre ++ image e v) + total_size vs ≡ length pre + (size v + total_size vs)
    total = omega (arith, length-append pre (image e v), length-image e v)

concat_from_lem :
    (e : Endian) (vs : List Value) (pre mid rest : Bytes)
    → length mid ≡ total_size vs
    → concat_from e (length pre) vs (pre ++ mid ++ rest)
      ≡ some (pre ++ images e vs ++ rest, length pre + total_size vs)
unfolding concat_from total_size
concat_from_lem e [] pre [] rest h = rw add-zero
concat_from_lem e [] pre (x ∷ mid) rest h = absurd (omega arith)
concat_from_lem e (v ∷ vs) pre mid rest h =
    subst
      (λ (m : Bytes).
        concat_from e (length pre) (v ∷ vs) (pre ++ m ++ rest)
        ≡ some (pre ++ images e (v ∷ vs) ++ rest, length pre + total_size (v ∷ vs)))
      (take-append-drop (size v) mid)
      (concat_from_step e v vs pre (take (size v) mid) (drop (size v) mid) rest
        (length-take (size v) mid (omega arith))
        (concat_from_lem e vs (pre ++ image e v) (drop (size v) mid) rest
          (omega (arith, length-drop (size v) mid))))

-- `concat_into` fills the front of a buffer that starts with as many bytes as its parts take,
-- leaves the rest alone, and returns the number of bytes that it has filled.
pub concat_into_lem :
    (e : Endian) (vs : List Value) (buffer rest : Bytes)
    → length buffer ≡ total_size vs
    → concat_into e vs (buffer ++ rest) ≡ some (images e vs ++ rest, total_size vs)
unfolding concat_into
concat_into_lem e vs buffer rest h = rw (concat_from_lem e vs [] buffer rest h) (rw zero-add)

-- `concat` never writes past the end of its buffer, and yields the encodings of its parts in
-- order.
pub concat-images : (e : Endian) (vs : List Value) → concat e vs ≡ some (images e vs)
unfolding concat
concat-images e vs = rw (sym (append-nil {A = ℕ} (replicate (total_size vs) 0))) (
    rw (concat_into_lem e vs (replicate (total_size vs) 0) [] (length-replicate (total_size vs) 0))
      (ap some (append-nil (images e vs))))

-- Values whose codec reads a fixed number of bytes.
abbrev pub IsFixed : Value → Type 0
IsFixed (text message) = ⊥
IsFixed (flag b) = Unit
IsFixed (bits t n) = Unit

-- All parts but the last have a codec that reads a fixed number of bytes.
abbrev pub IsReadable : List Value → Type 0
IsReadable [] = Unit
IsReadable (v ∷ []) = Unit
IsReadable (v ∷ w ∷ vs) = IsFixed v × IsReadable (w ∷ vs)

sub64_cancel : (n k : ℕ) → n + k < u64_mod → sub64 (n + k) n ≡ k
sub64_cancel n k h = omega arith

sub64_self : (n : ℕ) → sub64 n n ≡ 0
sub64_self n = omega arith

size_text : (m : Bytes) → size (text m) ≡ length m
unfolding size
size_text m = refl

pub consume_fixed :
    (e e' : Endian) (v : Value) (rest : Bytes) (k : ℕ)
    → IsFixed v
    → InRange v
    → size v + k < u64_mod
    → consume e' (type_of v) (image e v ++ rest) (size v + k) ≡ some (v, rest, k)
unfolding consume size image deserialize from_array_bool to_array_bool
consume_fixed e e' (text m) rest k f r h = absurd f
consume_fixed e e' (flag b) rest k f r h = ground arith
consume_fixed e e' (bits t n) rest k f r h =
    rw
      (
        from_array-to_array e' e (sizeof t) n rest r,
        drop-append_of (sizeof t) (to_array e (sizeof t) n) rest (length-to_array e (sizeof t) n),
      )
      (ap (λ j. some (bits t n, rest, j)) (sub64_cancel (sizeof t) k h))

consume-text :
    (e e' : Endian) (m rest : Bytes)
    → length m < u64_mod
    → consume e' string (image e (text m) ++ rest) (length m) ≡ some (text m, rest, 0)
unfolding consume size image deserialize
consume-text e e' m rest h =
    rw (read-append m rest, drop-append m rest)
      (ap (λ j. some (text m, rest, j)) (sub64_self (length m)))

-- Parts that stand one behind the other in a message are consumed in turn and in order by a
-- receiver of either byte order, and nothing is left, if each number is in the range of its type,
-- no part but the last is a string, and the size of the message is below 2 ^ 64.
pub consume_all_lem :
    (e e' : Endian) (vs : List Value)
    → IsReadable vs
    → All InRange vs
    → total_size vs < u64_mod
    → consume_all e' (map type_of vs) (images e vs) (total_size vs) ≡ some (vs, [], 0)
unfolding consume_all total_size
consume_all_lem e e' [] r i h = refl
consume_all_lem e e' (text m ∷ []) r i h =
    let short : length m < u64_mod = omega (arith, size_text m) in
    rw (size_text m, add-zero, consume-text e e' m [] short)
consume_all_lem e e' (flag b ∷ []) r i h = rw (consume_fixed e e' (flag b) [] 0 tt tt h)
consume_all_lem e e' (bits t n ∷ []) r i h = rw (consume_fixed e e' (bits t n) [] 0 tt i.0 h)
consume_all_lem e e' (v ∷ w ∷ vs) r i h =
    rw (consume_fixed e e' v (images e (w ∷ vs)) (total_size (w ∷ vs)) r.0 i.0 h)
      (rw (consume_all_lem e e' (w ∷ vs) r.1 i.1 (omega arith)))
