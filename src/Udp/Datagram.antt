-- ===== src/Udp/Datagram.antt =====
-- The datagrams of src/src/udp, as a receiver of either byte order takes them apart.
use nil_service.Common.{
  ◌≡◌, sym, ap, ◌∙◌, true, some, [], arith, Bytes, leb, length, length-append, drop, drop-append_of,
  append-nil,
}
use nil_service.Codec.{Endian, from_array, to_array}
use nil_service.Codec.ByteOrder.{from_array-to_array, length-to_array}
use nil_service.Udp.{probe, external}

pub external-parts :
    (e e' : Endian) (msg : Bytes)
    → (leb 1 (length (external e' msg)) ≡ true)
      × (from_array e 1 (external e' msg) ≡ some 0)
      × (drop 1 (external e' msg) ≡ msg)
unfolding external
external-parts e e' msg = (
  ground (arith, length-append (to_array e' 1 0) msg, length-to_array e' 1 0),
  from_array-to_array e e' 1 0 msg (omega arith),
  drop-append_of 1 (to_array e' 1 0) msg (length-to_array e' 1 0),
)

pub probe-parts :
    (e e' : Endian) → (leb 1 (length (probe e')) ≡ true) × (from_array e 1 (probe e') ≡ some 1)
unfolding probe
probe-parts e e' = (
  ground (arith, length-to_array e' 1 1),
  ap (from_array e 1) (sym (append-nil (to_array e' 1 1)))
      ∙ from_array-to_array e e' 1 1 [] (omega arith),
)
