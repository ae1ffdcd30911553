-- ===== src/Service/Callbacks/Typed.antt =====
-- A value that is published arrives as a value.
use nil_service.Common.{
  ◌≡◌, sym, ap, ◌∙◌, some, [], ◌∷◌, append-nil, arith, Bytes, length, read, read-append,
}
use mathlib.Core.Option
use nil_service.Codec.{
  Endian, Value, text, flag, bits, type_of, InRange, image, size, sizeof, deserialize, to_array,
  from_array, from_array_bool, to_array_bool,
}
use nil_service.Codec.ByteOrder.{from_array-to_array}
use nil_service.Codec.Message.{concat}
use nil_service.Codec.Message.RoundTrip.{concat-images, length-image}
use nil_service.Service.{ServiceId}
use nil_service.Service.Requests
use nil_service.Service.Requests.{Request, publish_value, send_value}
use nil_service.Service.MessageHandler.{adapt, value, id_value, with_value, with_id_value}

deserialize-image :
    (e e' : Endian) (v : Value)
    → InRange v
    → deserialize e' (type_of v) (image e v) (size v) ≡ some v
unfolding deserialize image size from_array_bool to_array_bool
deserialize-image e e' (text m) r =
    ap (Option.map text) (ap (read (length m)) (sym (append-nil m)) ∙ read-append m [])
deserialize-image e e' (flag b) r = ground arith
deserialize-image e e' (bits t n) r = ap (Option.map (bits t)) (
    ap (from_array e' (sizeof t)) (sym (append-nil (to_array e (sizeof t) n)))
    ∙ from_array-to_array e' e (sizeof t) n [] r)

concat-one : (e : Endian) (v : Value) → concat e (v ∷ []) ≡ some (image e v)
concat-one e v = concat-images e (v ∷ []) ∙ ap some (append-nil (image e v))

-- A value that is published, or sent to one peer, becomes a payload from which a function of any byte
-- order that takes a value of its type, with or without the identity of the peer, gets that value back,
-- if a number is in the range of its type.
pub publish_value-adapt :
    (e e' : Endian) (v : Value) (to from : ServiceId)
    → InRange v
    → (payload : Bytes) × (publish_value e v ≡ some (Requests.publish payload))
      × (send_value e to v ≡ some (Requests.send (to ∷ []) payload))
      × (adapt e' (value (type_of v)) from payload (size v) ≡ some (with_value v))
      × (adapt e' (id_value (type_of v)) from payload (size v) ≡ some (with_id_value from v))
      × (length payload ≡ size v)
unfolding publish_value send_value adapt
publish_value-adapt e e' v to from r = (
  image e v,
  ap (Option.map Requests.publish) (concat-one e v),
  ap (Option.map (Requests.send (to ∷ []))) (concat-one e v),
  ap (Option.map with_value) (deserialize-image e e' v r),
  ap (Option.map (with_id_value from)) (deserialize-image e e' v r),
  length-image e v,
)
