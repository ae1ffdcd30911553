-- ===== src/Service/Mapping/Routing.antt =====
-- How `map` of src/publish/nil/service/map.hpp routes the messages that `concat` builds.
use nil_service.Common.{
  ℕ, ◌+◌, ◌<◌, ◌≡◌, refl, sym, append-nil, ◌∙◌, Bool, true, false, none, some, List, [], ◌∷◌, ◌++◌,
  Bytes, All, u64_mod,
}
use mathlib.Core.Option
use nil_service.Codec.{Endian, Value, type_of, InRange, size}
use nil_service.Codec.Message.{total_size}
use nil_service.Codec.Message.RoundTrip.{IsFixed, images, consume_fixed}
use nil_service.Service.{ServiceId}
use nil_service.Service.MessageHandler.{adapt}
use nil_service.Service.Mapping.{Mapping, dispatch, map_handler}

module _ (eq : Value → Value → Bool) (e e' : Endian) (id : ServiceId) where
  dispatch-skip :
      (tag : Value) (before rest : List Mapping) (input : Bytes) (n : ℕ)
      → All (λ m. eq tag m.value ≡ false) before
      → dispatch eq e' (before ++ rest) tag id input n ≡ dispatch eq e' rest tag id input n
  unfolding dispatch
  dispatch-skip tag [] rest input n h = refl
  dispatch-skip tag (m ∷ before) rest input n h = rw h.0 (dispatch-skip tag before rest input n h.1)

  -- For a message that starts with an encoded tag of a fixed size, in range, and is shorter than 2
  -- ^ 64 bytes, the first handler whose value equals the tag is called, and it gets what stands
  -- behind the tag.
  pub map_handler-first :
      (tag : Value) (vs : List Value) (before after : List Mapping) (m : Mapping)
      → IsFixed tag
      → InRange tag
      → size tag + total_size vs < u64_mod
      → All (λ b. eq tag b.value ≡ false) before
      → eq tag m.value ≡ true
      → map_handler eq e'
          (type_of tag)
          (before ++ m ∷ after)
          id
          (images e (tag ∷ vs))
          (size tag + total_size vs)
        ≡ Option.map
            (λ call. some (m.callable, call))
            (adapt e' m.adapter id (images e vs) (total_size vs))
  unfolding map_handler dispatch
  map_handler-first tag vs before after m f r h skipped hit =
      rw (consume_fixed e e' tag (images e vs) (total_size vs) f r h)
        (dispatch-skip tag before (m ∷ after) (images e vs) (total_size vs) skipped ∙ rw hit)

  -- A message that starts with an encoded tag of a fixed size, in range, and is shorter than 2 ^
  -- 64 bytes, calls no handler if no handler's value equals the tag.
  pub map_handler-none :
      (tag : Value) (vs : List Value) (handlers : List Mapping)
      → IsFixed tag
      → InRange tag
      → size tag + total_size vs < u64_mod
      → All (λ b. eq tag b.value ≡ false) handlers
      → map_handler eq e' (type_of tag) handlers id (images e (tag ∷ vs)) (size tag + total_size vs)
        ≡ some none
  unfolding map_handler dispatch
  map_handler-none tag vs handlers f r h skipped =
      rw (consume_fixed e e' tag (images e vs) (total_size vs) f r h, sym (append-nil handlers))
        (dispatch-skip tag handlers [] (images e vs) (total_size vs) skipped)
