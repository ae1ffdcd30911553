-- ===== src/Service/Mapping.antt =====
-- src/publish/nil/service/map.hpp: a message is routed by the value that it begins with.
pub mod Routing
use nil_service.Common.{ℕ, Bool, Option, none, some, List, [], ◌∷◌, Bytes, ◌>>=◌, if◌then◌else◌}
use mathlib.Core.Option
use nil_service.Codec.{Endian, CodecType, Value}
use nil_service.Codec.Message.{consume}
use nil_service.Service.{ServiceId}
use nil_service.Service.MessageHandler.{Adapter, Invocation, adapt}

-- `callable` names the user's function, `adapter` is its adapted form.
pub record Mapping : Type 0 where
  pub value : Value
  pub callable : ℕ
  pub adapter : Adapter

-- The loop over the handlers, with `==` of the tag's type. `some none` is a message that no handler
-- takes.
pub dispatch :
    (Value → Value → Bool)
    → Endian
    → List Mapping
    → Value
    → ServiceId
    → Bytes
    → ℕ
    → Option (Option (ℕ × Invocation))
dispatch eq e [] value id input n = some none
dispatch eq e (m ∷ ms) value id input n =
    if eq value m.value
    then Option.map (λ call. some (m.callable, call)) (adapt e m.adapter id input n)
    else dispatch eq e ms value id input n

-- The lambda that `map` returns.
unfoldable pub map_handler :
    (Value → Value → Bool)
    → Endian
    → CodecType
    → List Mapping
    → ServiceId
    → Bytes
    → ℕ
    → Option (Option (ℕ × Invocation))
map_handler eq e t handlers id input n =
    consume e t input n >>= λ one. dispatch eq e handlers one.0 id one.1 one.2
