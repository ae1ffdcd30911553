-- ===== src/Service/Requests.antt =====
-- The overloads of `IMessageService` in src/publish/nil/service/structs.hpp: each is turned into one of
-- the three virtual calls.
use nil_service.Common.{ℕ, Option, List, [], ◌∷◌, Bytes, read}
use mathlib.Core.Option
use nil_service.Codec.{Endian, Value}
use nil_service.Codec.Message.{concat}
use nil_service.Service.{ServiceId}

-- The virtual calls.
pub data Request : Type 0 where
  publish : Bytes → Request
  publish_ex : List ServiceId → Bytes → Request
  send : List ServiceId → Bytes → Request

-- `std::vector<std::uint8_t>(ptr, ptr + size)`; `none` is a read past the end of the memory.
unfoldable pub publish_raw : Bytes → ℕ → Option Request
publish_raw ptr n = Option.map publish (read n ptr)

unfoldable pub publish_ex_raw : ServiceId → Bytes → ℕ → Option Request
publish_ex_raw id ptr n = Option.map (publish_ex (id ∷ [])) (read n ptr)

unfoldable pub send_raw : ServiceId → Bytes → ℕ → Option Request
send_raw id ptr n = Option.map (send (id ∷ [])) (read n ptr)

unfoldable pub publish_value : Endian → Value → Option Request
publish_value e value = Option.map publish (concat e (value ∷ []))

unfoldable pub send_value : Endian → ServiceId → Value → Option Request
send_value e id value = Option.map (send (id ∷ [])) (concat e (value ∷ []))

unfoldable pub send_value_all : Endian → List ServiceId → Value → Option Request
send_value_all e ids value = Option.map (send ids) (concat e (value ∷ []))

unfoldable pub send_one : ServiceId → Bytes → Request
send_one id payload = send (id ∷ []) payload
