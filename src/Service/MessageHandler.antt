-- ===== src/Service/MessageHandler.antt =====
-- src/publish/nil/service/detail/create_handler.hpp and create_message_handler.hpp: a user's function of
-- one of several shapes is adapted to `void(ID)` or `void(ID, const void*, std::uint64_t)`.
pub mod Choice
use nil_service.Common.{ℕ, Bool, true, false, Option, none, some, Bytes, if◌then◌else◌}
use mathlib.Core.Option
use nil_service.Codec.{Endian, CodecType, Value, deserialize}
use nil_service.Service.{ServiceId}

-- The calls that are well formed for a user's function (`std::is_invocable_v`). Where a parameter
-- takes `AutoCast`, its type is the one that the function names.
pub record Callable : Type 0 where
  pub takes_all : Bool
  pub takes_none : Bool
  pub takes_id : Bool
  pub takes_value : Option CodecType
  pub takes_buffer : Bool
  pub takes_id_value : Option CodecType

pub data Adapter : Type 0 where
  all none_ id_ buffer : Adapter
  value id_value : CodecType → Adapter

abbrev pub is_some {ℓ} : {A : Type ℓ} → Option A → Bool
is_some none = false
is_some (some a) = true

-- The last branches of the chain: the forms with a decoded value.
choose_id_value : Option CodecType → Option Adapter
choose_id_value (some t) = some (id_value t)
choose_id_value none = none

choose_value : Option CodecType → Option Adapter → Option Adapter
choose_value (some t) rest = some (value t)
choose_value none rest = rest

-- `create_handler`: `none` is the static error of an unsupported type.
unfoldable pub create_handler : Callable → Option Adapter
create_handler f = if f.takes_none then some none_ else if f.takes_id then some id_ else none

-- The `if constexpr` chain of `create_message_handler`.
unfoldable pub create_message_handler : Callable → Option Adapter
unfolding choose_value choose_id_value
create_message_handler f =
    if f.takes_all
    then some all
    else if f.takes_none
    then some none_
    else if f.takes_id
    then some id_
    else choose_value f.takes_value
        (if f.takes_buffer then some buffer else choose_id_value f.takes_id_value)

-- The arguments that the user's function gets.
pub data Invocation : Type 0 where
  with_all : ServiceId → Bytes → ℕ → Invocation
  with_none : Invocation
  with_id : ServiceId → Invocation
  with_value : Value → Invocation
  with_buffer : Bytes → ℕ → Invocation
  with_id_value : ServiceId → Value → Invocation

-- The adapted lambda. `AutoCast` decodes the whole payload; `none` is a read past its end.
unfoldable pub adapt : Endian → Adapter → ServiceId → Bytes → ℕ → Option Invocation
adapt e all id input n = some (with_all id input n)
adapt e none_ id input n = some with_none
adapt e id_ id input n = some (with_id id)
adapt e buffer id input n = some (with_buffer input n)
adapt e (value t) id input n = Option.map with_value (deserialize e t input n)
adapt e (id_value t) id input n = Option.map (with_id_value id) (deserialize e t input n)
