-- ===== src/Service/MessageHandler/Choice.antt =====
-- Which adapter src/publish/nil/service/detail/create_message_handler.hpp chooses.
use nil_service.Common.{◌≡◌, true, Option, none, some}
use nil_service.Service.MessageHandler.{Callable, Adapter, all, none_, id_, buffer, value, id_value}

-- A function can be called in the way that an adapter calls it.
abbrev pub Accepts : Callable → Adapter → Type 0
Accepts f all = f.takes_all ≡ true
Accepts f none_ = f.takes_none ≡ true
Accepts f id_ = f.takes_id ≡ true
Accepts f buffer = f.takes_buffer ≡ true
Accepts f (value t) = f.takes_value ≡ some t
Accepts f (id_value t) = f.takes_id_value ≡ some t

-- An adapter is chosen that the function accepts, or none is, and the function accepts none.
abbrev pub Answers : Callable → Option Adapter → Type 0
Answers f (some a) = Accepts f a
Answers f none = (a : Adapter) → ¬ (Accepts f a)
