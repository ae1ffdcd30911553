-- ===== src/Service/Callbacks.antt =====
-- `ICallbackService` and `IWebService` of src/publish/nil/service/structs.hpp: a user's function is adapted
-- and then handed to a virtual call. `none` is a call that does not compile.
pub mod Typed
use nil_service.Common.{ℕ, Option, none, some}
use mathlib.Core.Option
use nil_service.Service.EventService.{EventService}
use nil_service.Service.MessageHandler.{Callable, Adapter, create_handler, create_message_handler}

module _ {ℓ} {S : Type ℓ} (ops : EventService S) where
  unfoldable pub on_ready : Callable → ℕ → S → Option (Adapter × S)
  on_ready handler f s = Option.map (λ a. (a, ops.on_ready f s)) (create_handler handler)

  unfoldable pub on_connect : Callable → ℕ → S → Option (Adapter × S)
  on_connect handler f s = Option.map (λ a. (a, ops.on_connect f s)) (create_handler handler)

  unfoldable pub on_disconnect : Callable → ℕ → S → Option (Adapter × S)
  on_disconnect handler f s = Option.map (λ a. (a, ops.on_disconnect f s)) (create_handler handler)

  unfoldable pub on_message : Callable → ℕ → S → Option (Adapter × S)
  on_message handler f s =
      Option.map (λ a. (a, ops.on_message f s)) (create_message_handler handler)
