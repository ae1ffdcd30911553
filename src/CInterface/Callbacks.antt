-- ===== src/CInterface/Callbacks.antt =====
-- The functions that src/src/c/service.cpp gives to a service for those of C: lambdas that hold a
-- function and its context. A C function is a number, 0 standing for no name.
pub mod Hearing
use nil_service.Common.{ℕ, Option, none, some, List, [], ◌∷◌, ◌++◌, Bytes, length, get_elem?, ◌>>=◌}
use mathlib.Core.Option
use nil_service.Service.{ServiceId, Call, on_ready, on_connect, on_disconnect, on_message}
use nil_service.Service.EventService.{EventService}
use nil_service.CInterface.{CId, from_cpp_id}

-- `nil_service_callback_info`, `nil_service_msg_callback_info` and `nil_service_dispatch_info`; a null
-- `exec` is `none`.
pub record CallbackInfo : Type 0 where
  pub exec : Option ℕ
  pub context : ℕ
  pub cleanup : Option ℕ

-- The lambdas, by what they are called with.
pub data Lambda : Type 0 where
  for_id for_message : CallbackInfo → Lambda

-- A service that C uses. A lambda is known to the service by its place among those that were made.
pub record CService {ℓ} (S : Type ℓ) : Type ℓ where
  pub service : S
  pub lambdas : List Lambda

-- A call of a C function, with its context last.
pub data CCall : Type 0 where
  event : ℕ → CId → ℕ → CCall
  message : ℕ → CId → Bytes → ℕ → CCall
  task : ℕ → ℕ → CCall

module _ {ℓ} {S : Type ℓ} (ops : EventService S) where
  unfoldable pub callback_on_ready : CallbackInfo → CService S → CService S
  callback_on_ready info c = record {
    service = ops.on_ready (length c.lambdas) c.service;
    lambdas = c.lambdas ++ for_id info ∷ [];
  }

  unfoldable pub callback_on_connect : CallbackInfo → CService S → CService S
  callback_on_connect info c = record {
    service = ops.on_connect (length c.lambdas) c.service;
    lambdas = c.lambdas ++ for_id info ∷ [];
  }

  unfoldable pub callback_on_disconnect : CallbackInfo → CService S → CService S
  callback_on_disconnect info c = record {
    service = ops.on_disconnect (length c.lambdas) c.service;
    lambdas = c.lambdas ++ for_id info ∷ [];
  }

  unfoldable pub callback_on_message : CallbackInfo → CService S → CService S
  callback_on_message info c = record {
    service = ops.on_message (length c.lambdas) c.service;
    lambdas = c.lambdas ++ for_message info ∷ [];
  }

-- What a lambda calls; `none` is a call of a null pointer, or with the wrong arguments.
unfoldable pub called_with_id : Lambda → ServiceId → Option CCall
called_with_id (for_id info) id =
    Option.map (λ exec. event exec (from_cpp_id id) info.context) info.exec
called_with_id (for_message info) id = none

unfoldable pub called_with_message : Lambda → ServiceId → Bytes → Option CCall
called_with_message (for_id info) id payload = none
called_with_message (for_message info) id payload =
    Option.map (λ exec. message exec (from_cpp_id id) payload info.context) info.exec

-- A call that the service makes of one of its functions.
unfoldable pub perform : List Lambda → Call → Option CCall
unfolding called_with_id called_with_message
perform ls (on_ready f id) = get_elem? f ls >>= λ l. called_with_id l id
perform ls (on_connect f id) = get_elem? f ls >>= λ l. called_with_id l id
perform ls (on_disconnect f id) = get_elem? f ls >>= λ l. called_with_id l id
perform ls (on_message f id payload) = get_elem? f ls >>= λ l. called_with_message l id payload

-- The task that `nil_service_runnable_dispatch` gives to the service.
unfoldable pub dispatched : CallbackInfo → Option CCall
dispatched info = Option.map (λ exec. task exec info.context) info.exec
