-- ===== src/Service/EventService.antt =====
-- `IEventService` of src/publish/nil/service/structs.hpp, as far as a client of a service sees it.
use nil_service.Common.{ℕ, ◌≡◌, List, [], ◌∷◌, ◌++◌}
use nil_service.Service.Requests.{Request}

-- The virtual calls of `IMessageService` and of `ICallbackService` on a service whose state is an `S`;
-- the latter are given the name of a function.
pub record EventService {ℓ} (S : Type ℓ) : Type ℓ where
  pub request : Request → S → S
  pub on_message : ℕ → S → S
  pub on_ready : ℕ → S → S
  pub on_connect : ℕ → S → S
  pub on_disconnect : ℕ → S → S

-- A service keeps each request, in order, until it serves it, and goes on with those it has while it
-- is given functions to call.
pub record IsQueueing {ℓ} {S : Type ℓ} (ops : EventService S) (waiting : S → List Request)
    : Type ℓ where
  pub requested : (r : Request) (s : S) → waiting (ops.request r s) ≡ waiting s ++ r ∷ []
  pub message_added : (f : ℕ) (s : S) → waiting (ops.on_message f s) ≡ waiting s
  pub ready_added : (f : ℕ) (s : S) → waiting (ops.on_ready f s) ≡ waiting s
  pub connect_added : (f : ℕ) (s : S) → waiting (ops.on_connect f s) ≡ waiting s
  pub disconnect_added : (f : ℕ) (s : S) → waiting (ops.on_disconnect f s) ≡ waiting s
