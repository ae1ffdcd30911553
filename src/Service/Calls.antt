-- ===== src/Service/Calls.antt =====
-- How often the user is told of a connection: counts of the calls that `utils::invoke` makes.
use nil_service.Common.{
  ℕ, suc, ◌+◌, ◌≡◌, refl, Option, none, some, List, [], ◌∷◌, ◌++◌, if◌then◌else◌, ◌==◌, arith,
  Bytes,
}
use nil_service.Service.{
  ServiceId, on_ready, on_connect, on_disconnect, on_message, Effect, called, sent, Handlers,
  invoke, invoke_ready, invoke_connect, invoke_disconnect, invoke_message,
}

-- The callbacks that are not empty.
abbrev pub live : List (Option ℕ) → ℕ
live [] = 0
live (none ∷ cbs) = live cbs
live (some cb ∷ cbs) = suc (live cbs)

abbrev pub connects_in : ℕ → Effect → ℕ
connects_in b (called (on_connect cb id)) = if id.id == b then 1 else 0
connects_in b (called (on_ready cb id)) = 0
connects_in b (called (on_disconnect cb id)) = 0
connects_in b (called (on_message cb id payload)) = 0
connects_in b (sent a payload) = 0

abbrev pub disconnects_in : ℕ → Effect → ℕ
disconnects_in b (called (on_disconnect cb id)) = if id.id == b then 1 else 0
disconnects_in b (called (on_ready cb id)) = 0
disconnects_in b (called (on_connect cb id)) = 0
disconnects_in b (called (on_message cb id payload)) = 0
disconnects_in b (sent a payload) = 0

-- The calls of `on_connect` and `on_disconnect` for the peer at an address.
abbrev pub connects_of : ℕ → List Effect → ℕ
connects_of b [] = 0
connects_of b (x ∷ out) = connects_in b x + connects_of b out

abbrev pub disconnects_of : ℕ → List Effect → ℕ
disconnects_of b [] = 0
disconnects_of b (x ∷ out) = disconnects_in b x + disconnects_of b out

pub connects_of-append :
    (b : ℕ) (xs ys : List Effect) → connects_of b (xs ++ ys) ≡ connects_of b xs + connects_of b ys
connects_of-append b [] ys = omega arith
connects_of-append b (x ∷ xs) ys = omega (arith, connects_of-append b xs ys)

pub disconnects_of-append :
    (b : ℕ) (xs ys : List Effect)
    → disconnects_of b (xs ++ ys) ≡ disconnects_of b xs + disconnects_of b ys
disconnects_of-append b [] ys = omega arith
disconnects_of-append b (x ∷ xs) ys = omega (arith, disconnects_of-append b xs ys)

-- Both counts of a list of effects.
abbrev pub Told : ℕ → List Effect → ℕ → ℕ → Type 0
Told b out m n = (connects_of b out ≡ m) × (disconnects_of b out ≡ n)

module _ (b : ℕ) (id : ServiceId) where
  Told-connect :
      (cbs : List (Option ℕ))
      → Told b (invoke (λ cb. on_connect cb id) cbs) (if id.id == b then live cbs else 0) 0
  unfolding invoke
  Told-connect [] = ground arith
  Told-connect (none ∷ cbs) = Told-connect cbs
  Told-connect (some cb ∷ cbs) = ground (arith, Told-connect cbs)

  Told-disconnect :
      (cbs : List (Option ℕ))
      → Told b (invoke (λ cb. on_disconnect cb id) cbs) 0 (if id.id == b then live cbs else 0)
  unfolding invoke
  Told-disconnect [] = ground arith
  Told-disconnect (none ∷ cbs) = Told-disconnect cbs
  Told-disconnect (some cb ∷ cbs) = ground (arith, Told-disconnect cbs)

  Told-ready : (cbs : List (Option ℕ)) → Told b (invoke (λ cb. on_ready cb id) cbs) 0 0
  unfolding invoke
  Told-ready [] = (refl, refl)
  Told-ready (none ∷ cbs) = Told-ready cbs
  Told-ready (some cb ∷ cbs) = omega (arith, Told-ready cbs)

  Told-message :
      (payload : Bytes) (cbs : List (Option ℕ))
      → Told b (invoke (λ cb. on_message cb id payload) cbs) 0 0
  unfolding invoke
  Told-message payload [] = (refl, refl)
  Told-message payload (none ∷ cbs) = Told-message payload cbs
  Told-message payload (some cb ∷ cbs) = omega (arith, Told-message payload cbs)

module _ (b : ℕ) (hs : Handlers) (id : ServiceId) where
  pub invoke_connect-Told :
      Told b (invoke_connect hs id) (if id.id == b then live hs.on_connect_cb else 0) 0
  invoke_connect-Told = Told-connect b id hs.on_connect_cb

  pub invoke_disconnect-Told :
      Told b (invoke_disconnect hs id) 0 (if id.id == b then live hs.on_disconnect_cb else 0)
  invoke_disconnect-Told = Told-disconnect b id hs.on_disconnect_cb

  pub invoke_ready-Told : Told b (invoke_ready hs id) 0 0
  invoke_ready-Told = Told-ready b id hs.on_ready_cb

  pub invoke_message-Told : (payload : Bytes) → Told b (invoke_message hs id payload) 0 0
  invoke_message-Told payload = Told-message b id payload hs.on_message_cb
