-- ===== src/Gateway/Forwarding.antt =====
-- src/src/gateway/create.cpp: what the gateway makes of the calls of its services.
pub mod Relay
use nil_service.Common.{
  ℕ, ◌≡◌, refl, sym, ap, ap₂, ◌∙◌, Bool, true, false, Option, none, some, List, [], ◌∷◌, ◌++◌,
  append_assoc, append-nil, arith, Bytes, if◌then◌else◌, ◌==◌, Bool-cases, inl, inr,
}
use nil_service.Service.{
  ServiceId, Call, on_ready, on_connect, on_disconnect, on_message, Effect, called, sent, Handlers,
  invoke_ready, invoke_connect, invoke_disconnect, invoke_message, run_all,
}
use nil_service.Gateway.{
  Task, message, ready, connect, disconnect, user, Gateway, forward, run_task,
  invoke_event_handlers, invoke_message_handlers, poll, dispatch,
}

-- The effects of services, one after the other.
abbrev pub forward_all {ℓ} : {S : Type ℓ} → List Effect → Gateway S → Gateway S
forward_all [] g = g
forward_all (x ∷ out) g = forward_all out (forward x g)

-- A call of the forwarder is repeated for every function that the gateway's user has registered.
abbrev pub echo : Handlers → ℕ → Effect → List Effect
echo hs f (called (on_message cb id payload)) = if cb == f then invoke_message hs id payload else []
echo hs f (called (on_ready cb id)) = if cb == f then invoke_ready hs id else []
echo hs f (called (on_connect cb id)) = if cb == f then invoke_connect hs id else []
echo hs f (called (on_disconnect cb id)) = if cb == f then invoke_disconnect hs id else []
echo hs f (sent address payload) = []

abbrev pub echoed : Handlers → ℕ → List Effect → List Effect
echoed hs f [] = []
echoed hs f (x ∷ out) = echo hs f x ++ echoed hs f out

said : Task → Handlers → List Effect
said (message id payload) hs = invoke_message hs id payload
said (ready id) hs = invoke_ready hs id
said (connect id) hs = invoke_connect hs id
said (disconnect id) hs = invoke_disconnect hs id
said (user f) hs = []

said_all : List Task → Handlers → List Effect
said_all [] hs = []
said_all (task ∷ tasks) hs = said task hs ++ said_all tasks hs

said_all-append :
    (xs ys : List Task) (hs : Handlers) → said_all (xs ++ ys) hs ≡ said_all xs hs ++ said_all ys hs
unfolding said_all
said_all-append [] ys hs = refl
said_all-append (task ∷ xs) ys hs = rw (said_all-append xs ys hs, append_assoc) refl

module _ {ℓ} {S : Type ℓ} where
  run_task-said : (task : Task) (g : Gateway S) → run_task task g ≡ (g, said task g.handlers)
  unfolding run_task said
  run_task-said (message id payload) g = refl
  run_task-said (ready id) g = refl
  run_task-said (connect id) g = refl
  run_task-said (disconnect id) g = refl
  run_task-said (user f) g = refl

  run_all-said :
      (tasks : List Task) (g : Gateway S)
      → run_all run_task tasks g ≡ (g, said_all tasks g.handlers)
  unfolding run_all said_all
  run_all-said [] g = refl
  run_all-said (task ∷ tasks) g = rw (run_task-said task g, run_all-said tasks g) refl

  goes_on : (b : Bool) → b ≡ false → (x y : Gateway S × List Effect) → (if b then x else y).1 ≡ y.1
  goes_on b q x y = rw q refl

  poll-said : (g : Gateway S) → g.stopped ≡ false → (poll g).1 ≡ said_all g.posted g.handlers
  unfolding poll
  poll-said g q =
      goes_on g.stopped q (g, []) (run_all run_task g.posted (record g { posted = [] }))
      ∙ ap (λ (r : Gateway S × List Effect). r.1) (run_all-said g.posted (record g { posted = [] }))

-- What the forwarders dispatch.
dispatched : ℕ → Effect → List Task
dispatched f (called (on_message cb id payload)) = if cb == f then message id payload ∷ [] else []
dispatched f (called (on_ready cb id)) = if cb == f then ready id ∷ [] else []
dispatched f (called (on_connect cb id)) = if cb == f then connect id ∷ [] else []
dispatched f (called (on_disconnect cb id)) = if cb == f then disconnect id ∷ [] else []
dispatched f (sent address payload) = []

said_all-if :
    (b : Bool) (task : Task) (hs : Handlers)
    → said_all (if b then task ∷ [] else []) hs ≡ (if b then said task hs else [])
unfolding said_all
said_all-if true task hs = append-nil (said task hs)
said_all-if false task hs = refl

said_all-dispatched :
    (f : ℕ) (x : Effect) (hs : Handlers) → said_all (dispatched f x) hs ≡ echo hs f x
unfolding dispatched said
said_all-dispatched f (called (on_message cb id payload)) hs =
    said_all-if (cb == f) (message id payload) hs
said_all-dispatched f (called (on_ready cb id)) hs = said_all-if (cb == f) (ready id) hs
said_all-dispatched f (called (on_connect cb id)) hs = said_all-if (cb == f) (connect id) hs
said_all-dispatched f (called (on_disconnect cb id)) hs = said_all-if (cb == f) (disconnect id) hs
said_all-dispatched f (sent address payload) hs = said_all-if false (user 0) hs

module _ {ℓ} {S : Type ℓ} where
  dispatch_if :
      (b : Bool) (task : Task) (g : Gateway S)
      → (if b then dispatch task g else g)
        ≡ record g { posted = g.posted ++ (if b then task ∷ [] else []) }
  dispatch_if true task g = refl
  dispatch_if false task g = ap (λ ts. record g { posted = ts }) (sym (append-nil g.posted))

  forward-dispatched :
      (x : Effect) (g : Gateway S)
      → forward x g ≡ record g { posted = g.posted ++ dispatched g.forwarder x }
  unfolding forward dispatched
  forward-dispatched (called (on_message cb id payload)) g =
      dispatch_if (cb == g.forwarder) (message id payload) g
  forward-dispatched (called (on_ready cb id)) g = dispatch_if (cb == g.forwarder) (ready id) g
  forward-dispatched (called (on_connect cb id)) g = dispatch_if (cb == g.forwarder) (connect id) g
  forward-dispatched (called (on_disconnect cb id)) g =
      dispatch_if (cb == g.forwarder) (disconnect id) g
  forward-dispatched (sent address payload) g = dispatch_if false (user 0) g

  -- A gateway that is not stopped repeats at the next poll, behind what it has been waiting to do, each
  -- call that a service has made of its forwarders, once for every function of the same kind that its
  -- user has registered, with the identity and the payload that the service gave, and in the order of
  -- the calls.
  pub poll-forward_all :
      (out : List Effect) (g : Gateway S)
      → g.stopped ≡ false
      → (poll (forward_all out g)).1 ≡ (poll g).1 ++ echoed g.handlers g.forwarder out
  poll-forward_all [] g q = sym (append-nil (poll g).1)
  poll-forward_all (x ∷ out) g q = rw (forward-dispatched x g) (
      poll-forward_all out (record g { posted = g.posted ++ dispatched g.forwarder x }) q
      ∙ ap (λ o. o ++ echoed g.handlers g.forwarder out)
          (poll-said (record g { posted = g.posted ++ dispatched g.forwarder x }) q
            ∙ said_all-append g.posted (dispatched g.forwarder x) g.handlers
            ∙ ap₂ ◌++◌ (sym (poll-said g q)) (said_all-dispatched g.forwarder x g.handlers))
      ∙ append_assoc (poll g).1 (echo g.handlers g.forwarder x) (echoed g.handlers g.forwarder out))
