-- ===== src/Gateway/Forwarding/Relay.antt =====
-- src/src/gateway/create.cpp over services of src/src/self/create.cpp: requests go in at the gateway, and
-- messages come out of it.
use nil_service.Common.{
  ℕ, ◌≡◌, refl, ap, ap₂, ◌∙◌, false, some, List, [], ◌∷◌, ◌++◌, append_assoc, append-nil, arith,
  Bytes, ==-self,
}
use nil_service.Service.{ServiceId, on_message, Effect, Handlers, invoke, invoke_message, run_all}
use nil_service.Service.Requests.{Request}
use nil_service.Service.EventService.{EventService, IsQueueing}
use nil_service.Self
use nil_service.Self.{SelfService}
use nil_service.Self.Loopback.{request_all, received, messages, poll-request_all}
use nil_service.Gateway.{Gateway, poll}
use nil_service.Gateway.Forwarding.{forward_all, echoed, poll-forward_all}

-- The self service behind the interface.
abbrev pub self_ops : EventService SelfService
self_ops = record {
  request = Self.request;
  on_message = λ f. Self.impl_on_message (some f);
  on_ready = λ f. Self.impl_on_ready (some f);
  on_connect = λ f. Self.impl_on_connect (some f);
  on_disconnect = λ f. Self.impl_on_disconnect (some f);
}

-- The requests among the posted tasks.
abbrev pub requests_in : List Self.Task → List Request
requests_in [] = []
requests_in (Self.ready ∷ ts) = requests_in ts
requests_in (Self.queued payload ∷ ts) = Request.publish payload ∷ requests_in ts
requests_in (Self.publish_ex ids payload ∷ ts) = Request.publish_ex ids payload ∷ requests_in ts
requests_in (Self.send ids payload ∷ ts) = Request.send ids payload ∷ requests_in ts
requests_in (Self.user f ∷ ts) = requests_in ts

abbrev pub waiting : SelfService → List Request
waiting s = requests_in s.posted

requests_in-append :
    (xs ys : List Self.Task) → requests_in (xs ++ ys) ≡ requests_in xs ++ requests_in ys
requests_in-append [] ys = refl
requests_in-append (Self.ready ∷ xs) ys = requests_in-append xs ys
requests_in-append (Self.queued payload ∷ xs) ys =
    ap (◌∷◌ (Request.publish payload)) (requests_in-append xs ys)
requests_in-append (Self.publish_ex ids payload ∷ xs) ys =
    ap (◌∷◌ (Request.publish_ex ids payload)) (requests_in-append xs ys)
requests_in-append (Self.send ids payload ∷ xs) ys =
    ap (◌∷◌ (Request.send ids payload)) (requests_in-append xs ys)
requests_in-append (Self.user f ∷ xs) ys = requests_in-append xs ys

request-waiting : (r : Request) (s : SelfService) → waiting (Self.request r s) ≡ waiting s ++ r ∷ []
unfolding Self.request Self.queue_self_message
request-waiting (Request.publish payload) s = requests_in-append s.posted (Self.queued payload ∷ [])
request-waiting (Request.publish_ex ids payload) s =
    requests_in-append s.posted (Self.publish_ex ids payload ∷ [])
request-waiting (Request.send ids payload) s =
    requests_in-append s.posted (Self.send ids payload ∷ [])

-- The self service keeps each request, in order, until it serves it, and goes on with those it has while
-- it is given functions to call.
pub self_ops-IsQueueing : IsQueueing self_ops waiting
unfolding Self.impl_on_message Self.impl_on_ready Self.impl_on_connect Self.impl_on_disconnect
self_ops-IsQueueing = record {
  requested = request-waiting;
  message_added = λ f s. refl;
  ready_added = λ f s. refl;
  connect_added = λ f s. refl;
  disconnect_added = λ f s. refl;
}

echoed-append :
    (hs : Handlers) (f : ℕ) (xs ys : List Effect)
    → echoed hs f (xs ++ ys) ≡ echoed hs f xs ++ echoed hs f ys
echoed-append hs f [] ys = refl
echoed-append hs f (x ∷ xs) ys = rw (echoed-append hs f xs ys, append_assoc) refl

echoed-message :
    (hs : Handlers) (f : ℕ) (id : ServiceId) (payload : Bytes)
    → echoed hs f (invoke (λ cb. on_message cb id payload) (some f ∷ []))
      ≡ invoke_message hs id payload
unfolding invoke
echoed-message hs f id payload = rw (==-self f) (append-nil (invoke_message hs id payload))

echoed-messages :
    (hs heard : Handlers) (f : ℕ) (id : ServiceId) (payloads : List Bytes)
    → heard.on_message_cb ≡ some f ∷ []
    → echoed hs f (messages heard id payloads) ≡ messages hs id payloads
echoed-messages hs heard f id [] q = refl
echoed-messages hs heard f id (payload ∷ payloads) q =
    echoed-append hs f (invoke_message heard id payload) (messages heard id payloads)
    ∙ ap₂ ◌++◌
        (ap (λ cbs. echoed hs f (invoke (λ cb. on_message cb id payload) cbs)) q
          ∙ echoed-message hs f id payload)
        (echoed-messages hs heard f id payloads q)

poll-idle : (s : SelfService) → s.posted ≡ [] → (Self.poll s).1 ≡ []
unfolding Self.poll run_all
poll-idle s q = ground (arith, q)

-- Let a self service be idle and not stopped, and let the gateway's forwarder be its only message
-- handler. When it has been given requests and has been polled, and its calls have reached the gateway,
-- the next poll of a gateway that is not stopped calls, behind what has been waiting, every message
-- handler of the gateway for each payload that is for the service, in the order of the requests, with
-- the identity of the service.
pub relays :
    (rs : List Request) (s : SelfService) (g : Gateway SelfService)
    → s.posted ≡ []
    → s.stopped ≡ false
    → s.handlers.on_message_cb ≡ some g.forwarder ∷ []
    → g.stopped ≡ false
    → (poll (forward_all (Self.poll (request_all rs s)).1 g)).1
      ≡ (poll g).1 ++ messages g.handlers (Self.self_id s) (received (Self.self_id s) rs)
relays rs s g idle goes heard goes' =
    poll-forward_all (Self.poll (request_all rs s)).1 g goes'
    ∙ ap (λ out. (poll g).1 ++ echoed g.handlers g.forwarder out)
        (poll-request_all rs s goes
          ∙ ap (λ o. o ++ messages s.handlers (Self.self_id s) (received (Self.self_id s) rs))
              (poll-idle s idle))
    ∙ ap (◌++◌ (poll g).1) (
        echoed-messages g.handlers s.handlers g.forwarder (Self.self_id s)
          (received (Self.self_id s) rs) heard)
