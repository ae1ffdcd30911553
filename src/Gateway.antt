-- ===== src/Gateway.antt =====
-- src/src/gateway/create.cpp: many services behind one interface. A request goes to each of them at
-- once; what they call back goes through the gateway's own executor to the gateway's own callbacks.
pub mod FanOut
pub mod Forwarding
use nil_service.Common.{
  ℕ, Bool, true, false, Option, none, some, List, [], ◌∷◌, ◌++◌, Bytes, if◌then◌else◌, ◌==◌, map,
}
use nil_service.Service.{
  ServiceId, Call, on_ready, on_connect, on_disconnect, on_message, Effect, called, sent, Handlers,
  no_handlers, invoke, Action, run_all,
}
use nil_service.Service.Requests.{Request}
use nil_service.Service.EventService.{EventService}

-- What the forwarders dispatch.
pub data Task : Type 0 where
  message : ServiceId → Bytes → Task
  ready connect disconnect : ServiceId → Task
  user : ℕ → Task

-- The services are held by pointer. `forwarder` names the lambdas that the gateway subscribes with.
pub record Gateway {ℓ} (S : Type ℓ) : Type ℓ where
  pub forwarder : ℕ
  pub services : List S
  pub handlers : Handlers
  pub posted : List Task
  pub stopped : Bool

abbrev pub dispatch {ℓ} : {S : Type ℓ} → Task → Gateway S → Gateway S
dispatch task g = record g { posted = g.posted ++ task ∷ [] }

unfoldable pub create {ℓ} : {S : Type ℓ} → ℕ → Gateway S
create forwarder = record {
  forwarder = forwarder;
  services = [];
  handlers = no_handlers;
  posted = [];
  stopped = false;
}

unfoldable pub stop {ℓ} : {S : Type ℓ} → Gateway S → Gateway S
stop g = record g { stopped = true }

unfoldable pub restart {ℓ} : {S : Type ℓ} → Gateway S → Gateway S
restart g = record g { posted = []; stopped = false }

module _ {ℓ} {S : Type ℓ} (ops : EventService S) where
  -- `publish`, `publish_ex` and `send`: the same call on each service.
  unfoldable pub request : Request → Gateway S → Gateway S
  request r g = record g { services = map (ops.request r) g.services }

  unfoldable pub attach_message_forwarder : ℕ → S → S
  attach_message_forwarder forwarder service = ops.on_message forwarder service

  unfoldable pub attach_event_forwarder : (ℕ → S → S) → ℕ → S → S
  attach_event_forwarder subscribe forwarder service = subscribe forwarder service

  unfoldable pub attach : ℕ → S → S
  unfolding attach_message_forwarder attach_event_forwarder
  attach forwarder service =
      let service' = attach_message_forwarder forwarder service in
      let ready_added = attach_event_forwarder ops.on_ready forwarder service' in
      let connect_added = attach_event_forwarder ops.on_connect forwarder ready_added in
      attach_event_forwarder ops.on_disconnect forwarder connect_added

  unfoldable pub add_service : S → Gateway S → Gateway S
  unfolding attach
  add_service service g = record g { services = g.services ++ attach g.forwarder service ∷ [] }

unfoldable pub invoke_event_handlers :
    (ℕ → ServiceId → Call) → List (Option ℕ) → ServiceId → List Effect
invoke_event_handlers call cbs id = invoke (λ cb. call cb id) cbs

unfoldable pub invoke_message_handlers : List (Option ℕ) → ServiceId → Bytes → List Effect
invoke_message_handlers cbs id payload = invoke (λ cb. on_message cb id payload) cbs

module _ {ℓ} {S : Type ℓ} where
  -- The lambdas of the forwarders: a call of another function is none of the gateway's business.
  unfoldable pub forward : Effect → Gateway S → Gateway S
  forward (called (on_message cb id payload)) g =
      if cb == g.forwarder then dispatch (message id payload) g else g
  forward (called (on_ready cb id)) g = if cb == g.forwarder then dispatch (ready id) g else g
  forward (called (on_connect cb id)) g = if cb == g.forwarder then dispatch (connect id) g else g
  forward (called (on_disconnect cb id)) g =
      if cb == g.forwarder then dispatch (disconnect id) g else g
  forward (sent address payload) g = g

  unfoldable pub run_task : Task → Action (Gateway S)
  unfolding invoke_event_handlers invoke_message_handlers
  run_task (message id payload) g = (g, invoke_message_handlers g.handlers.on_message_cb id payload)
  run_task (ready id) g = (g, invoke_event_handlers on_ready g.handlers.on_ready_cb id)
  run_task (connect id) g = (g, invoke_event_handlers on_connect g.handlers.on_connect_cb id)
  run_task (disconnect id) g =
      (g, invoke_event_handlers on_disconnect g.handlers.on_disconnect_cb id)
  run_task (user f) g = (g, [])

  unfoldable pub turn_of : List Task → Action (Gateway S)
  turn_of [] g = (g, [])
  turn_of (task ∷ tasks) g =
      if g.stopped then (g, []) else run_task task (record g { posted = tasks })

  unfoldable pub turn : Action (Gateway S)
  unfolding turn_of
  turn g = turn_of g.posted g

  unfoldable pub poll : Action (Gateway S)
  poll g = if g.stopped then (g, []) else run_all run_task g.posted (record g { posted = [] })

abbrev pub add {ℓ} : {A : Type ℓ} → List A → A → List A
add handlers handler = handlers ++ handler ∷ []

module _ {ℓ} {S : Type ℓ} where
  unfoldable pub impl_on_message : Option ℕ → Gateway S → Gateway S
  impl_on_message f s = record s {
    handlers = record (s.handlers) { on_message_cb = add s.handlers.on_message_cb f };
  }

  unfoldable pub impl_on_ready : Option ℕ → Gateway S → Gateway S
  impl_on_ready f s = record s {
    handlers = record (s.handlers) { on_ready_cb = add s.handlers.on_ready_cb f };
  }

  unfoldable pub impl_on_connect : Option ℕ → Gateway S → Gateway S
  impl_on_connect f s = record s {
    handlers = record (s.handlers) { on_connect_cb = add s.handlers.on_connect_cb f };
  }

  unfoldable pub impl_on_disconnect : Option ℕ → Gateway S → Gateway S
  impl_on_disconnect f s = record s {
    handlers = record (s.handlers) { on_disconnect_cb = add s.handlers.on_disconnect_cb f };
  }
