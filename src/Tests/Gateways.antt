-- ===== src/Tests/Gateways.antt =====
-- A gateway over one self service.
use nil_service.Common.{◌≡◌, refl, false, some, List, [], ◌∷◌}
use nil_service.Service.{ServiceId, called, on_message, no_handlers, contains_id, invoke, run_all}
use nil_service.Service.Requests.{Request}
use nil_service.Self
use nil_service.Self.{SelfService}
use nil_service.Self.Loopback.{poll-request_all, restart-forgets}
use nil_service.Self.Loopback
use nil_service.Gateway.{Gateway, poll}
use nil_service.Gateway.FanOut.{request_all}
use nil_service.Gateway.Forwarding.{forward_all}
use nil_service.Gateway.Forwarding.Relay.{relays}

-- The service at address 5, which has been announced, with the gateway's forwarder 9.
abbrev service : SelfService
service = record {
  this = 5;
  handlers = record (no_handlers) { on_message_cb = some 9 ∷ [] };
  posted = [];
  stopped = false;
}

abbrev id : ServiceId
id = record { owner = 5; id = 5; to_string = 1 }

abbrev requests : List Request
requests = Request.publish (1 ∷ []) ∷ Request.send [] (2 ∷ []) ∷ Request.publish_ex [] (3 ∷ []) ∷ []

poll-request_all_example :
    (Self.poll (Loopback.request_all requests service)).1
    ≡ called (on_message 9 id (1 ∷ [])) ∷ called (on_message 9 id (3 ∷ [])) ∷ []
unfolding Self.poll Self.self_id contains_id invoke run_all
poll-request_all_example = poll-request_all requests service refl

-- The gateway with forwarder 9 and the user's function 4.
abbrev gateway : Gateway SelfService
gateway = record {
  forwarder = 9;
  services = [];
  handlers = record (no_handlers) { on_message_cb = some 4 ∷ [] };
  posted = [];
  stopped = false;
}

relays_example :
    (poll (forward_all (Self.poll (Loopback.request_all requests service)).1 gateway)).1
    ≡ called (on_message 4 id (1 ∷ [])) ∷ called (on_message 4 id (3 ∷ [])) ∷ []
unfolding poll Self.self_id contains_id invoke run_all
relays_example = relays requests service gateway refl refl refl refl
