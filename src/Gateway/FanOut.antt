-- ===== src/Gateway/FanOut.antt =====
-- src/src/gateway/create.cpp: the requests that reach the services.
use nil_service.Common.{List, [], ◌∷◌}
use nil_service.Service.Requests.{Request}
use nil_service.Service.EventService.{EventService}
use nil_service.Gateway.{Gateway, request}

module _ {ℓ} {S : Type ℓ} (ops : EventService S) where
  -- The requests one after the other.
  abbrev pub request_all : List Request → Gateway S → Gateway S
  request_all [] g = g
  request_all (r ∷ rs) g = request_all rs (request ops r g)
