-- ===== src/Udp/Server/Peers.antt =====
-- The searches and loops of src/src/udp/server/create.cpp.
use nil_service.Common.{
  ℕ, ◌+◌, ◌≡◌, refl, true, false, none, some, List, [], ◌∷◌, ◌++◌, if◌then◌else◌, ◌==◌, arith,
  Bytes,
}
use nil_service.Codec.{Endian}
use nil_service.Service.{ServiceId}
use nil_service.Service.Calls.{Told}
use nil_service.Service.Peers.{Peer, addresses}
use nil_service.Service.Peers.Delivery.{Differs, Distinct, occurs, writes_of}
use nil_service.Udp.Server.{
  Connection, send_external, publish_each, publish_except, send_each, find_endpoint, arm, erase,
  find_address,
}

abbrev pub endpoints : List (Peer Connection) → List ℕ
endpoints [] = []
endpoints (c ∷ cs) = c.connection.endpoint ∷ endpoints cs

-- Every connection has a wait outstanding.
abbrev pub AllWaiting : List (Peer Connection) → Type 0
AllWaiting [] = Unit
AllWaiting (c ∷ cs) = (c.connection.waiting ≡ true) × AllWaiting cs

module _ (a : ℕ) where
  pub addresses-arm : (cs : List (Peer Connection)) → addresses (arm a cs) ≡ addresses cs
  unfolding arm
  addresses-arm [] = refl
  addresses-arm (c ∷ cs) = ground (arith, addresses-arm cs)

  pub endpoints-arm : (cs : List (Peer Connection)) → endpoints (arm a cs) ≡ endpoints cs
  unfolding arm
  endpoints-arm [] = refl
  endpoints-arm (c ∷ cs) = ground (arith, endpoints-arm cs)

  pub arm-AllWaiting : (cs : List (Peer Connection)) → AllWaiting cs → AllWaiting (arm a cs)
  unfolding arm
  arm-AllWaiting [] h = tt
  arm-AllWaiting (c ∷ cs) h = ground (arith, arm-AllWaiting cs h.1)

  -- The connection that has just been added is armed like the others.
  pub arm-last :
      (e : ℕ) (cs : List (Peer Connection))
      → AllWaiting cs
      → Differs a (addresses cs)
      → AllWaiting (
          arm a (
            cs
            ++ record { address = a; connection = record { endpoint = e; waiting = false } } ∷ []))
  unfolding arm
  arm-last e [] h d = ground arith
  arm-last e (c ∷ cs) h d = ground (arith, arm-last e cs h.1 d.1)

  pub erase-AllWaiting : (cs : List (Peer Connection)) → AllWaiting cs → AllWaiting (erase a cs)
  unfolding erase
  erase-AllWaiting [] h = tt
  erase-AllWaiting (c ∷ cs) h = ground (arith, erase-AllWaiting cs h.1)

  erase-Differs :
      (b : ℕ) (cs : List (Peer Connection))
      → Differs b (addresses cs)
      → Differs b (addresses (erase a cs))
  unfolding erase
  erase-Differs b [] h = tt
  erase-Differs b (c ∷ cs) h = ground (arith, erase-Differs b cs h.1)

  pub erase-Distinct :
      (cs : List (Peer Connection)) → Distinct (addresses cs) → Distinct (addresses (erase a cs))
  unfolding erase
  erase-Distinct [] h = tt
  erase-Distinct (c ∷ cs) h = ground (arith, erase-Distinct cs h.1, erase-Differs c.address cs h.0)

  erase-Differs_endpoint :
      (b : ℕ) (cs : List (Peer Connection))
      → Differs b (endpoints cs)
      → Differs b (endpoints (erase a cs))
  unfolding erase
  erase-Differs_endpoint b [] h = tt
  erase-Differs_endpoint b (c ∷ cs) h = ground (arith, erase-Differs_endpoint b cs h.1)

  pub erase-Distinct-endpoints :
      (cs : List (Peer Connection)) → Distinct (endpoints cs) → Distinct (endpoints (erase a cs))
  unfolding erase
  erase-Distinct-endpoints [] h = tt
  erase-Distinct-endpoints (c ∷ cs) h =
      ground (
        arith,
        erase-Distinct-endpoints cs h.1,
        erase-Differs_endpoint c.connection.endpoint cs h.0,
      )

  pub occurs-erase :
      (b : ℕ) (cs : List (Peer Connection))
      → occurs b (addresses (erase a cs)) ≡ (if a == b then 0 else occurs b (addresses cs))
  unfolding erase
  occurs-erase b [] = ground arith
  occurs-erase b (c ∷ cs) = ground (arith, occurs-erase b cs)

pub occurs-Differs : (b : ℕ) (bs : List ℕ) → Differs b bs → occurs b bs ≡ 0
occurs-Differs b [] h = refl
occurs-Differs b (a ∷ bs) h = ground (arith, occurs-Differs b bs h.1)

pub occurs-found :
    (a : ℕ) (c : Peer Connection) (cs : List (Peer Connection))
    → Distinct (addresses cs)
    → find_address a cs ≡ some c
    → (c.address ≡ a) × (occurs a (addresses cs) ≡ 1)
unfolding find_address
occurs-found a c [] d q = absurd (cc)
occurs-found a c (x ∷ cs) d q =
    ground (arith, occurs-found a c cs d.1, occurs-Differs a (addresses cs))

-- An endpoint that is not found is new.
pub find_endpoint-none :
    (e : ℕ) (cs : List (Peer Connection)) → find_endpoint e cs ≡ none → Differs e (endpoints cs)
unfolding find_endpoint
find_endpoint-none e [] q = tt
find_endpoint-none e (c ∷ cs) q = ground (arith, find_endpoint-none e cs)

pub writes_of-publish_each :
    (e : Endian) (msg : Bytes) (p : ℕ) (cs : List (Peer Connection))
    → writes_of p (publish_each e msg cs) ≡ occurs p (endpoints cs)
unfolding publish_each send_external
writes_of-publish_each e msg p [] = refl
writes_of-publish_each e msg p (c ∷ cs) = omega (arith, writes_of-publish_each e msg p cs)

-- `send` and `publish_ex` share out the connections.
pub writes_of-send_each :
    (e : Endian) (this : ℕ) (ids : List ServiceId) (msg : Bytes) (p : ℕ)
    (cs : List (Peer Connection))
    → writes_of p (send_each e this ids msg cs) + writes_of p (publish_except e this ids msg cs)
      ≡ occurs p (endpoints cs)
unfolding send_each publish_except send_external
writes_of-send_each e this ids msg p [] = refl
writes_of-send_each e this ids msg p (c ∷ cs) =
    ground (arith, writes_of-send_each e this ids msg p cs)

-- The loops write and call nobody.
module _ (b : ℕ) (e : Endian) (msg : Bytes) where
  pub publish_each-Told : (cs : List (Peer Connection)) → Told b (publish_each e msg cs) 0 0
  unfolding publish_each send_external
  publish_each-Told [] = (refl, refl)
  publish_each-Told (c ∷ cs) = omega (arith, publish_each-Told cs)

  pub publish_except-Told :
      (this : ℕ) (ids : List ServiceId) (cs : List (Peer Connection))
      → Told b (publish_except e this ids msg cs) 0 0
  unfolding publish_except send_external
  publish_except-Told this ids [] = (refl, refl)
  publish_except-Told this ids (c ∷ cs) = ground (arith, publish_except-Told this ids cs)

  pub send_each-Told :
      (this : ℕ) (ids : List ServiceId) (cs : List (Peer Connection))
      → Told b (send_each e this ids msg cs) 0 0
  unfolding send_each send_external
  send_each-Told this ids [] = (refl, refl)
  send_each-Told this ids (c ∷ cs) = ground (arith, send_each-Told this ids cs)
