-- ===== src/Udp/Server/Handling.antt =====
-- Which connections the handlers of src/src/udp/server/create.cpp leave, and whom they tell of them.
use nil_service.Common.{
  ℕ, ◌+◌, ◌≡◌, ◌≢◌, refl, sym, ap, ◌∙◌, false, Option, none, some, List, [], ◌∷◌, ◌++◌, arith,
  Bytes, if_both, length, leb, drop,
}
use nil_service.Codec.{Endian, from_array}
use nil_service.Service.{Effect, sent, invoke_connect}
use nil_service.Service.Calls.{
  live, connects_of, disconnects_of, connects_of-append, disconnects_of-append, invoke_connect-Told,
  invoke_disconnect-Told, invoke_message-Told,
}
use nil_service.Service.Peers.{Peer, addresses}
use nil_service.Service.Peers.Delivery.{Differs, Distinct, occurs}
use nil_service.Udp.{probe}
use nil_service.Udp.Server.{
  Connection, Server, find_endpoint, ping, external_message, message, expired_at, find_address, arm,
  is_probe, remote,
}
use nil_service.Udp.Server.Peers.{
  endpoints, AllWaiting, addresses-arm, endpoints-arm, arm-AllWaiting, arm-last, erase-AllWaiting,
  erase-Distinct, erase-Distinct-endpoints, occurs-erase, occurs-found, find_endpoint-none,
}

pub record IsSound (cs : List (Peer Connection)) : Type 0 where
  pub distinct : Distinct (addresses cs)
  pub separate : Distinct (endpoints cs)
  pub waiting : AllWaiting cs

abbrev pub IsValid : Server → Type 0
IsValid s = IsSound s.connections

-- One callback of each kind is registered.
pub record IsHeard (s : Server) : Type 0 where
  pub connect_heard : live s.handlers.on_connect_cb ≡ 1
  pub disconnect_heard : live s.handlers.on_disconnect_cb ≡ 1

-- What a piece of code keeps, and what it tells of the connection at an address.
pub record Keeps (b : ℕ) (s : Server) (r : Server × List Effect) : Type 0 where
  pub sound : IsSound r.0.connections
  pub heard : IsHeard r.0
  pub balance :
      occurs b (addresses r.0.connections) + disconnects_of b r.1
      ≡ occurs b (addresses s.connections) + connects_of b r.1

Differs-append : (a b : ℕ) (xs : List ℕ) → Differs a xs → a ≢ b → Differs a (xs ++ b ∷ [])
Differs-append a b [] h k = (k, tt)
Differs-append a b (x ∷ xs) h k = (h.0, Differs-append a b xs h.1 k)

Distinct-append : (b : ℕ) (xs : List ℕ) → Distinct xs → Differs b xs → Distinct (xs ++ b ∷ [])
Distinct-append b [] h k = (tt, tt)
Distinct-append b (x ∷ xs) h k =
    (Differs-append x b xs h.0 (λ e. k.0 (sym e)), Distinct-append b xs h.1 k.1)

addresses-append :
    (xs ys : List (Peer Connection)) → addresses (xs ++ ys) ≡ addresses xs ++ addresses ys
addresses-append [] ys = refl
addresses-append (c ∷ xs) ys = ap (◌∷◌ c.address) (addresses-append xs ys)

endpoints-append :
    (xs ys : List (Peer Connection)) → endpoints (xs ++ ys) ≡ endpoints xs ++ endpoints ys
endpoints-append [] ys = refl
endpoints-append (c ∷ xs) ys = ap (◌∷◌ c.connection.endpoint) (endpoints-append xs ys)

occurs-append : (b : ℕ) (xs ys : List ℕ) → occurs b (xs ++ ys) ≡ occurs b xs + occurs b ys
occurs-append b [] ys = omega arith
occurs-append b (x ∷ xs) ys = omega (arith, occurs-append b xs ys)

-- The connections after a probe from a new endpoint.
abbrev grown : ℕ → ℕ → List (Peer Connection) → List (Peer Connection)
grown fresh endpoint cs = arm fresh (
    cs
    ++ record { address = fresh; connection = record { endpoint = endpoint; waiting = false } }
      ∷ [])

addresses-grown :
    (f p : ℕ) (cs : List (Peer Connection)) → addresses (grown f p cs) ≡ addresses cs ++ f ∷ []
addresses-grown f p cs = addresses-arm f _ ∙ addresses-append cs _

endpoints-grown :
    (f p : ℕ) (cs : List (Peer Connection)) → endpoints (grown f p cs) ≡ endpoints cs ++ p ∷ []
endpoints-grown f p cs = endpoints-arm f _ ∙ endpoints-append cs _

ping-Keeps :
    (b : ℕ) (e : Endian) (fresh endpoint : ℕ) (found : Option (Peer Connection)) (s : Server)
    → IsValid s
    → IsHeard s
    → Differs fresh (addresses s.connections)
    → find_endpoint endpoint s.connections ≡ found
    → Keeps b s (ping e fresh endpoint found s)
unfolding ping
ping-Keeps b e fresh endpoint none s v h new q = record {
  sound = record {
    distinct =
        rw (addresses-grown fresh endpoint s.connections)
          (Distinct-append fresh (addresses s.connections) v.distinct new);
    separate = rw (endpoints-grown fresh endpoint s.connections) (
        Distinct-append endpoint (endpoints s.connections) v.separate
          (find_endpoint-none endpoint s.connections q));
    waiting = arm-last fresh endpoint s.connections v.waiting new;
  };
  heard = record { connect_heard = h.connect_heard; disconnect_heard = h.disconnect_heard };
  balance =
      rw
        (
          addresses-grown fresh endpoint s.connections,
          occurs-append b (addresses s.connections) (fresh ∷ []),
          connects_of-append b (invoke_connect s.handlers (remote s.this fresh))
              (sent endpoint (probe e) ∷ []),
          disconnects_of-append b (invoke_connect s.handlers (remote s.this fresh))
              (sent endpoint (probe e) ∷ []),
        )
        (ground (arith, invoke_connect-Told b s.handlers (remote s.this fresh)));
}
ping-Keeps b e fresh endpoint (some c) s v h new q = record {
  sound = record {
    distinct = rw (addresses-arm c.address s.connections) v.distinct;
    separate = rw (endpoints-arm c.address s.connections) v.separate;
    waiting = arm-AllWaiting c.address s.connections v.waiting;
  };
  heard = record { connect_heard = h.connect_heard; disconnect_heard = h.disconnect_heard };
  balance = rw (addresses-arm c.address s.connections) refl;
}

external_message-Keeps :
    (b : ℕ) (bytes : Bytes) (found : Option (Peer Connection)) (s : Server)
    → IsValid s
    → IsHeard s
    → Keeps b s (external_message bytes found s)
unfolding external_message
external_message-Keeps b bytes none s v h = record { sound = v; heard = h; balance = refl }
external_message-Keeps b bytes (some c) s v h = record {
  sound = v;
  heard = h;
  balance =
      omega (arith, invoke_message-Told b s.handlers (remote s.this c.address) (drop 1 bytes));
}

pub message-Keeps :
    (b : ℕ) (e : Endian) (fresh endpoint : ℕ) (bytes : Bytes) (s : Server)
    → IsValid s
    → IsHeard s
    → Differs fresh (addresses s.connections)
    → Keeps b s (message e fresh endpoint bytes s)
unfolding message
message-Keeps b e fresh endpoint bytes s v h new =
    if_both (Keeps b s) (leb 1 (length bytes)) _ _
      (if_both (Keeps b s) (is_probe (from_array e 1 bytes)) _ _
        (ping-Keeps b e fresh endpoint (find_endpoint endpoint s.connections) s v h new refl)
        (external_message-Keeps b bytes (find_endpoint endpoint s.connections) s v h))
      (record { sound = v; heard = h; balance = refl })

pub expired_at-Keeps :
    (b a : ℕ) (found : Option (Peer Connection)) (s : Server)
    → IsValid s
    → IsHeard s
    → find_address a s.connections ≡ found
    → Keeps b s (expired_at found s)
unfolding expired_at
expired_at-Keeps b a none s v h q = record { sound = v; heard = h; balance = refl }
expired_at-Keeps b a (some c) s v h q = record {
  sound = record {
    distinct = erase-Distinct c.address s.connections v.distinct;
    separate = erase-Distinct-endpoints c.address s.connections v.separate;
    waiting = erase-AllWaiting c.address s.connections v.waiting;
  };
  heard = record { connect_heard = h.connect_heard; disconnect_heard = h.disconnect_heard };
  balance = ground (
    arith,
    occurs-erase c.address b s.connections,
    occurs-found a c s.connections v.distinct q,
    invoke_disconnect-Told b s.handlers (remote s.this c.address),
  );
}
