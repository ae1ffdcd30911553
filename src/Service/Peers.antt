-- ===== src/Service/Peers.antt =====
-- The list of connections that src/src/tcp/server/create.cpp and src/src/http/server/WebSocket.cpp keep: a
-- `std::vector<std::unique_ptr<Connection>>`, the loops over it and the searches in it. A connection
-- has the address that its owning pointer holds.
pub mod Delivery
use nil_service.Common.{
  ℕ, Bool, true, false, Option, none, some, List, [], ◌∷◌, ◌++◌, if◌then◌else◌, ◌==◌,
}
use nil_service.Service.{ServiceId, same_id, contains_id, Effect}

pub record Peer {ℓ} (C : Type ℓ) : Type ℓ where
  pub address : ℕ
  pub connection : C

-- `connection->remote_id()` for the owner and the printer that a connection has.
abbrev pub remote_id : ℕ → ℕ → ℕ → ServiceId
remote_id impl to_string address = record { owner = impl; id = address; to_string = to_string }

module _ {ℓ} {C : Type ℓ} (remote : ℕ → ServiceId) where
  -- `find_connection`: the first connection with the identity.
  unfoldable pub find_connection : ServiceId → List (Peer C) → Option (Peer C)
  find_connection id [] = none
  find_connection id (c ∷ cs) =
      if same_id id (remote c.address) then some c else find_connection id cs

  -- `connections.erase(std::remove_if(…))` by identity.
  unfoldable pub erase : ServiceId → List (Peer C) → List (Peer C)
  erase id [] = []
  erase id (c ∷ cs) = if same_id (remote c.address) id then erase id cs else c ∷ erase id cs

  -- The loop of `publish`.
  unfoldable pub write_each : (ℕ → Effect) → List (Peer C) → List Effect
  write_each write [] = []
  write_each write (c ∷ cs) = write c.address ∷ write_each write cs

  -- The loop of `publish_ex`.
  unfoldable pub write_except : (ℕ → Effect) → List ServiceId → List (Peer C) → List Effect
  write_except write ids [] = []
  write_except write ids (c ∷ cs) =
      if contains_id ids (remote c.address)
      then write_except write ids cs
      else write c.address ∷ write_except write ids cs

  -- What is written for one identity of `send`.
  unfoldable pub write_found : (ℕ → Effect) → Option (Peer C) → List Effect
  write_found write none = []
  write_found write (some c) = write c.address ∷ []

  -- The loop of `send`.
  unfoldable pub write_to : (ℕ → Effect) → List ServiceId → List (Peer C) → List Effect
  unfolding write_found
  write_to write [] cs = []
  write_to write (id ∷ ids) cs = write_found write (find_connection id cs) ++ write_to write ids cs

abbrev pub addresses {ℓ} : {C : Type ℓ} → List (Peer C) → List ℕ
addresses [] = []
addresses (c ∷ cs) = c.address ∷ addresses cs

-- The connection at an address is replaced by what a handler of it leaves.
unfoldable pub replace {ℓ} : {C : Type ℓ} → ℕ → C → List (Peer C) → List (Peer C)
replace address connection [] = []
replace address connection (c ∷ cs) =
    if c.address == address
    then record c { connection = connection } ∷ cs
    else c ∷ replace address connection cs

-- The connection whose handler runs.
unfoldable pub at {ℓ} : {C : Type ℓ} → ℕ → List (Peer C) → Option (Peer C)
at address [] = none
at address (c ∷ cs) = if c.address == address then some c else at address cs
