-- ===== src/Service/Peers/Delivery.antt =====
-- Which connections the loops of Service.Peers reach.
use nil_service.Common.{
  ℕ, ◌≡◌, ◌≢◌, refl, none, some, List, [], ◌∷◌, ◌++◌, if◌then◌else◌, ◌==◌, arith, ◌+◌, Bytes,
}
use nil_service.Service.{ServiceId, same_id, contains_id, Effect, called, sent}
use nil_service.Service.Ident.{same_id_iff, same_id_self}
use nil_service.Service.MessageHandler.{is_some}
use nil_service.Service.Peers.{
  Peer, remote_id, find_connection, erase, write_each, write_except, write_to, write_found,
  addresses, replace, at,
}

-- No two connections have one address.
abbrev pub Differs : ℕ → List ℕ → Type 0
Differs a [] = Unit
Differs a (b ∷ bs) = (a ≢ b) × Differs a bs

abbrev pub Distinct : List ℕ → Type 0
Distinct [] = Unit
Distinct (a ∷ bs) = Differs a bs × Distinct bs

module _ (impl to_string : ℕ) where
  pub same_id-remote :
      (a b : ℕ) → same_id (remote_id impl to_string a) (remote_id impl to_string b) ≡ (a == b)
  unfolding same_id
  same_id-remote a b = ground arith

module _ {ℓ} {C : Type ℓ} (impl to_string : ℕ) where
  -- The search by identity is the search by address.
  pub find_connection-at :
      (a : ℕ) (cs : List (Peer C))
      → find_connection (remote_id impl to_string) (remote_id impl to_string a) cs ≡ at a cs
  unfolding find_connection at
  find_connection-at a [] = refl
  find_connection-at a (c ∷ cs) =
      rw (same_id-remote impl to_string a c.address, find_connection-at a cs) (ground arith)

  -- After the erasure of an identity from a list of connections, none is found at its address, and
  -- at every other address what was found there before.
  pub at-erase :
      (a b : ℕ) (cs : List (Peer C))
      → at b (erase (remote_id impl to_string) (remote_id impl to_string a) cs)
        ≡ (if a == b then none else at b cs)
  unfolding erase at
  at-erase a b [] = ground arith
  at-erase a b (c ∷ cs) =
      rw (same_id-remote impl to_string c.address a) (ground (arith, at-erase a b cs))

module _ {ℓ} {C : Type ℓ} (f : ℕ → ServiceId) (id : ServiceId) where
  erase-Differs :
      (b : ℕ) (cs : List (Peer C))
      → Differs b (addresses cs)
      → Differs b (addresses (erase f id cs))
  unfolding erase
  erase-Differs b [] h = tt
  erase-Differs b (c ∷ cs) h = ground (arith, erase-Differs b cs h.1)

  pub erase-Distinct :
      (cs : List (Peer C)) → Distinct (addresses cs) → Distinct (addresses (erase f id cs))
  unfolding erase
  erase-Distinct [] h = tt
  erase-Distinct (c ∷ cs) h = ground (arith, erase-Distinct cs h.1, erase-Differs c.address cs h.0)

-- How often a payload is written to an address.
abbrev pub writes_of : ℕ → List Effect → ℕ
writes_of b [] = 0
writes_of b (called call ∷ out) = writes_of b out
writes_of b (sent a payload ∷ out) = (if a == b then 1 else 0) + writes_of b out

abbrev pub occurs : ℕ → List ℕ → ℕ
occurs b [] = 0
occurs b (a ∷ bs) = (if a == b then 1 else 0) + occurs b bs

-- How often an identity is named.
unfoldable pub times : ServiceId → List ServiceId → ℕ
times id [] = 0
times id (i ∷ ids) = (if same_id i id then 1 else 0) + times id ids

pub writes_of-append :
    (b : ℕ) (xs ys : List Effect) → writes_of b (xs ++ ys) ≡ writes_of b xs + writes_of b ys
writes_of-append b [] ys = omega arith
writes_of-append b (called call ∷ xs) ys = writes_of-append b xs ys
writes_of-append b (sent a payload ∷ xs) ys = omega (arith, writes_of-append b xs ys)

module _ {ℓ} {C : Type ℓ} (impl to_string : ℕ) (payload : Bytes) where
  pub writes_of-write_each :
      (b : ℕ) (cs : List (Peer C))
      → writes_of b (write_each (remote_id impl to_string) (λ a. sent a payload) cs)
        ≡ occurs b (addresses cs)
  unfolding write_each
  writes_of-write_each b [] = refl
  writes_of-write_each b (c ∷ cs) = omega (arith, writes_of-write_each b cs)

  pub writes_of-write_except :
      (b : ℕ) (ids : List ServiceId) (cs : List (Peer C))
      → writes_of b (write_except (remote_id impl to_string) (λ a. sent a payload) ids cs)
        ≡ (if contains_id ids (remote_id impl to_string b) then 0 else occurs b (addresses cs))
  unfolding write_except
  writes_of-write_except b ids [] = ground arith
  writes_of-write_except b ids (c ∷ cs) = ground (arith, writes_of-write_except b ids cs)

  writes_of-found :
      (b : ℕ) (id : ServiceId) (cs : List (Peer C))
      → writes_of b (
          write_found
            (remote_id impl to_string)
            (λ a. sent a payload)
            (find_connection (remote_id impl to_string) id cs))
        ≡ (if same_id id (remote_id impl to_string b)
            then (if is_some (at b cs) then 1 else 0)
            else 0)
  unfolding find_connection write_found at
  writes_of-found b id [] = ground arith
  writes_of-found b id (c ∷ cs) = ground (
    arith,
    writes_of-found b id cs,
    (same_id_iff id (remote_id impl to_string c.address)).0,
    (same_id_iff id (remote_id impl to_string b)).0,
    same_id_self id,
  )

  pub writes_of-write_to :
      (b : ℕ) (ids : List ServiceId) (cs : List (Peer C))
      → writes_of b (write_to (remote_id impl to_string) (λ a. sent a payload) ids cs)
        ≡ (if is_some (at b cs) then times (remote_id impl to_string b) ids else 0)
  unfolding write_to times
  writes_of-write_to b [] cs = ground arith
  writes_of-write_to b (id ∷ ids) cs =
      rw
        (
          writes_of-append b
              (write_found (remote_id impl to_string) (λ a. sent a payload)
                (find_connection (remote_id impl to_string) id cs))
              (write_to (remote_id impl to_string) (λ a. sent a payload) ids cs),
          writes_of-found b id cs,
          writes_of-write_to b ids cs,
        )
        (ground arith)

occurs-absent : (b : ℕ) (bs : List ℕ) → Differs b bs → occurs b bs ≡ 0
occurs-absent b [] h = refl
occurs-absent b (a ∷ bs) h = ground (arith, occurs-absent b bs h.1)

module _ {ℓ} {C : Type ℓ} where
  -- A connection that is in a list without repetition is in it once.
  pub occurs-at :
      (b : ℕ) (c : Peer C) (cs : List (Peer C))
      → Distinct (addresses cs)
      → at b cs ≡ some c
      → occurs b (addresses cs) ≡ 1
  unfolding at
  occurs-at b c [] d q = absurd (cc)
  occurs-at b c (x ∷ cs) d q = ground (arith, occurs-at b c cs d.1, occurs-absent b (addresses cs))

  pub at-replace :
      (a : ℕ) (c : Peer C) (c' : C) (cs : List (Peer C))
      → at a cs ≡ some c
      → at a (replace a c' cs) ≡ some (record c { connection = c' })
  unfolding at replace
  at-replace a c c' [] q = absurd (cc)
  at-replace a c c' (x ∷ cs) q = ground (arith, at-replace a c c' cs)

  pub at_self : (a : ℕ) (c : Peer C) (cs : List (Peer C)) → at a cs ≡ some c → c.address ≡ a
  unfolding at
  at_self a c [] q = absurd (cc)
  at_self a c (x ∷ cs) q = ground (arith, at_self a c cs)
