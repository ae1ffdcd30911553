-- ===== src/Tcp/Exchange/Written.antt =====
-- What writes of one payload put on the streams to the connections of a server.
use nil_service.Common.{
  ℕ, zero, suc, ◌+◌, ◌≡◌, refl, ap, ap₂, sym, ◌∙◌, true, false, none, List, [], ◌∷◌, ◌++◌, ◌==◌,
  arith, append_assoc, flatten, Bytes, Bool-cases, if-true, if_both, Option-cases, ==→eq, ==-self,
  inl, inr,
}
use nil_service.Codec.{Endian}
use nil_service.Service.{ServiceId, same_id, contains_id, Effect, called, sent}
use nil_service.Service.Ident.{same_id_iff}
use nil_service.Service.Peers.{
  Peer, remote_id, find_connection, write_each, write_except, write_found, write_to, at, erase,
  addresses,
}
use nil_service.Service.Peers.Delivery.{writes_of, occurs, at-erase}
use nil_service.Stream.{frames}
use nil_service.Tcp.Connection.{offered}
use nil_service.Tcp.Exchange.{stream_to, stream_to-append, offered-frame}

-- So many copies.
abbrev pub copies {ℓ} : {A : Type ℓ} → ℕ → A → List A
copies zero x = []
copies (suc n) x = x ∷ copies n x

-- Every effect is a write of the payload.
abbrev pub Sends : Bytes → List Effect → Type 0
Sends payload [] = Unit
Sends payload (called call ∷ out) = ⊥
Sends payload (sent a bytes ∷ out) = (bytes ≡ payload) × Sends payload out

pub copies-zero {ℓ} : {A : Type ℓ} (n : ℕ) (x : A) → copies n x ≡ copies (0 + n) x
copies-zero n x = ap (λ k. copies k x) (let same : n ≡ 0 + n = omega arith in same)

pub copies-suc {ℓ} : {A : Type ℓ} (n : ℕ) (x : A) → x ∷ copies n x ≡ copies (1 + n) x
copies-suc n x = ap (λ k. copies k x) (let same : suc n ≡ 1 + n = omega arith in same)

pub stream_to-Sends :
    (b : ℕ) (payload : Bytes) (out : List Effect)
    → Sends payload out
    → stream_to b out ≡ flatten (copies (writes_of b out) payload)
stream_to-Sends b payload [] h = refl
stream_to-Sends b payload (called call ∷ out) h = absurd h
stream_to-Sends b payload (sent a bytes ∷ out) h = elim (Bool-cases (a == b)) [
  | inl q ↦ rw q (
      ap₂ ◌++◌ h.0 (stream_to-Sends b payload out h.1)
      ∙ ap flatten (copies-suc (writes_of b out) payload))
  | inr q ↦
      rw q (stream_to-Sends b payload out h.1 ∙ ap flatten (copies-zero (writes_of b out) payload))
]

module _ {ℓ} {C : Type ℓ} (f : ℕ → ServiceId) (payload : Bytes) where
  pub write_each-Sends :
      (cs : List (Peer C)) → Sends payload (write_each f (λ a. sent a payload) cs)
  unfolding write_each
  write_each-Sends [] = tt
  write_each-Sends (c ∷ cs) = (refl, write_each-Sends cs)

  pub write_except-Sends :
      (ids : List ServiceId) (cs : List (Peer C))
      → Sends payload (write_except f (λ a. sent a payload) ids cs)
  unfolding write_except
  write_except-Sends ids [] = tt
  write_except-Sends ids (c ∷ cs) =
      if_both (Sends payload) (contains_id ids (f c.address)) _ _ (write_except-Sends ids cs)
        (refl, write_except-Sends ids cs)

  pub write_to-Sends :
      (ids : List ServiceId) (cs : List (Peer C))
      → Sends payload (write_to f (λ a. sent a payload) ids cs)
  unfolding write_to write_found
  write_to-Sends [] cs = tt
  write_to-Sends (id ∷ ids) cs = elim (Option-cases (find_connection f id cs)) [
    | inl q ↦ rw q (write_to-Sends ids cs)
    | inr (c, q) ↦ rw q (refl, write_to-Sends ids cs)
  ]

pub frames-append : (xs ys : List Bytes) → frames (xs ++ ys) ≡ frames xs ++ frames ys
frames-append [] ys = refl
frames-append (m ∷ xs) ys = rw (frames-append xs ys, append_assoc) refl

pub copies-frames :
    (e : Endian) (n : ℕ) (msg : Bytes) → flatten (copies n (offered e msg)) ≡ frames (copies n msg)
copies-frames e zero msg = refl
copies-frames e (suc n) msg = ap₂ ◌++◌ (offered-frame e msg) (copies-frames e n msg)

-- So many writes of one message, in front of the rest.
pub written-frames :
    (e : Endian) (b n : ℕ) (msg : Bytes) (out more : List Effect) (ms : List Bytes)
    → Sends (offered e msg) out
    → writes_of b out ≡ n
    → stream_to b more ≡ frames ms
    → stream_to b (out ++ more) ≡ frames (copies n msg ++ ms)
written-frames e b n msg out more ms h count same =
    stream_to-append b out more
    ∙ ap₂ ◌++◌
        (stream_to-Sends b (offered e msg) out h
          ∙ ap (λ k. flatten (copies k (offered e msg))) count
          ∙ copies-frames e n msg)
        same
    ∙ sym (frames-append (copies n msg) ms)

module _ {ℓ} {C : Type ℓ} (impl to_string : ℕ) (id : ServiceId) where
  pub at-erase_same :
      (b : ℕ) (cs : List (Peer C))
      → same_id (remote_id impl to_string b) id ≡ true
      → at b (erase (remote_id impl to_string) id cs) ≡ none
  at-erase_same b cs h =
      ap (λ i. at b (erase (remote_id impl to_string) i cs))
        (sym ((same_id_iff (remote_id impl to_string b) id).0 h))
      ∙ at-erase impl to_string b b cs
      ∙ if-true (b == b) none (at b cs) (==-self b)

  -- The erasure of another identity leaves a connection where it is.
  pub at-erase_other :
      (b : ℕ) (cs : List (Peer C))
      → same_id (remote_id impl to_string b) id ≡ false
      → at b (erase (remote_id impl to_string) id cs) ≡ at b cs
  unfolding at erase
  at-erase_other b [] h = refl
  at-erase_other b (c ∷ cs) h = elim (Bool-cases (c.address == b)) [
    | inl q ↦
        rw (q, ap (λ a. same_id (remote_id impl to_string a) id) (==→eq c.address b q) ∙ h, at, q)
          refl
    | inr q ↦ ground (arith, at-erase_other b cs h)
  ]

pub none-written :
    (b : ℕ) (payload : Bytes) (out : List Effect)
    → Sends payload out
    → writes_of b out ≡ 0
    → stream_to b out ≡ []
none-written b payload out h count =
    stream_to-Sends b payload out h ∙ ap (λ k. flatten (copies k payload)) count

module _ {ℓ} {C : Type ℓ} where
  pub occurs-none : (b : ℕ) (cs : List (Peer C)) → at b cs ≡ none → occurs b (addresses cs) ≡ 0
  unfolding at
  occurs-none b [] q = refl
  occurs-none b (c ∷ cs) q = ground (arith, occurs-none b cs)

  pub at-erase_absent :
      (f : ℕ → ServiceId) (id : ServiceId) (b : ℕ) (cs : List (Peer C))
      → at b cs ≡ none
      → at b (erase f id cs) ≡ none
  unfolding at erase
  at-erase_absent f id b [] q = refl
  at-erase_absent f id b (c ∷ cs) q = ground (arith, at-erase_absent f id b cs)
