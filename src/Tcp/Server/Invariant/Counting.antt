-- ===== src/Tcp/Server/Invariant/Counting.antt =====
-- How the loops and handlers of src/src/tcp/server/create.cpp change the counts of Tcp.Server.Invariant.
use nil_service.Common.{
  ℕ, ◌+◌, ◌≤◌, ◌≡◌, ◌≢◌, inl, inr, refl, sym, ap, ◌∙◌, some, List, [], ◌∷◌, ◌++◌, if◌then◌else◌,
  ◌==◌, arith, Bool-cases, append_assoc, append-nil,
}
use nil_service.Stream.{Signal, connected, disconnected, message}
use nil_service.Service.{ServiceId, same_id, run_all}
use nil_service.Service.Peers.{Peer, remote_id, erase, replace, at, addresses}
use nil_service.Service.Peers.Delivery.{Differs, Distinct, same_id-remote}
use nil_service.Service.Ident.{same_id_iff}
use nil_service.Tcp.Connection.Bounds
use nil_service.Tcp.Connection.{Connection}
use nil_service.Tcp.Connection.Disconnects.{disconnects, closed_reading}
use nil_service.Tcp.Connection.Bounds.{FitsCompletion, complete-IsValid}
use nil_service.Tcp.Server.{
  Server, Task, ready, publish, publish_ex, send, disconnect, user, to_string_remote, remote, post,
  on_signal,
}
use nil_service.Tcp.Server.Invariant.{Buffered, closed_at, pending}

pub pending-append :
    (impl b : ℕ) (xs ys : List Task)
    → pending impl b (xs ++ ys) ≡ pending impl b xs + pending impl b ys
pending-append impl b [] ys = omega arith
pending-append impl b (disconnect id ∷ xs) ys = omega (arith, pending-append impl b xs ys)
pending-append impl b (ready ∷ xs) ys = pending-append impl b xs ys
pending-append impl b (publish msg ∷ xs) ys = pending-append impl b xs ys
pending-append impl b (publish_ex ids msg ∷ xs) ys = pending-append impl b xs ys
pending-append impl b (send ids msg ∷ xs) ys = pending-append impl b xs ys
pending-append impl b (user f ∷ xs) ys = pending-append impl b xs ys

pub closed_at-absent :
    (b : ℕ) (cs : List (Peer Connection)) → Differs b (addresses cs) → closed_at b cs ≡ 0
closed_at-absent b [] h = refl
closed_at-absent b (c ∷ cs) h = ground (arith, closed_at-absent b cs h.1)

pub closed_at-append :
    (b : ℕ) (xs ys : List (Peer Connection))
    → closed_at b (xs ++ ys) ≡ closed_at b xs + closed_at b ys
closed_at-append b [] ys = omega arith
closed_at-append b (c ∷ xs) ys = omega (arith, closed_at-append b xs ys)

pub closed_reading-le : (c : Connection) → closed_reading c.reading ≤ 1
closed_reading-le c = ground arith

pub closed_at-le :
    (b : ℕ) (cs : List (Peer Connection)) → Distinct (addresses cs) → closed_at b cs ≤ 1
closed_at-le b [] h = omega arith
closed_at-le b (c ∷ cs) h =
    ground (arith, closed_at-le b cs h.1, closed_at-absent b cs, closed_reading-le c.connection)

pub closed_at-erase :
    (impl b : ℕ) (id : ServiceId) (cs : List (Peer Connection))
    → closed_at b (erase (remote_id impl to_string_remote) id cs)
      ≡ (if same_id id (remote_id impl to_string_remote b) then 0 else closed_at b cs)
unfolding erase
closed_at-erase impl b id [] = ground arith
closed_at-erase impl b id (c ∷ cs) = ground (
  arith,
  closed_at-erase impl b id cs,
  same_id_iff (remote_id impl to_string_remote c.address) id,
  same_id_iff id (remote_id impl to_string_remote b),
)

pub closed_at-replace :
    (a b : ℕ) (c : Peer Connection) (c' : Connection) (cs : List (Peer Connection))
    → at a cs ≡ some c
    → closed_at b (replace a c' cs) + (if a == b then closed_reading c.connection.reading else 0)
      ≡ closed_at b cs + (if a == b then closed_reading c'.reading else 0)
unfolding at replace
closed_at-replace a b c c' [] h = cc
closed_at-replace a b c c' (d ∷ cs) h = ground (arith, closed_at-replace a b c c' cs)

pub addresses-replace :
    (a : ℕ) (c' : Connection) (cs : List (Peer Connection))
    → addresses (replace a c' cs) ≡ addresses cs
unfolding replace
addresses-replace a c' [] = refl
addresses-replace a c' (d ∷ cs) = ground (arith, addresses-replace a c' cs)

pub Buffered-replace :
    (limit a : ℕ) (c' : Connection) (cs : List (Peer Connection))
    → Buffered limit cs
    → Bounds.IsValid limit c'
    → Buffered limit (replace a c' cs)
unfolding replace
Buffered-replace limit a c' [] h v = tt
Buffered-replace limit a c' (d ∷ cs) h v = elim (Bool-cases (d.address == a)) [
  | inl e ↦ rw (e, replace) (v, h.1)
  | inr e ↦ rw (e, replace) (h.0, Buffered-replace limit a c' cs h.1 v)
]

pub Buffered-append :
    (limit : ℕ) (xs ys : List (Peer Connection))
    → Buffered limit xs
    → Buffered limit ys
    → Buffered limit (xs ++ ys)
Buffered-append limit [] ys h k = k
Buffered-append limit (c ∷ xs) ys h k = (h.0, Buffered-append limit xs ys h.1 k)

pub Buffered-erase :
    (limit : ℕ) (f : ℕ → ServiceId) (id : ServiceId) (cs : List (Peer Connection))
    → Buffered limit cs
    → Buffered limit (erase f id cs)
unfolding erase
Buffered-erase limit f id [] h = tt
Buffered-erase limit f id (c ∷ cs) h = elim (Bool-cases (same_id (f c.address) id)) [
  | inl e ↦ rw (e, erase) (Buffered-erase limit f id cs h.1)
  | inr e ↦ rw (e, erase) (h.0, Buffered-erase limit f id cs h.1)
]

pub Buffered-at :
    (limit a : ℕ) (c : Peer Connection) (cs : List (Peer Connection))
    → Buffered limit cs
    → at a cs ≡ some c
    → Bounds.IsValid limit c.connection
unfolding at
Buffered-at limit a c [] h q = absurd (cc)
Buffered-at limit a c (d ∷ cs) h q = elim (Bool-cases (d.address == a)) [
  | inl e ↦ let same : d ≡ c = ground arith in rw (← same) h.0
  | inr e ↦ Buffered-at limit a c cs h.1 (ground arith)
]

pub Differs-append : (a b : ℕ) (xs : List ℕ) → Differs a xs → a ≢ b → Differs a (xs ++ b ∷ [])
Differs-append a b [] h k = (k, tt)
Differs-append a b (x ∷ xs) h k = (h.0, Differs-append a b xs h.1 k)

pub Distinct-append : (b : ℕ) (xs : List ℕ) → Distinct xs → Differs b xs → Distinct (xs ++ b ∷ [])
Distinct-append b [] h k = (tt, tt)
Distinct-append b (x ∷ xs) h k =
    (Differs-append x b xs h.0 (λ e. k.0 (sym e)), Distinct-append b xs h.1 k.1)

pub addresses-append :
    (xs ys : List (Peer Connection)) → addresses (xs ++ ys) ≡ addresses xs ++ addresses ys
addresses-append [] ys = refl
addresses-append (c ∷ xs) ys = ap (◌∷◌ c.address) (addresses-append xs ys)

-- The tasks that the signals of the connection at an address post.
abbrev pub asked : Server → ℕ → List Signal → List Task
asked s a [] = []
asked s a (disconnected ∷ out) = disconnect (remote s a) ∷ asked s a out
asked s a (connected ∷ out) = asked s a out
asked s a (message payload ∷ out) = asked s a out

pub pending-asked :
    (s : Server) (a b : ℕ) (out : List Signal)
    → pending s.impl b (asked s a out) ≡ (if a == b then disconnects out else 0)
pending-asked s a b [] = ground arith
pending-asked s a b (disconnected ∷ out) =
    rw (same_id-remote s.impl to_string_remote a b, pending-asked s a b out) (ground arith)
pending-asked s a b (connected ∷ out) = pending-asked s a b out
pending-asked s a b (message payload ∷ out) = pending-asked s a b out

pub on_signal-asked :
    (a : ℕ) (out : List Signal) (s : Server)
    → (run_all (on_signal a) out s).0 ≡ record s { posted = s.posted ++ asked s a out }
unfolding run_all on_signal
on_signal-asked a [] s = ap (λ ts. record s { posted = ts }) (sym (append-nil s.posted))
on_signal-asked a (connected ∷ out) s = on_signal-asked a out s
on_signal-asked a (message payload ∷ out) s = on_signal-asked a out s
on_signal-asked a (disconnected ∷ out) s =
    on_signal-asked a out (post (disconnect (remote s a)) s)
    ∙ ap (λ ts. record s { posted = ts })
        (append_assoc s.posted (disconnect (remote s a) ∷ []) (asked s a out))
