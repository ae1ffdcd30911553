-- ===== src/Tcp/Server/Invariant.antt =====
-- Memory safety of src/src/tcp/server/create.cpp: the bounds of reads, and the connections that are about
-- to be destroyed.
pub mod Counting
pub mod Preservation
use nil_service.Common.{
  ℕ, zero, suc, ◌+◌, ◌≤◌, ◌<◌, ◌≡◌, ◌≢◌, ◌⊎◌, inl, inr, refl, sym, ap, ◌∙◌, Bool, true, false,
  Option, none, some, List, [], ◌∷◌, ◌++◌, if◌then◌else◌, ◌==◌, ==→eq, arith, Bool-cases, u64_mod,
  append_assoc, append-nil, Option-cases,
}
use nil_service.Codec.{Endian}
use nil_service.Stream.{Signal, connected, disconnected, message}
use nil_service.Service.{ServiceId, same_id, Effect, Handlers, run_all}
use nil_service.Service.Peers.{Peer, remote_id, erase, replace, at, addresses}
use nil_service.Service.Peers.Delivery.{Differs, Distinct, erase-Distinct, same_id-remote}
use nil_service.Service.Ident.{same_id_iff}
use nil_service.Tcp.Connection.Bounds
use nil_service.Tcp.Connection.{Connection, Completion, closed, new, run, complete}
use nil_service.Tcp.Connection.Disconnects.{disconnects, closed_reading, disconnects-complete}
use nil_service.Tcp.Connection.Bounds.{FitsCompletion, complete-IsValid}
use nil_service.Tcp.Connection.Refinement
use nil_service.Tcp.Connection.Writing.{run-IsValid}
use nil_service.Tcp.Server.{
  Server, Task, ready, publish, publish_ex, send, disconnect, user, to_string_remote, remote, post,
  on_signal, accepted, read, read_at, run_task, turn, poll, stop, restart, create, Event, posts,
  turns, polls, stops, restarts, accepts, reads, step,
}

-- Every connection of the list satisfies its own invariant.
abbrev pub Buffered : ℕ → List (Peer Connection) → Type 0
Buffered limit [] = Unit
Buffered limit (c ∷ cs) = Bounds.IsValid limit c.connection × Buffered limit cs

-- How many connections at an address have stopped reading.
abbrev pub closed_at : ℕ → List (Peer Connection) → ℕ
closed_at b [] = 0
closed_at b (c ∷ cs) =
    (if c.address == b then closed_reading c.connection.reading else 0) + closed_at b cs

-- How many posted tasks disconnect the connection at an address.
abbrev pub pending : ℕ → ℕ → List Task → ℕ
pending impl b [] = 0
pending impl b (disconnect id ∷ ts) =
    (if same_id id (remote_id impl to_string_remote b) then 1 else 0) + pending impl b ts
pending impl b (ready ∷ ts) = pending impl b ts
pending impl b (publish msg ∷ ts) = pending impl b ts
pending impl b (publish_ex ids msg ∷ ts) = pending impl b ts
pending impl b (send ids msg ∷ ts) = pending impl b ts
pending impl b (user f ∷ ts) = pending impl b ts

-- The disconnects among the tasks are those of the connections that have stopped reading.
abbrev pub Owes : ℕ → List Task → List (Peer Connection) → Type 0
Owes impl ts cs = (b : ℕ) → pending impl b ts ≡ closed_at b cs

pub record IsSound (buffer : ℕ) (cs : List (Peer Connection)) : Type 0 where
  pub representable : buffer + 8 < u64_mod
  pub distinct : Distinct (addresses cs)
  pub buffered : Buffered buffer cs

pub record IsValid (s : Server) : Type 0 where
  pub sound : IsSound s.buffer s.connections
  pub owed : Owes s.impl s.posted s.connections

-- What the environment may do: sockets come at fresh addresses, reads end as they may, only the
-- service itself posts its own tasks, and a restart is allowed here while there is no connection.
abbrev pub IsRequest : Task → Type 0
IsRequest ready = ⊥
IsRequest (disconnect id) = ⊥
IsRequest (publish msg) = Unit
IsRequest (publish_ex ids msg) = Unit
IsRequest (send ids msg) = Unit
IsRequest (user f) = Unit

abbrev pub FitsPeer : Option (Peer Connection) → Completion → Type 0
FitsPeer none result = Unit
FitsPeer (some c) result = Bounds.FitsCompletion c.connection.reading result

abbrev pub FitsEvent : Event → Server → Type 0
FitsEvent (posts task) s = IsRequest task
FitsEvent turns s = Unit
FitsEvent polls s = Unit
FitsEvent stops s = Unit
FitsEvent restarts s = s.connections ≡ []
FitsEvent (accepts none) s = Unit
FitsEvent (accepts (some address)) s = Differs address (addresses s.connections)
FitsEvent (reads address result) s = FitsPeer (at address s.connections) result

abbrev pub FitsEvents : Endian → List Event → Server → Type 0
FitsEvents e [] s = Unit
FitsEvents e (v ∷ vs) s = FitsEvent v s × FitsEvents e vs (step e v s).0
