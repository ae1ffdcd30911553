-- ===== src/Tcp/Client/Waiting.antt =====
-- src/src/tcp/client/create.cpp: what the client waits for, and its tasks.
use nil_service.Common.{
  ℕ, suc, ◌+◌, ◌<◌, ◌≡◌, refl, sym, ◌∙◌, Option, none, some, List, [], ◌∷◌, if◌then◌else◌, arith,
  if_both, ==-self,
}
use mathlib.Core.Path.{subst}
use nil_service.Codec.{Endian}
use nil_service.Service.{Effect, run_all}
use nil_service.Service.Peers.{Peer}
use nil_service.Tcp.Connection.{Connection, Completion}
use nil_service.Tcp.Connection.Disconnects.{closed_reading}
use nil_service.Tcp.Connection.Bounds.{FitsCompletion}
use nil_service.Tcp.Client.{
  Client, Task, publish, publish_ex, send, disconnect, user, reconnect, disconnect_at, run_task,
  turn_of, poll, Event, posts, turns, polls, stops, restarts, expires, connects, reads,
}

abbrev pub present : Option (Peer Connection) → ℕ
present none = 0
present (some c) = 1

abbrev pub closing : Option (Peer Connection) → ℕ
closing none = 0
closing (some c) = closed_reading c.connection.reading

abbrev pub pending : List Task → ℕ
pending [] = 0
pending (disconnect target ∷ ts) = suc (pending ts)
pending (publish msg ∷ ts) = pending ts
pending (publish_ex ids msg ∷ ts) = pending ts
pending (send ids msg ∷ ts) = pending ts
pending (user f ∷ ts) = pending ts

abbrev pub Aimed : Option (Peer Connection) → Task → Type 0
Aimed none task = Unit
Aimed (some c) (disconnect target) = target ≡ c.address
Aimed (some c) (publish msg) = Unit
Aimed (some c) (publish_ex ids msg) = Unit
Aimed (some c) (send ids msg) = Unit
Aimed (some c) (user f) = Unit

abbrev pub AllAimed : Option (Peer Connection) → List Task → Type 0
AllAimed c [] = Unit
AllAimed c (t ∷ ts) = Aimed c t × AllAimed c ts

-- The state, apart from the queue, with the tasks that have yet to run.
pub record IsBusy (s : Client) (ts : List Task) : Type 0 where
  pub one : s.connecting + (if s.waiting then 1 else 0) + present s.connection ≡ 1
  pub owed : pending ts ≡ closing s.connection
  pub aimed : AllAimed s.connection ts

abbrev pub IsValid : Client → Type 0
IsValid s = IsBusy s s.posted

abbrev pub IsRequest : Task → Type 0
IsRequest (disconnect target) = ⊥
IsRequest (publish msg) = Unit
IsRequest (publish_ex ids msg) = Unit
IsRequest (send ids msg) = Unit
IsRequest (user f) = Unit

abbrev pub FitsPeer : Option (Peer Connection) → Completion → Type 0
FitsPeer none result = Unit
FitsPeer (some c) result = FitsCompletion c.connection.reading result

-- What the environment may do. A restart is allowed here while there is no connection.
abbrev pub FitsEvent : Event → Client → Type 0
FitsEvent (posts task) s = IsRequest task
FitsEvent turns s = Unit
FitsEvent polls s = Unit
FitsEvent stops s = Unit
FitsEvent restarts s = s.connection ≡ none
FitsEvent expires s = Unit
FitsEvent (connects socket) s = 0 < s.connecting
FitsEvent (reads result) s = FitsPeer s.connection result

pub AllAimed-none : (ts : List Task) → AllAimed none ts
AllAimed-none [] = tt
AllAimed-none (t ∷ ts) = (tt, AllAimed-none ts)

disconnect_at-IsBusy :
    (target : ℕ) (c : Option (Peer Connection)) (ts : List Task) (s : Client)
    → s.connection ≡ c
    → s.connecting + (if s.waiting then 1 else 0) + present c ≡ 1
    → suc (pending ts) ≡ closing c
    → Aimed c (disconnect target)
    → IsBusy (disconnect_at target c s).0 ts
unfolding disconnect_at reconnect
disconnect_at-IsBusy target none ts s q one owed aimed = absurd (omega arith)
disconnect_at-IsBusy target (some c) ts s q one owed aimed =
    rw (aimed, ==-self c.address)
      (record { one = ground arith; owed = ground arith; aimed = AllAimed-none ts })

run_task-IsBusy :
    (e : Endian) (t : Task) (ts : List Task) (s : Client)
    → IsBusy s (t ∷ ts)
    → IsBusy (run_task e t s).0 ts
unfolding run_task disconnect_at reconnect
run_task-IsBusy e (publish msg) ts s v = record { one = v.one; owed = v.owed; aimed = v.aimed.1 }
run_task-IsBusy e (publish_ex ids msg) ts s v = record {
  one = v.one;
  owed = v.owed;
  aimed = v.aimed.1;
}
run_task-IsBusy e (send ids msg) ts s v = record { one = v.one; owed = v.owed; aimed = v.aimed.1 }
run_task-IsBusy e (user f) ts s v = record { one = v.one; owed = v.owed; aimed = v.aimed.1 }
run_task-IsBusy e (disconnect target) ts s v =
    disconnect_at-IsBusy target s.connection ts s refl v.one v.owed v.aimed.0

run_task-posted : (e : Endian) (t : Task) (s : Client) → (run_task e t s).0.posted ≡ s.posted
unfolding run_task disconnect_at reconnect
run_task-posted e (publish msg) s = refl
run_task-posted e (publish_ex ids msg) s = refl
run_task-posted e (send ids msg) s = refl
run_task-posted e (user f) s = refl
run_task-posted e (disconnect target) s = ground arith

run_all-IsBusy :
    (e : Endian) (ts : List Task) (s : Client)
    → IsBusy s ts
    → IsBusy (run_all (run_task e) ts s).0 [] × ((run_all (run_task e) ts s).0.posted ≡ s.posted)
unfolding run_all
run_all-IsBusy e [] s v = (v, refl)
run_all-IsBusy e (t ∷ ts) s v =
    let rest : IsBusy (run_all (run_task e) ts (run_task e t s).0).0 []
        × ((run_all (run_task e) ts (run_task e t s).0).0.posted ≡ (run_task e t s).0.posted) =
      run_all-IsBusy e ts (run_task e t s).0 (run_task-IsBusy e t ts s v) in
    (rest.0, rest.1 ∙ run_task-posted e t s)

pub poll-IsValid : (e : Endian) (s : Client) → IsValid s → IsValid (poll e s).0
unfolding poll
poll-IsValid e s v =
    let all : IsBusy (run_all (run_task e) s.posted (record s { posted = [] })).0 []
        × ((run_all (run_task e) s.posted (record s { posted = [] })).0.posted ≡ []) =
      run_all-IsBusy e s.posted (record s { posted = [] })
        (record { one = v.one; owed = v.owed; aimed = v.aimed }) in
    if_both (λ (r : Client × List Effect). IsValid r.0) s.stopped _ _ v (rw (all.1) all.0)

pub turn_of-IsValid :
    (e : Endian) (ts : List Task) (s : Client)
    → IsBusy s ts
    → s.posted ≡ ts
    → IsValid (turn_of e ts s).0
unfolding turn_of
turn_of-IsValid e [] s v q = subst (IsBusy s) (sym q) v
turn_of-IsValid e (t ∷ ts) s v q =
    if_both (λ (r : Client × List Effect). IsValid r.0) s.stopped _ _ (subst (IsBusy s) (sym q) v)
      (rw (run_task-posted e t (record s { posted = ts })) (
        run_task-IsBusy e t ts (record s { posted = ts })
          (record { one = v.one; owed = v.owed; aimed = v.aimed })))
