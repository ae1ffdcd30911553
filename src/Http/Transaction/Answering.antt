-- ===== src/Http/Transaction/Answering.antt =====
-- One request of src/src/http/server/create.cpp: what is answered, and how it ends.
use nil_service.Common.{
  ℕ, ◌+◌, ◌≤◌, ◌≡◌, ◌≢◌, refl, Bool, true, false, List, [], ◌∷◌, arith, length, length-append,
  if_both, if_each, All, All-append,
}
use nil_service.Http.Server
use nil_service.Http.Server.{Response, Request, Server, Answers, Outcome, responded, upgrading}
use nil_service.Http.Transaction.{
  Socket, up, shut, closed, moved, Answer, written, handshake, Transaction, new, run, close,
  shutdown, write_response, process_outcome, process_request, Event, read_failed, write_failed,
  wrote, expired, was_read, read_end, write_end, deadline_end, step, run_events,
}

-- The read that is outstanding stands for an answer that is still to come.
abbrev pub to_come : Bool → ℕ
to_come true = 1
to_come false = 0

-- While the socket is up the deadline runs; a socket that is shut down has no deadline left.
abbrev pub IsTimed : Transaction → Type 0
IsTimed t = t.socket ≡ up → t.deadline ≡ true

-- The content length of a response is that of its body.
abbrev pub IsMeasured : Answer → Type 0
IsMeasured (written response n) = n ≡ length response.body
IsMeasured (handshake key) = Unit

-- What a step keeps: the answers given and to come are not more, the socket is timed, and the responses
-- are measured.
abbrev pub KeepsStep : Transaction → Transaction × List Answer → Type 0
KeepsStep t r =
    (length r.1 + to_come r.0.reading ≤ to_come t.reading) × IsTimed r.0 × All IsMeasured r.1

process_outcome-KeepsStep :
    (o : Outcome) (t : Transaction)
    → IsTimed t
    → t.reading ≡ true
    → KeepsStep t (process_outcome o (record t { reading = false }))
unfolding process_outcome write_response
process_outcome-KeepsStep (responded response) t timed reading =
    (rw reading (omega arith), timed, (refl, tt))
process_outcome-KeepsStep (upgrading key) t timed reading =
    (rw reading (omega arith), λ e. cc, (tt, tt))

shutdown-ne : (s : Socket) → shutdown s ≢ up
shutdown-ne up = cc
shutdown-ne shut = cc
shutdown-ne closed = cc
shutdown-ne moved = cc

close-ne : (s : Socket) → close s ≢ up
close-ne up = cc
close-ne shut = cc
close-ne closed = cc
close-ne moved = cc

step-KeepsStep : (x : Event) (t : Transaction) → IsTimed t → KeepsStep t (step x t)
unfolding step read_end write_end deadline_end process_request
step-KeepsStep read_failed t timed = (omega arith, timed, tt)
step-KeepsStep write_failed t timed = (omega arith, timed, tt)
step-KeepsStep wrote t timed =
    if_both (λ u. KeepsStep t (u, [])) t.writing
      (record t { writing = false; deadline = false; socket = shutdown t.socket }) t
      (omega arith, λ e. absurd (shutdown-ne t.socket e), tt) (omega arith, timed, tt)
step-KeepsStep expired t timed =
    if_both (λ u. KeepsStep t (u, [])) t.deadline
      (record t { deadline = false; socket = close t.socket }) t
      (omega arith, λ e. absurd (close-ne t.socket e), tt) (omega arith, timed, tt)
step-KeepsStep (was_read answer request s) t timed =
    if_each (KeepsStep t) t.reading
      (process_request answer request s (record t { reading = false })) (t, [])
      (process_outcome-KeepsStep (Server.process_request answer request s) t timed)
      (λ e. (omega arith, timed, tt))

run_events-KeepsStep :
    (xs : List Event) (t : Transaction) → IsTimed t → KeepsStep t (run_events xs t)
unfolding run_events
run_events-KeepsStep [] t timed = (omega arith, timed, tt)
run_events-KeepsStep (x ∷ xs) t timed =
    let (fewer, timed', measured) = step-KeepsStep x t timed in
    let (fewer', timed'', measured') = run_events-KeepsStep xs (step x t).0 timed' in
    (
      omega (arith, length-append (step x t).1 (run_events xs (step x t).0).1),
      timed'',
      All-append IsMeasured (step x t).1 (run_events xs (step x t).0).1 measured measured',
    )

-- However the operations of a transaction end: it answers at most once, by the write of a response or by
-- a handshake, the content length of a response is that of its body, and the deadline runs as long as
-- the socket is up.
pub run_events-answer :
    (xs : List Event)
    → (length (run_events xs (run new)).1 ≤ 1)
      × All IsMeasured (run_events xs (run new)).1
      × IsTimed (run_events xs (run new)).0
unfolding run new
run_events-answer xs =
    let (fewer, timed, measured) = run_events-KeepsStep xs (run new) (λ e. refl) in
    (omega arith, measured, timed)
