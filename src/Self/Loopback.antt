-- ===== src/Self/Loopback.antt =====
-- src/src/self/create.cpp: what the service hears of what it sends.
use nil_service.Common.{
  ◌≡◌, refl, ap, sym, ◌∙◌, Bool, false, List, [], ◌∷◌, ◌++◌, append_assoc, append-nil, arith, Bytes,
  if◌then◌else◌,
}
use nil_service.Service.Requests.{Request}
use nil_service.Service.{
  ServiceId, Effect, Handlers, invoke_ready, invoke_connect, invoke_message, contains_id, run_all,
}
use nil_service.Self.{
  Task, ready, queued, publish_ex, send, user, SelfService, self_id, contains_self_id, request,
  run_task, emit_self_message, publish_ex_task, send_task, ready_task, poll, restart,
}

-- The requests one after the other.
abbrev pub request_all : List Request → SelfService → SelfService
request_all [] s = s
request_all (r ∷ rs) s = request_all rs (request r s)

-- The payloads that are for a service: all that are published, those published to all but others, and
-- those sent to it.
abbrev pub received : ServiceId → List Request → List Bytes
received id [] = []
received id (Request.publish payload ∷ rs) = payload ∷ received id rs
received id (Request.publish_ex ids payload ∷ rs) =
    (if contains_id ids id then [] else payload ∷ []) ++ received id rs
received id (Request.send ids payload ∷ rs) =
    (if contains_id ids id then payload ∷ [] else []) ++ received id rs

-- The calls of the message handlers for payloads from one peer.
abbrev pub messages : Handlers → ServiceId → List Bytes → List Effect
messages hs id [] = []
messages hs id (payload ∷ payloads) = invoke_message hs id payload ++ messages hs id payloads

-- What a task does to the outside; it changes nothing inside.
said : Task → SelfService → List Effect
said task s = (run_task task s).1

said_all : List Task → SelfService → List Effect
said_all [] s = []
said_all (task ∷ tasks) s = said task s ++ said_all tasks s

run_task-said : (task : Task) (s : SelfService) → run_task task s ≡ (s, said task s)
unfolding said run_task emit_self_message publish_ex_task send_task ready_task
run_task-said ready s = refl
run_task-said (queued msg) s = refl
run_task-said (publish_ex ids msg) s = ground arith
run_task-said (send ids msg) s = ground arith
run_task-said (user f) s = refl

run_all-said :
    (tasks : List Task) (s : SelfService) → run_all run_task tasks s ≡ (s, said_all tasks s)
unfolding run_all said_all
run_all-said [] s = refl
run_all-said (task ∷ tasks) s = rw (run_task-said task s, run_all-said tasks s) refl

-- What has been posted does not matter to a task.
said-posted :
    (task : Task) (ts : List Task) (s : SelfService)
    → said task (record s { posted = ts }) ≡ said task s
unfolding said run_task emit_self_message publish_ex_task send_task ready_task self_id
    contains_self_id
said-posted ready ts s = refl
said-posted (queued msg) ts s = refl
said-posted (publish_ex ids msg) ts s = ground arith
said-posted (send ids msg) ts s = ground arith
said-posted (user f) ts s = refl

said_all-posted :
    (tasks ts : List Task) (s : SelfService)
    → said_all tasks (record s { posted = ts }) ≡ said_all tasks s
unfolding said_all
said_all-posted [] ts s = refl
said_all-posted (task ∷ tasks) ts s = rw (said-posted task ts s, said_all-posted tasks ts s) refl

said_all-append :
    (xs ys : List Task) (s : SelfService) → said_all (xs ++ ys) s ≡ said_all xs s ++ said_all ys s
unfolding said_all
said_all-append [] ys s = refl
said_all-append (task ∷ xs) ys s = rw (said_all-append xs ys s, append_assoc) refl

task_of : Request → Task
task_of (Request.publish payload) = queued payload
task_of (Request.publish_ex ids payload) = publish_ex ids payload
task_of (Request.send ids payload) = send ids payload

tasks_of : List Request → List Task
tasks_of [] = []
tasks_of (r ∷ rs) = task_of r ∷ tasks_of rs

request-task_of :
    (r : Request) (s : SelfService) → request r s ≡ record s { posted = s.posted ++ task_of r ∷ [] }
unfolding request task_of
request-task_of (Request.publish payload) s = refl
request-task_of (Request.publish_ex ids payload) s = refl
request-task_of (Request.send ids payload) s = refl

request_all-tasks_of :
    (rs : List Request) (s : SelfService)
    → request_all rs s ≡ record s { posted = s.posted ++ tasks_of rs }
unfolding tasks_of
request_all-tasks_of [] s = ap (λ ts. record s { posted = ts }) (sym (append-nil s.posted))
request_all-tasks_of (r ∷ rs) s = rw (request-task_of r s) (
    request_all-tasks_of rs (record s { posted = s.posted ++ task_of r ∷ [] })
    ∙ ap (λ ts. record s { posted = ts }) (append_assoc s.posted (task_of r ∷ []) (tasks_of rs)))

messages-append :
    (hs : Handlers) (id : ServiceId) (xs ys : List Bytes)
    → messages hs id (xs ++ ys) ≡ messages hs id xs ++ messages hs id ys
messages-append hs id [] ys = refl
messages-append hs id (x ∷ xs) ys = rw (messages-append hs id xs ys, append_assoc) refl

said-task_of :
    (r : Request) (s : SelfService)
    → said (task_of r) s ≡ messages s.handlers (self_id s) (received (self_id s) (r ∷ []))
unfolding said task_of run_task emit_self_message publish_ex_task send_task
said-task_of (Request.publish payload) s =
    sym (append-nil (invoke_message s.handlers (self_id s) payload))
said-task_of (Request.publish_ex ids payload) s =
    ground (arith, append-nil (invoke_message s.handlers (self_id s) payload))
said-task_of (Request.send ids payload) s =
    ground (arith, append-nil (invoke_message s.handlers (self_id s) payload))

received-cons :
    (id : ServiceId) (r : Request) (rs : List Request)
    → received id (r ∷ rs) ≡ received id (r ∷ []) ++ received id rs
received-cons id (Request.publish payload) rs = refl
received-cons id (Request.publish_ex ids payload) rs =
    rw (append-nil (if contains_id ids id then [] else payload ∷ [])) refl
received-cons id (Request.send ids payload) rs =
    rw (append-nil (if contains_id ids id then payload ∷ [] else [])) refl

said_all-tasks_of :
    (rs : List Request) (s : SelfService)
    → said_all (tasks_of rs) s ≡ messages s.handlers (self_id s) (received (self_id s) rs)
unfolding said_all tasks_of
said_all-tasks_of [] s = refl
said_all-tasks_of (r ∷ rs) s =
    rw
      (
        said-task_of r s,
        said_all-tasks_of rs s,
        received-cons (self_id s) r rs,
        messages-append s.handlers (self_id s) (received (self_id s) (r ∷ []))
            (received (self_id s) rs),
      )
      refl

goes_on : (b : Bool) → b ≡ false → (x y : SelfService × List Effect) → (if b then x else y).1 ≡ y.1
goes_on b q x y = rw q refl

poll-said : (s : SelfService) → s.stopped ≡ false → (poll s).1 ≡ said_all s.posted s
unfolding poll
poll-said s q =
    goes_on s.stopped q (s, []) (run_all run_task s.posted (record s { posted = [] }))
    ∙ ap (λ (r : SelfService × List Effect). r.1) (run_all-said s.posted (record s { posted = [] }))
    ∙ said_all-posted s.posted [] s

-- Whatever else waits in its queue, a service that is not stopped hears, at the next poll and after
-- what has been waiting, each payload that is published, published to all but others, or sent to itself,
-- in the order of the requests and once, from itself.
pub poll-request_all :
    (rs : List Request) (s : SelfService)
    → s.stopped ≡ false
    → (poll (request_all rs s)).1
      ≡ (poll s).1 ++ messages s.handlers (self_id s) (received (self_id s) rs)
poll-request_all rs s q =
    rw (request_all-tasks_of rs s, poll-said s q)
      (poll-said (record s { posted = s.posted ++ tasks_of rs }) q
        ∙ said_all-posted (s.posted ++ tasks_of rs) (s.posted ++ tasks_of rs) s
        ∙ said_all-append s.posted (tasks_of rs) s
        ∙ ap (◌++◌ (said_all s.posted s)) (said_all-tasks_of rs s))

-- A restart forgets all requests that have not been served: the next poll announces the service as
-- ready and connected, and no message comes.
pub restart-forgets :
    (rs : List Request) (s : SelfService)
    → (poll (restart (request_all rs s))).1
      ≡ invoke_ready s.handlers (self_id s) ++ invoke_connect s.handlers (self_id s)
unfolding restart run_task ready_task run_all poll self_id
restart-forgets rs s =
    rw (request_all-tasks_of rs s)
      (append-nil (invoke_ready s.handlers (self_id s) ++ invoke_connect s.handlers (self_id s)))
