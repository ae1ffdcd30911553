-- ===== src/Self.antt =====
-- src/src/self/create.cpp: a service that is its own peer. What it sends goes through its executor and
-- comes back to its own callbacks.
pub mod Loopback
use nil_service.Common.{
  ℕ, Bool, true, false, not, Option, none, some, List, [], ◌∷◌, ◌++◌, Bytes, if◌then◌else◌,
}
use nil_service.Service.Requests.{Request}
use nil_service.Service.{
  ServiceId, Effect, Handlers, no_handlers, invoke_ready, invoke_connect, invoke_message,
  contains_id, Action, run_all,
}

pub data Task : Type 0 where
  ready : Task
  queued : Bytes → Task
  publish_ex : List ServiceId → Bytes → Task
  send : List ServiceId → Bytes → Task
  user : ℕ → Task

pub record SelfService : Type 0 where
  pub this : ℕ
  pub handlers : Handlers
  pub posted : List Task
  pub stopped : Bool

abbrev pub to_string : ℕ
to_string = 1

unfoldable pub self_id : SelfService → ServiceId
self_id s = record { owner = s.this; id = s.this; to_string = to_string }

unfoldable pub contains_self_id : List ServiceId → SelfService → Bool
contains_self_id ids s = contains_id ids (self_id s)

abbrev pub post : Task → SelfService → SelfService
post task s = record s { posted = s.posted ++ task ∷ [] }

-- The constructor.
unfoldable pub create : ℕ → SelfService
create this = record { this = this; handlers = no_handlers; posted = ready ∷ []; stopped = false }

unfoldable pub stop : SelfService → SelfService
stop s = record s { stopped = true }

-- A new context has an empty queue and has not been stopped.
unfoldable pub restart : SelfService → SelfService
restart s = record s { posted = ready ∷ []; stopped = false }

unfoldable pub emit_self_message : Bytes → Action SelfService
emit_self_message msg s = (s, invoke_message s.handlers (self_id s) msg)

unfoldable pub queue_self_message : Bytes → SelfService → SelfService
queue_self_message msg s = post (queued msg) s

-- The methods `publish`, `publish_ex` and `send`.
unfoldable pub request : Request → SelfService → SelfService
unfolding queue_self_message
request (Request.publish payload) s = queue_self_message payload s
request (Request.publish_ex ids payload) s = post (publish_ex ids payload) s
request (Request.send ids data_) s = post (send ids data_) s

unfoldable pub publish_ex_task : List ServiceId → Bytes → Action SelfService
unfolding emit_self_message contains_self_id
publish_ex_task ids msg s = if contains_self_id ids s then (s, []) else emit_self_message msg s

unfoldable pub send_task : List ServiceId → Bytes → Action SelfService
unfolding emit_self_message contains_self_id
send_task ids msg s = if not (contains_self_id ids s) then (s, []) else emit_self_message msg s

unfoldable pub ready_task : Action SelfService
ready_task s = (s, invoke_ready s.handlers (self_id s) ++ invoke_connect s.handlers (self_id s))

unfoldable pub run_task : Task → Action SelfService
run_task ready = ready_task
run_task (queued msg) = emit_self_message msg
run_task (publish_ex ids msg) = publish_ex_task ids msg
run_task (send ids msg) = send_task ids msg
run_task (user f) = λ s. (s, [])

unfoldable pub turn_of : List Task → Action SelfService
turn_of [] s = (s, [])
turn_of (task ∷ tasks) s =
    if s.stopped then (s, []) else run_task task (record s { posted = tasks })

-- `run` takes the first task that is posted, unless the context is stopped.
unfoldable pub turn : Action SelfService
unfolding turn_of
turn s = turn_of s.posted s

unfoldable pub poll : Action SelfService
poll s = if s.stopped then (s, []) else run_all run_task s.posted (record s { posted = [] })

abbrev pub add {ℓ} : {A : Type ℓ} → List A → A → List A
add handlers handler = handlers ++ handler ∷ []

unfoldable pub impl_on_message : Option ℕ → SelfService → SelfService
impl_on_message f s = record s {
  handlers = record (s.handlers) { on_message_cb = add s.handlers.on_message_cb f };
}

unfoldable pub impl_on_ready : Option ℕ → SelfService → SelfService
impl_on_ready f s = record s {
  handlers = record (s.handlers) { on_ready_cb = add s.handlers.on_ready_cb f };
}

unfoldable pub impl_on_connect : Option ℕ → SelfService → SelfService
impl_on_connect f s = record s {
  handlers = record (s.handlers) { on_connect_cb = add s.handlers.on_connect_cb f };
}

unfoldable pub impl_on_disconnect : Option ℕ → SelfService → SelfService
impl_on_disconnect f s = record s {
  handlers = record (s.handlers) { on_disconnect_cb = add s.handlers.on_disconnect_cb f };
}
