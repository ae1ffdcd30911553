-- ===== src/Ws/Server/Relay.antt =====
-- The calls that src/src/ws/server/create.cpp repeats.
use nil_service.Common.{
  ℕ, ◌≡◌, ◌∙◌, refl, ap, true, false, Option, none, some, List, [], ◌∷◌, ◌++◌, Bytes, All,
  All-append, if_both, append-nil,
}
use nil_service.Service.{
  ServiceId, Call, on_ready, on_connect, on_disconnect, on_message, Effect, called, sent, Handlers,
  invoke, invoke_connect, invoke_disconnect, invoke_message,
}
use nil_service.Service.Ident.{invoke-append}
use nil_service.Service.Peers.{
  Peer, write_each, write_except, write_to, write_found, find_connection,
}
use nil_service.Stream.{Signal}
use nil_service.Stream
use nil_service.Ws.Connection.{Connection}
use nil_service.Http.WebSocket
use nil_service.Http.WebSocket.{WebSocket, on_signals, on_signal}
use nil_service.Ws.Server.{call_each, repeat_call, repeat_effect, repeat_all, attached}

-- No function is empty.
abbrev pub IsLive : List (Option ℕ) → Type 0
IsLive [] = Unit
IsLive (none ∷ cbs) = (true ≡ false)
IsLive (some cb ∷ cbs) = IsLive cbs

abbrev pub AllLive : Handlers → Type 0
AllLive hs =
    IsLive hs.on_ready_cb
    × IsLive hs.on_connect_cb
    × IsLive hs.on_disconnect_cb
    × IsLive hs.on_message_cb

-- The callbacks of the WebSocket after `attach_callbacks`.
abbrev pub one_each : Handlers
one_each = record {
  on_message_cb = some attached ∷ [];
  on_ready_cb = some attached ∷ [];
  on_connect_cb = some attached ∷ [];
  on_disconnect_cb = some attached ∷ [];
}

pub call_each-live :
    (call : ℕ → Call) (cbs : List (Option ℕ))
    → IsLive cbs
    → call_each call cbs ≡ (invoke call cbs, false)
unfolding call_each invoke
call_each-live call [] live = refl
call_each-live call (none ∷ cbs) live = absurd (cc)
call_each-live call (some cb ∷ cbs) live = rw (call_each-live call cbs live) refl

-- Effects that come to others, none of which throws.
abbrev pub Becomes : Handlers → List Effect → List Effect → Type 0
Becomes hs xs ys = repeat_all hs xs ≡ (ys, false)

module _ (hs : Handlers) where
  Becomes-cons :
      (x : Effect) (xs out more : List Effect)
      → repeat_effect hs x ≡ (out, false)
      → Becomes hs xs more
      → Becomes hs (x ∷ xs) (out ++ more)
  unfolding repeat_all
  Becomes-cons x xs out more here there = rw (here, there) refl

  Becomes-one :
      (x : Effect) (out : List Effect) → repeat_effect hs x ≡ (out, false) → Becomes hs (x ∷ []) out
  unfolding repeat_all
  Becomes-one x out here = rw here (ap (λ ys. (ys, false)) (append-nil out))

-- Writes are no calls.
abbrev pub IsWrite : Effect → Type 0
IsWrite (called call) = (true ≡ false)
IsWrite (sent a payload) = Unit

Becomes-writes : (hs : Handlers) (xs : List Effect) → All IsWrite xs → Becomes hs xs xs
unfolding repeat_all repeat_effect
Becomes-writes hs [] writes = refl
Becomes-writes hs (called call ∷ xs) writes = absurd (cc)
Becomes-writes hs (sent a payload ∷ xs) writes = rw (Becomes-writes hs xs writes.1) refl

module _ (remote : ℕ → ServiceId) (msg : Bytes) where
  write_each-IsWrite :
      (cs : List (Peer Connection))
      → All IsWrite (write_each remote (WebSocket.write_payload msg) cs)
  unfolding write_each
  write_each-IsWrite [] = tt
  write_each-IsWrite (c ∷ cs) = (tt, write_each-IsWrite cs)

  write_except-IsWrite :
      (ids : List ServiceId) (cs : List (Peer Connection))
      → All IsWrite (write_except remote (WebSocket.write_payload msg) ids cs)
  unfolding write_except
  write_except-IsWrite ids [] = tt
  write_except-IsWrite ids (c ∷ cs) =
      if_both (All IsWrite) _ (write_except remote (WebSocket.write_payload msg) ids cs)
        (sent c.address msg ∷ write_except remote (WebSocket.write_payload msg) ids cs)
        (write_except-IsWrite ids cs) (tt, write_except-IsWrite ids cs)

  write_found-IsWrite :
      (o : Option (Peer Connection))
      → All IsWrite (write_found remote (WebSocket.write_payload msg) o)
  unfolding write_found
  write_found-IsWrite none = tt
  write_found-IsWrite (some c) = (tt, tt)

  write_to-IsWrite :
      (ids : List ServiceId) (cs : List (Peer Connection))
      → All IsWrite (write_to remote (WebSocket.write_payload msg) ids cs)
  unfolding write_to
  write_to-IsWrite [] cs = tt
  write_to-IsWrite (id ∷ ids) cs =
      All-append IsWrite _ _ (write_found-IsWrite (find_connection remote id cs))
        (write_to-IsWrite ids cs)

-- The WebSocket with these callbacks.
abbrev pub hearing : Handlers → WebSocket → WebSocket
hearing hs w = record w { handlers = hs }

module _ (hs : Handlers) (live : AllLive hs) where
  repeat-on_signals :
      (address : ℕ) (xs : List Signal) (w : WebSocket)
      → Becomes hs
          (on_signals address xs (hearing one_each w)).0
          (on_signals address xs (hearing hs w)).0
  unfolding on_signals on_signal invoke repeat_all repeat_effect repeat_call
  repeat-on_signals address [] w = refl
  repeat-on_signals address (Stream.connected ∷ xs) w =
      Becomes-cons hs (called (on_connect attached (WebSocket.remote w address))) _
        (invoke_connect hs (WebSocket.remote w address)) _
        (call_each-live (λ cb. on_connect cb (WebSocket.remote w address)) hs.on_connect_cb live.1)
        (repeat-on_signals address xs w)
  repeat-on_signals address (Stream.disconnected ∷ xs) w = repeat-on_signals address xs w
  repeat-on_signals address (Stream.message payload ∷ xs) w =
      Becomes-cons hs (called (on_message attached (WebSocket.remote w address) payload)) _
        (invoke_message hs (WebSocket.remote w address) payload) _
        (call_each-live (λ cb. on_message cb (WebSocket.remote w address) payload) hs.on_message_cb
          live.3)
        (repeat-on_signals address xs w)

  repeat-run_task :
      (task : WebSocket.Task) (w : WebSocket)
      → Becomes hs
          (WebSocket.run_task task (hearing one_each w)).1
          (WebSocket.run_task task (hearing hs w)).1
  unfolding WebSocket.run_task WebSocket.publish_task WebSocket.publish_ex_task WebSocket.send_task
      WebSocket.disconnect_task invoke repeat_effect repeat_call
  repeat-run_task (WebSocket.publish msg) w =
      Becomes-writes hs _ (write_each-IsWrite (WebSocket.remote w) msg w.connections)
  repeat-run_task (WebSocket.publish_ex ids msg) w =
      Becomes-writes hs _ (write_except-IsWrite (WebSocket.remote w) msg ids w.connections)
  repeat-run_task (WebSocket.send ids msg) w =
      Becomes-writes hs _ (write_to-IsWrite (WebSocket.remote w) msg ids w.connections)
  repeat-run_task (WebSocket.disconnect id) w = rw (append-nil (invoke_disconnect hs id)) (
      Becomes-one hs (called (on_disconnect attached id)) (invoke_disconnect hs id)
        (call_each-live (λ cb. on_disconnect cb id) hs.on_disconnect_cb live.2))

  repeat-ready :
      (w : WebSocket)
      → Becomes hs (WebSocket.ready (hearing one_each w)).1 (WebSocket.ready (hearing hs w)).1
  unfolding WebSocket.ready invoke repeat_effect repeat_call
  repeat-ready w = Becomes-one hs _ _ (call_each-live (λ cb. on_ready cb _) hs.on_ready_cb live.0)

-- If no function that was given to the service is empty, it makes the calls that the WebSocket would make
-- if the functions had been given to it, and the same writes, with no exception: on every signal of a
-- connection, in every task of the WebSocket, and when it is ready.
pub repeat_all_lem :
    (hs : Handlers) (w : WebSocket) (address : ℕ) (xs : List Signal) (task : WebSocket.Task)
    → AllLive hs
    → (repeat_all hs (on_signals address xs (hearing one_each w)).0
        ≡ ((on_signals address xs (hearing hs w)).0, false))
      × (repeat_all hs (WebSocket.run_task task (hearing one_each w)).1
          ≡ ((WebSocket.run_task task (hearing hs w)).1, false))
      × (repeat_all hs (WebSocket.ready (hearing one_each w)).1
          ≡ ((WebSocket.ready (hearing hs w)).1, false))
repeat_all_lem hs w address xs task live =
    (repeat-on_signals hs live address xs w, repeat-run_task hs live task w, repeat-ready hs live w)

call_each-empty :
    (call : ℕ → Call) (before after : List (Option ℕ))
    → IsLive before
    → call_each call (before ++ none ∷ after) ≡ (invoke call before, true)
unfolding call_each invoke
call_each-empty call [] after live = refl
call_each-empty call (none ∷ before) after live = absurd (cc)
call_each-empty call (some cb ∷ before) after live =
    rw (call_each-empty call before after live) refl

invoke-none :
    (call : ℕ → Call) (before after : List (Option ℕ))
    → invoke call before ++ invoke call (none ∷ after) ≡ invoke call before ++ invoke call after
unfolding invoke
invoke-none call before after = refl

-- An empty function among those for messages makes the service throw at the first message, before the
-- functions behind it are called, where a WebSocket that has the same functions skips it and calls them.
pub repeat_call-throws :
    (hs : Handlers) (before after : List (Option ℕ)) (f : ℕ) (id : ServiceId) (payload : Bytes)
    → hs.on_message_cb ≡ before ++ none ∷ after
    → IsLive before
    → (repeat_call hs (on_message f id payload)
        ≡ (invoke (λ cb. on_message cb id payload) before, true))
      × (invoke_message hs id payload
          ≡ invoke (λ cb. on_message cb id payload) before
            ++ invoke (λ cb. on_message cb id payload) after)
unfolding repeat_call
repeat_call-throws hs before after f id payload q live =
    let call = λ (cb : ℕ). on_message cb id payload in
    (
      ap (call_each call) q ∙ call_each-empty call before after live,
      ap (invoke call) q ∙ invoke-append call before (none ∷ after) ∙ invoke-none call before after,
    )
