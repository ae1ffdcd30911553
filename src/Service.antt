-- ===== src/Service.antt =====
-- What every service shares: src/publish/nil/service/ID.hpp, the callbacks of structs.hpp and
-- `utils::invoke` of src/src/utils.hpp.
--
-- A pointer is a number, 0 for `nullptr`. A callback is a `std::function`: `none` if it is empty,
-- else the name of the user's function. What a service does to the outside is a list of effects, in
-- the order in which they happen.
pub mod Ident
pub mod Calls
pub mod Requests
pub mod EventService
pub mod MessageHandler
pub mod Callbacks
pub mod Mapping
pub mod Peers
use nil_service.Common.{
  ℕ, ◌≡◌, refl, Bool, true, false, ◌&&◌, ◌||◌, Option, none, some, List, [], ◌∷◌, ◌++◌, Bytes, ◌==◌,
}

-- `nil::service::ID`
pub record ServiceId : Type 0 where
  pub owner : ℕ
  pub id : ℕ
  pub to_string : ℕ

-- `ID::operator==`
unfoldable pub same_id : ServiceId → ServiceId → Bool
same_id a b = a.owner == b.owner && a.id == b.id && a.to_string == b.to_string

-- `std::hash<ID>`
unfoldable pub hash : ServiceId → ℕ
hash i = i.id

-- `ids.end() != std::find(ids.begin(), ids.end(), id)`
unfoldable pub contains_id : List ServiceId → ServiceId → Bool
contains_id [] id = false
contains_id (i ∷ ids) id = same_id i id || contains_id ids id

-- A call of a user's function.
pub data Call : Type 0 where
  on_ready on_connect on_disconnect : ℕ → ServiceId → Call
  on_message : ℕ → ServiceId → Bytes → Call

-- `sent` is a synchronous write to a socket, a peer or a descriptor.
pub data Effect : Type 0 where
  called : Call → Effect
  sent : ℕ → Bytes → Effect

pub record Handlers : Type 0 where
  pub on_message_cb : List (Option ℕ)
  pub on_ready_cb : List (Option ℕ)
  pub on_connect_cb : List (Option ℕ)
  pub on_disconnect_cb : List (Option ℕ)

abbrev pub no_handlers : Handlers
no_handlers = record {
  on_message_cb = [];
  on_ready_cb = [];
  on_connect_cb = [];
  on_disconnect_cb = [];
}

-- `utils::invoke`: each callback that is not empty, in the order of registration.
unfoldable pub invoke : (ℕ → Call) → List (Option ℕ) → List Effect
invoke call [] = []
invoke call (none ∷ cbs) = invoke call cbs
invoke call (some cb ∷ cbs) = called (call cb) ∷ invoke call cbs

abbrev pub invoke_ready : Handlers → ServiceId → List Effect
invoke_ready hs id = invoke (λ cb. on_ready cb id) hs.on_ready_cb

abbrev pub invoke_connect : Handlers → ServiceId → List Effect
invoke_connect hs id = invoke (λ cb. on_connect cb id) hs.on_connect_cb

abbrev pub invoke_disconnect : Handlers → ServiceId → List Effect
invoke_disconnect hs id = invoke (λ cb. on_disconnect cb id) hs.on_disconnect_cb

abbrev pub invoke_message : Handlers → ServiceId → Bytes → List Effect
invoke_message hs id payload = invoke (λ cb. on_message cb id payload) hs.on_message_cb

-- A piece of code: the new state, and the effects in order.
abbrev pub Action {ℓ} : Type ℓ → Type ℓ
Action S = S → S × List Effect

infixl 5 ◌▷◌
abbrev pub ◌▷◌ {ℓ} : {S : Type ℓ} → Action S → Action S → Action S
◌▷◌ first second s = let (s', out) = first s in let (s'', more) = second s' in (s'', out ++ more)

abbrev pub emit {ℓ} : {S : Type ℓ} → (S → List Effect) → Action S
emit out s = (s, out s)

abbrev pub update {ℓ} : {S : Type ℓ} → (S → S) → Action S
update f s = (f s, [])

abbrev pub skip {ℓ} : {S : Type ℓ} → Action S
skip s = (s, [])

-- The tasks of an executor, first come first served.
unfoldable pub run_all {ℓ κ} : {S : Type ℓ} {T : Type κ} → (T → Action S) → List T → Action S
run_all step [] s = (s, [])
run_all step (t ∷ ts) s =
    let (s', out) = step t s in let (s'', more) = run_all step ts s' in (s'', out ++ more)
