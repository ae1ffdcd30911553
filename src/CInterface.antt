-- ===== src/CInterface.antt =====
-- src/src/c/service.cpp and src/publish/nil/service.h: identities, payloads and requests that come from C.
-- Memory is a list of the bytes or objects that are allocated behind a pointer.
pub mod Identities
pub mod Texts
pub mod Callbacks
pub mod Web
pub mod Creation
pub mod Handles
use nil_service.Common.{
  ℕ, zero, suc, ◌+◌, ◌%◌, Bool, true, false, ◌||◌, Option, none, some, List, [], ◌∷◌, ◌++◌, Bytes,
  read, copy_at, take, length, get_elem?, ltb, sub64, ◌==◌, if◌then◌else◌, ◌>>=◌,
}
use mathlib.Core.Option
use nil_service.Service.{ServiceId}
use nil_service.Service.Requests.{Request}

-- `nil_service_id`; `pointer` is its member `_`.
pub record CId : Type 0 where
  pub owner : ℕ
  pub id : ℕ
  pub pointer : ℕ

-- `nil_service_ids`: `size` is a `uint32_t`, `ids` may be null.
pub record CIds : Type 0 where
  pub size : ℕ
  pub ids : Option (List CId)

unfoldable pub from_cpp_id : ServiceId → CId
from_cpp_id i = record { owner = i.owner; id = i.id; pointer = i.to_string }

unfoldable pub to_cpp_id : CId → ServiceId
to_cpp_id i = record { owner = i.owner; id = i.id; to_string = i.pointer }

-- How far a loop has come: it still runs, it has read past the end of an array, or it has returned.
pub data Progress : Type 0 where
  running fault : Progress
  returned : List ServiceId → Progress

-- `++i` of an `unsigned int`.
abbrev pub next : ℕ → ℕ
next i = (i + 1) % 4294967296

-- The loop of `to_cpp_ids`, for so many tests of its condition.
unfoldable pub to_cpp_ids_loop : ℕ → ℕ → List CId → ℕ → List ServiceId → Progress
to_cpp_ids_loop zero size ids i retval = running
to_cpp_ids_loop (suc fuel) size ids i retval = elim (ltb i size) [
  | false ↦ returned retval
  | true ↦ elim (get_elem? i ids) [
    | none ↦ fault
    | some id ↦ to_cpp_ids_loop fuel size ids (next i) (retval ++ to_cpp_id id ∷ [])
  ]
]

unfoldable pub to_cpp_ids_at : ℕ → ℕ → Option (List CId) → Progress
to_cpp_ids_at fuel size none = returned []
to_cpp_ids_at fuel size (some ids) = to_cpp_ids_loop fuel size ids 0 []

-- The argument is never null: the callers pass the address of a parameter.
unfoldable pub to_cpp_ids : ℕ → CIds → Progress
unfolding to_cpp_ids_at
to_cpp_ids fuel c = to_cpp_ids_at fuel c.size c.ids

-- `none` is a read past the end of the memory.
unfoldable pub to_payload : Option Bytes → ℕ → Option Bytes
to_payload none n = some []
to_payload (some memory) n = if n == 0 then some [] else read n memory

unfoldable pub message_publish : Option Bytes → ℕ → Option Request
message_publish memory n = Option.map Request.publish (to_payload memory n)

unfoldable pub message_publish_ex : CId → Option Bytes → ℕ → Option Request
message_publish_ex id memory n =
    Option.map (Request.publish_ex (to_cpp_id id ∷ [])) (to_payload memory n)

unfoldable pub message_send : CId → Option Bytes → ℕ → Option Request
message_send id memory n = Option.map (Request.send (to_cpp_id id ∷ [])) (to_payload memory n)

-- The identities that a loop has returned.
abbrev pub result : Progress → Option (List ServiceId)
result running = none
result fault = none
result (returned ids) = some ids

unfoldable pub message_publish_ex_ids : ℕ → CIds → Option Bytes → ℕ → Option Request
message_publish_ex_ids fuel c memory n =
    result (to_cpp_ids fuel c) >>= λ ids. Option.map (Request.publish_ex ids) (to_payload memory n)

unfoldable pub message_send_ids : ℕ → CIds → Option Bytes → ℕ → Option Request
message_send_ids fuel c memory n =
    result (to_cpp_ids fuel c) >>= λ ids. Option.map (Request.send ids) (to_payload memory n)

-- `std::string::copy`: at most `count` characters, and how many they are.
unfoldable pub copy : Bytes → ℕ → Bytes → Option (Bytes × ℕ)
copy text count buffer =
    let s = take count text in Option.map (λ b. (b, length s)) (copy_at 0 s buffer)

-- `nil_service_id_to_string`: the buffer that it leaves, and what it returns. `text` is what the
-- function in the identity makes of the identity's address; `none` is a write past the end.
unfoldable pub id_to_string : (ℕ → ℕ → Bytes) → CId → Bytes → ℕ → Option (Bytes × ℕ)
unfolding copy
id_to_string text id buffer size =
    let s = text (to_cpp_id id).to_string (to_cpp_id id).id in
    copy s (sub64 size 1) buffer >>= λ copied.
    Option.map (λ b. (b, copied.1)) (copy_at copied.1 (0 ∷ []) copied.0)
