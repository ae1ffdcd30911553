-- ===== src/CInterface/Identities.antt =====
-- The loop and the copies of src/src/c/service.cpp.
use nil_service.Common.{
  ℕ, zero, suc, ◌+◌, ◌<◌, ◌≡◌, refl, ap, sym, ◌∙◌, some, List, [], ◌∷◌, ◌++◌, map, append_assoc,
  append-nil, arith, Bytes, read, length, get_elem?, length-append, read-append,
}
use nil_service.Service.{ServiceId}
use nil_service.Service.Requests.{publish_raw, publish_ex_raw, send_raw}
use nil_service.Service.Requests
use nil_service.CInterface.{
  CId, CIds, from_cpp_id, to_cpp_id, returned, next, to_cpp_ids_loop, to_cpp_ids, to_cpp_ids_at,
  to_payload, message_publish, message_publish_ex, message_send, message_publish_ex_ids,
  message_send_ids,
}

get_elem?-append :
    (before rest : List CId) (id : CId) (i : ℕ) (ids : List CId)
    → length before ≡ i
    → ids ≡ before ++ id ∷ rest
    → get_elem? i ids ≡ some id
get_elem?-append [] rest id i ids at split = rw (split, ← at) refl
get_elem?-append (b ∷ before) rest id i ids at split =
    rw (split, ← at)
      (get_elem?-append before rest id (length before) (before ++ id ∷ rest) refl refl)

-- One round of the loop, and its end.
to_cpp_ids_loop-round :
    (fuel i size : ℕ) (ids : List CId) (id : CId) (retval : List ServiceId)
    → i < size
    → get_elem? i ids ≡ some id
    → to_cpp_ids_loop (suc fuel) size ids i retval
      ≡ to_cpp_ids_loop fuel size ids (next i) (retval ++ to_cpp_id id ∷ [])
unfolding to_cpp_ids_loop
to_cpp_ids_loop-round fuel i size ids id retval below found = ground arith

to_cpp_ids_loop-end :
    (fuel i size : ℕ) (ids : List CId) (retval : List ServiceId)
    → i ≡ size
    → to_cpp_ids_loop (suc fuel) size ids i retval ≡ returned retval
unfolding to_cpp_ids_loop
to_cpp_ids_loop-end fuel i size ids retval stop = ground arith

to_cpp_ids_loop_lem :
    (fuel i size : ℕ) (before rest more ids : List CId) (retval : List ServiceId)
    → length before ≡ i
    → i + length rest ≡ size
    → size < 4294967296
    → length rest < fuel
    → ids ≡ before ++ (rest ++ more)
    → to_cpp_ids_loop fuel size ids i retval ≡ returned (retval ++ map to_cpp_id rest)
to_cpp_ids_loop_lem zero i size before rest more ids retval at total small enough split =
    absurd (omega arith)
to_cpp_ids_loop_lem (suc fuel) i size before [] more ids retval at total small enough split =
    to_cpp_ids_loop-end fuel i size ids retval (omega arith) ∙ ap returned (sym (append-nil retval))
to_cpp_ids_loop_lem (suc fuel) i size before (id ∷ rest) more ids retval at total small enough
      split =
    to_cpp_ids_loop-round fuel i size ids id retval (omega arith)
      (get_elem?-append before (rest ++ more) id i ids at split)
    ∙ to_cpp_ids_loop_lem fuel (next i) size (before ++ id ∷ []) rest more ids
        (retval ++ to_cpp_id id ∷ []) (omega (arith, length-append before (id ∷ []))) (omega arith)
        small (omega arith) (split ∙ sym (append_assoc before (id ∷ []) (rest ++ more)))
    ∙ ap returned (append_assoc retval (to_cpp_id id ∷ []) (map to_cpp_id rest))

-- The loop of `to_cpp_ids` ends after one test of its condition for each identity and one more, and
-- returns them all in order, if the array has as many identities as `size` says, whatever lies behind
-- them.
pub to_cpp_ids_lem :
    (fuel : ℕ) (ids more : List CId)
    → length ids < 4294967296
    → length ids < fuel
    → to_cpp_ids fuel (record { size = length ids; ids = some (ids ++ more) })
      ≡ returned (map to_cpp_id ids)
unfolding to_cpp_ids to_cpp_ids_at
to_cpp_ids_lem fuel ids more small enough =
    to_cpp_ids_loop_lem fuel 0 (length ids) [] ids more (ids ++ more) [] refl (omega arith) small
      enough refl

map-to_cpp_id : (ids : List ServiceId) → map to_cpp_id (map from_cpp_id ids) ≡ ids
unfolding to_cpp_id from_cpp_id
map-to_cpp_id [] = refl
map-to_cpp_id (i ∷ ids) = ap (◌∷◌ i) (map-to_cpp_id ids)

length-map_from : (ids : List ServiceId) → length (map from_cpp_id ids) ≡ length ids
length-map_from [] = refl
length-map_from (i ∷ ids) = ap suc (length-map_from ids)

to_payload_lem : (memory : Bytes) (n : ℕ) → to_payload (some memory) n ≡ read n memory
unfolding to_payload
to_payload_lem memory zero = refl
to_payload_lem memory (suc n) = ground arith

-- The array of identities that a C caller makes of those that it was given.
abbrev pub array : List ServiceId → CIds
array ids = record { size = length ids; ids = some (map from_cpp_id ids) }

to_cpp_ids-array :
    (fuel : ℕ) (ids : List ServiceId)
    → length ids < 4294967296
    → length ids < fuel
    → to_cpp_ids fuel (array ids) ≡ returned ids
unfolding to_cpp_ids to_cpp_ids_at
to_cpp_ids-array fuel ids small enough =
    to_cpp_ids_loop_lem fuel 0 (length ids) [] (map from_cpp_id ids) [] (map from_cpp_id ids) []
      refl (omega (arith, length-map_from ids)) small (omega (arith, length-map_from ids))
      (sym (append-nil (map from_cpp_id ids)))
    ∙ ap returned (map-to_cpp_id ids)

read-length : (payload : Bytes) → read (length payload) payload ≡ some payload
read-length payload = ap (read (length payload)) (sym (append-nil payload)) ∙ read-append payload []

-- A request from C is the one that the overload for raw memory makes of the same memory: for `publish`,
-- and for `publish_ex` and `send` with an identity that C was given.
pub message-raw :
    (id : ServiceId) (memory : Bytes) (n : ℕ)
    → (message_publish (some memory) n ≡ publish_raw memory n)
      × (message_publish_ex (from_cpp_id id) (some memory) n ≡ publish_ex_raw id memory n)
      × (message_send (from_cpp_id id) (some memory) n ≡ send_raw id memory n)
unfolding message_publish message_publish_ex message_send publish_raw publish_ex_raw send_raw
    from_cpp_id to_cpp_id
message-raw id memory n = (
  rw (to_payload_lem memory n) refl,
  rw (to_payload_lem memory n) refl,
  rw (to_payload_lem memory n) refl,
)

-- The requests from C that name an array of fewer than 2 ^ 32 identities, which C was given, and a
-- payload of memory: `publish_ex` and `send` of these identities, in order, with the payload.
pub message_ids-array :
    (fuel : ℕ) (ids : List ServiceId) (payload : Bytes)
    → length ids < 4294967296
    → length ids < fuel
    → (message_publish_ex_ids fuel (array ids) (some payload) (length payload)
        ≡ some (Requests.publish_ex ids payload))
      × (message_send_ids fuel (array ids) (some payload) (length payload)
          ≡ some (Requests.send ids payload))
unfolding message_publish_ex_ids message_send_ids
message_ids-array fuel ids payload small enough = (
  rw
      (
        to_cpp_ids-array fuel ids small enough,
        to_payload_lem payload (length payload),
        read-length payload,
      )
      refl,
  rw
      (
        to_cpp_ids-array fuel ids small enough,
        to_payload_lem payload (length payload),
        read-length payload,
      )
      refl,
)
