-- ===== src/Tests/Messages.antt =====
-- Messages of src/publish/nil/service, and the identities that they are sent to.
use nil_service.Common.{
  ℕ, ◌+◌, ◌≡◌, refl, Bool, true, false, none, some, List, [], ◌∷◌, ◌++◌, ◌==◌, arith, map, Bytes,
  length,
}
use nil_service.Codec.{little, big, uint16, uint8, Value, text, flag, bits, type_of, size}
use nil_service.Codec.Message.{consume_all, total_size}
use nil_service.Codec.Message.RoundTrip.{images, consume_all_lem}
use nil_service.Service.{ServiceId}
use nil_service.Service.Requests
use nil_service.Service.Requests.{publish_value, send_value}
use nil_service.Service.Callbacks.Typed.{publish_value-adapt}
use nil_service.Service.MessageHandler.{Adapter, adapt, Callable, with_value, with_id_value}
use nil_service.Service.Mapping.{Mapping, map_handler}
use nil_service.Service.Mapping.Routing.{map_handler-first}
use mathlib.Core.Option

abbrev parts : List Value
parts = bits uint16 513 ∷ flag true ∷ text (104 ∷ 105 ∷ []) ∷ []

consume_all_lem_example :
    consume_all big (map type_of parts) (images little parts) 5 ≡ some (parts, [], 0)
unfolding total_size size
consume_all_lem_example =
    consume_all_lem little big parts (tt, (tt, tt)) (omega arith, (tt, (tt, tt))) (omega arith)

abbrev same_tag : Value → Value → Bool
same_tag (bits t m) (bits t' n) = m == n
same_tag (bits t m) (flag b) = false
same_tag (bits t m) (text payload) = false
same_tag (flag b) v = false
same_tag (text payload) v = false

abbrev sender : ServiceId
sender = record { owner = 1; id = 2; to_string = 3 }

abbrev other : ServiceId
other = record { owner = 1; id = 4; to_string = 3 }

abbrev handler : ℕ → ℕ → Mapping
handler tag callable = record { value = bits uint8 tag; callable = callable; adapter = Adapter.id_ }

map_handler-first_example :
    map_handler same_tag big
      (type_of (bits uint8 6))
      ((handler 5 10 ∷ []) ++ handler 6 11 ∷ handler 6 12 ∷ [])
      sender
      (images little (bits uint8 6 ∷ flag true ∷ []))
      (size (bits uint8 6) + total_size (flag true ∷ []))
    ≡ Option.map
        (λ call. some (11, call))
        (adapt big Adapter.id_ sender
          (images little (flag true ∷ []))
          (total_size (flag true ∷ [])))
unfolding total_size size
map_handler-first_example =
    map_handler-first same_tag little big sender (bits uint8 6) (flag true ∷ []) (handler 5 10 ∷ [])
      (handler 6 12 ∷ []) (handler 6 11) tt (omega arith) (omega arith) (refl, tt) refl

-- A function of a buffer and its size.
abbrev of_buffer : Callable
of_buffer = record {
  takes_all = false;
  takes_none = false;
  takes_id = false;
  takes_value = none;
  takes_buffer = true;
  takes_id_value = none;
}

abbrev peer : ServiceId
peer = record { owner = 1; id = 2; to_string = 3 }

publish_value-adapt_example :
    (payload : Bytes) × (publish_value little (bits uint16 513) ≡ some (Requests.publish payload))
    × (send_value little peer (bits uint16 513) ≡ some (Requests.send (peer ∷ []) payload))
    × (adapt big (Adapter.value (type_of (bits uint16 513))) peer payload 2
        ≡ some (with_value (bits uint16 513)))
    × (adapt big (Adapter.id_value (type_of (bits uint16 513))) peer payload 2
        ≡ some (with_id_value peer (bits uint16 513)))
    × (length payload ≡ 2)
unfolding size
publish_value-adapt_example =
    publish_value-adapt little big (bits uint16 513) peer peer (omega arith)
