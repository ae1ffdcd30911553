-- ===== src/Tests/CalledFromC.antt =====
-- The interface for C, over a service that is its own peer.
use nil_service.Common.{ℕ, ◌≡◌, refl, false, none, some, List, [], ◌∷◌, ◌++◌, Option, Bytes, arith}
use nil_service.Service.{ServiceId, no_handlers, on_message, invoke}
use nil_service.Self
use nil_service.Self.{SelfService}
use nil_service.Gateway.Forwarding.Relay.{self_ops}
use nil_service.CInterface.{CId, from_cpp_id, to_cpp_id, returned, to_cpp_ids, id_to_string}
use nil_service.CInterface.Identities.{to_cpp_ids_lem}
use nil_service.CInterface.Texts.{id_to_string_lem, id_to_string-overflows}
use nil_service.CInterface.Callbacks.{CService, message}
use nil_service.CInterface.Callbacks.Hearing.{hear_all, perform_all, perform_all-hear_all}
use nil_service.CInterface.Handles
use nil_service.CInterface.Handles.{Pointer, Interface}

abbrev one : CId
one = record { owner = 1; id = 7; pointer = 2 }

abbrev two : CId
two = record { owner = 1; id = 9; pointer = 2 }

to_cpp_ids_lem_example :
    to_cpp_ids 3 (record { size = 2; ids = some (one ∷ two ∷ one ∷ []) })
    ≡ returned (to_cpp_id one ∷ to_cpp_id two ∷ [])
to_cpp_ids_lem_example = to_cpp_ids_lem 3 (one ∷ two ∷ []) (one ∷ []) (omega arith) (omega arith)

-- "ab"
abbrev text : ℕ → ℕ → Bytes
text printer id = 97 ∷ 98 ∷ []

id_to_string_lem_example : id_to_string text one (1 ∷ 1 ∷ 1 ∷ []) 2 ≡ some (97 ∷ 0 ∷ 1 ∷ [], 1)
id_to_string_lem_example =
    id_to_string_lem text one (1 ∷ 1 ∷ 1 ∷ []) 2 (omega arith) (omega arith) (omega arith)

id_to_string-overflows_example : id_to_string text one (1 ∷ 1 ∷ []) 0 ≡ none
id_to_string-overflows_example =
    id_to_string-overflows text one (1 ∷ 1 ∷ []) (omega arith) (omega arith)

abbrev service : CService SelfService
service = record {
  service = record { this = 5; handlers = no_handlers; posted = []; stopped = false };
  lambdas = [];
}

abbrev id : ServiceId
id = record { owner = 5; id = 5; to_string = 1 }

abbrev functions : List (ℕ × ℕ)
functions = (30, 40) ∷ (31, 41) ∷ []

abbrev heard : SelfService → List (Option ℕ)
heard s = s.handlers.on_message_cb

heard-on_message :
    (f : ℕ) (s : SelfService) → heard (self_ops.on_message f s) ≡ heard s ++ some f ∷ []
unfolding Self.impl_on_message
heard-on_message f s = refl

perform_all-hear_all_example :
    perform_all (hear_all self_ops functions service).lambdas (
      invoke
        (λ cb. on_message cb id (9 ∷ []))
        (heard (hear_all self_ops functions service).service))
    ≡ some (message 30 (from_cpp_id id) (9 ∷ []) 40)
      ∷ some (message 31 (from_cpp_id id) (9 ∷ []) 41)
      ∷ []
unfolding invoke
perform_all-hear_all_example =
    perform_all-hear_all self_ops heard heard-on_message functions service id (9 ∷ [])

-- The handle to an event service that a program makes of the handle to a gateway.
abbrev gateway_event : Pointer
gateway_event = record { object = 9; interface = Interface.event }
