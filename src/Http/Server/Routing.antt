-- ===== src/Http/Server/Routing.antt =====
-- What src/src/http/server/create.cpp answers to a request.
use nil_service.Common.{
  ℕ, ◌≡◌, refl, ap, ◌∙◌, Bool, true, false, Option, none, some, List, [], ◌∷◌, ◌++◌, if◌then◌else◌,
}
use nil_service.Http.Server.{
  bad_request, Response, new_response, Request, get_route, set_content_type, text_plain, find_route,
  Server, Outcome, responded, Answers, try_handlers, process_get, process_request,
}

-- The response that the handlers of `on_get` start with.
abbrev pub bad_response : Response
bad_response = record (new_response) { status = bad_request }

-- What handlers that refuse a request leave of the response.
abbrev pub left : Answers → Request → List (Option ℕ) → Response → Response
left answer request [] response = response
left answer request (none ∷ cbs) response = left answer request cbs response
left answer request (some cb ∷ cbs) response =
    left answer request cbs (answer cb request response).1

-- All handlers refuse the request, each with the response that those before it leave.
abbrev pub AllRefuse : Answers → Request → List (Option ℕ) → Response → Type 0
AllRefuse answer request [] response = Unit
AllRefuse answer request (none ∷ cbs) response = AllRefuse answer request cbs response
AllRefuse answer request (some cb ∷ cbs) response =
    ((answer cb request response).0 ≡ false)
    × AllRefuse answer request cbs (answer cb request response).1

module _ (answer : Answers) (request : Request) where
  try_handlers-append :
      (before rest : List (Option ℕ)) (response : Response)
      → AllRefuse answer request before response
      → try_handlers answer request (before ++ rest) response
        ≡ try_handlers answer request rest (left answer request before response)
  unfolding try_handlers
  try_handlers-append [] rest response h = refl
  try_handlers-append (none ∷ before) rest response h = try_handlers-append before rest response h
  try_handlers-append (some cb ∷ before) rest response h =
      rw h.0 (try_handlers-append before rest (answer cb request response).1 h.1)

  try_handlers-refused :
      (cbs : List (Option ℕ)) (response : Response)
      → AllRefuse answer request cbs response
      → try_handlers answer request cbs response
        ≡ responded (set_content_type text_plain (left answer request cbs response))
  unfolding try_handlers
  try_handlers-refused [] response h = refl
  try_handlers-refused (none ∷ cbs) response h = try_handlers-refused cbs response h
  try_handlers-refused (some cb ∷ cbs) response h =
      rw h.0 (try_handlers-refused cbs (answer cb request response).1 h.1)

  take_then : (b : Bool) → b ≡ true → (x y : Outcome) → (if b then x else y) ≡ x
  take_then b q x y = rw q refl

  process_request-free :
      (s : Server)
      → request.get ≡ true
      → find_route (get_route request) s.wss ≡ none
      → process_request answer request s ≡ try_handlers answer request s.on_get_cb bad_response
  unfolding process_request process_get
  process_request-free s get free =
      take_then request.get get
        (process_get answer request (find_route (get_route request) s.wss) s)
        (responded (set_content_type text_plain bad_response))
      ∙ ap (λ w. process_get answer request w s) free

  try_handlers-accepts :
      (cb : ℕ) (after : List (Option ℕ)) (response : Response)
      → (answer cb request response).0 ≡ true
      → try_handlers answer request (some cb ∷ after) response
        ≡ responded (answer cb request response).1
  unfolding try_handlers
  try_handlers-accepts cb after response accepts =
      take_then (answer cb request response).0 accepts (responded (answer cb request response).1)
        (try_handlers answer request after (answer cb request response).1)

-- A `GET` of a target that is no WebSocket's is answered with what the first handler of `on_get` that
-- accepts it makes of the response; handlers that refuse may change the response before, and handlers
-- behind are not asked.
pub process_request-first :
    (answer : Answers) (request : Request) (s : Server) (before after : List (Option ℕ)) (cb : ℕ)
    → request.get ≡ true
    → find_route (get_route request) s.wss ≡ none
    → s.on_get_cb ≡ before ++ some cb ∷ after
    → AllRefuse answer request before bad_response
    → (answer cb request (left answer request before bad_response)).0 ≡ true
    → process_request answer request s
      ≡ responded (answer cb request (left answer request before bad_response)).1
process_request-first answer request s before after cb get free cbs refuse accepts =
    process_request-free answer request s get free
    ∙ ap (λ hs. try_handlers answer request hs bad_response) cbs
    ∙ try_handlers-append answer request before (some cb ∷ after) bad_response refuse
    ∙ try_handlers-accepts answer request cb after (left answer request before bad_response) accepts

-- A `GET` of a target that is no WebSocket's, which all handlers of `on_get` refuse, is answered with
-- what they leave of the response, as plain text; that is an empty bad request if they change nothing.
pub process_request-refused :
    (answer : Answers) (request : Request) (s : Server)
    → request.get ≡ true
    → find_route (get_route request) s.wss ≡ none
    → AllRefuse answer request s.on_get_cb bad_response
    → process_request answer request s
      ≡ responded (set_content_type text_plain (left answer request s.on_get_cb bad_response))
process_request-refused answer request s get free refuse =
    process_request-free answer request s get free
    ∙ try_handlers-refused answer request s.on_get_cb bad_response refuse
