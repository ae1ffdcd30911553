-- ===== src/CInterface/Web/Answering.antt =====
-- What C functions answer to requests, and null pointers.
use nil_service.Common.{
  ℕ, suc, ◌≡◌, false, if◌then◌else◌, refl, ap, ◌∙◌, Option, none, some, List, [], ◌∷◌, ◌++◌, Bytes,
  read, length, get_elem?, read-append, append-nil, sym,
}
use mathlib.Core.Option
use nil_service.Http.Server.{
  Response, Request, Server, Answers, send, find_route, get_route, try_handlers, process_request,
  process_get, impl_on_get, new_response, bad_request, responded, Outcome, set_content_type,
  text_plain,
}
use nil_service.Http.WebSocket.{WebSocket}
use nil_service.CInterface.{to_payload}
use nil_service.CInterface.Callbacks.{CallbackInfo}
use nil_service.CInterface.Web.{
  Exec, WebLambda, for_get, CWeb, web_on_get, run_get, answer_of, answers, web_transaction_send,
}

get_elem?-last :
    (ls : List WebLambda) (l : WebLambda) → get_elem? (length ls) (ls ++ l ∷ []) ≡ some l
get_elem?-last [] l = refl
get_elem?-last (x ∷ ls) l = get_elem?-last ls l

run_get-null :
    (run : Exec) (exec : Option ℕ) (context : ℕ) (request : Request) (response : Response)
    → exec ≡ none
    → run_get run exec context request response ≡ (false, response)
unfolding run_get
run_get-null run exec context request response null = rw null refl

module _ (answer : Answers) (request : Request) (n : ℕ)
    (refuses : (response : Response) → answer n request response ≡ (false, response)) where
  try_handlers-last :
      (cbs : List (Option ℕ)) (response : Response)
      → try_handlers answer request (cbs ++ some n ∷ []) response
        ≡ try_handlers answer request cbs response
  unfolding try_handlers
  try_handlers-last [] response = rw (refuses response) refl
  try_handlers-last (none ∷ cbs) response = try_handlers-last cbs response
  try_handlers-last (some cb ∷ cbs) response =
      rw (try_handlers-last cbs (answer cb request response).1) refl

  process_get-last :
      (s : Server) (w : Option WebSocket)
      → process_get answer request w (impl_on_get (some n) s) ≡ process_get answer request w s
  unfolding process_get impl_on_get
  process_get-last s none =
      try_handlers-last s.on_get_cb (record (new_response) { status = bad_request })
  process_get-last s (some w) = refl

  process_request-last :
      (s : Server)
      → process_request answer request (impl_on_get (some n) s) ≡ process_request answer request s
  unfolding process_request impl_on_get
  process_request-last s =
      ap
        (λ (o : Outcome).
          if request.get
          then o
          else responded
              (set_content_type text_plain (record (new_response) { status = bad_request })))
        (process_get-last s (find_route (get_route request) s.wss))

-- A null function that C gives to `nil_service_web_on_get` changes the answer to no request.
pub process_request-null :
    (run : Exec) (info : CallbackInfo) (c : CWeb) (request : Request)
    → info.exec ≡ none
    → process_request (answers run (web_on_get info c).lambdas) request (web_on_get info c).server
      ≡ process_request (answers run (web_on_get info c).lambdas) request c.server
unfolding web_on_get answers answer_of
process_request-null run info c request null =
    process_request-last (answers run (c.lambdas ++ for_get info ∷ [])) request (length c.lambdas)
      (λ response.
        ap (λ l. answer_of run l request response) (get_elem?-last c.lambdas (for_get info))
        ∙ run_get-null run info.exec info.context request response null)
      c.server

-- A body of as many bytes as its size says is added to the response whole. A null body with a size of 0
-- adds nothing, with a size of 1 a zero byte, and with a larger size it is read past its end, where a
-- null payload of a message is an empty one whatever its size.
pub web_transaction_send_cases :
    (body : Bytes) (n : ℕ) (response : Response)
    → (web_transaction_send (some body) (length body) response ≡ some (send body response))
      × (web_transaction_send none 0 response ≡ some (send [] response))
      × (web_transaction_send none 1 response ≡ some (send (0 ∷ []) response))
      × (web_transaction_send none (suc (suc n)) response ≡ none)
      × (to_payload none (suc (suc n)) ≡ some [])
unfolding web_transaction_send to_payload
web_transaction_send_cases body n response = (
  ap (Option.map (λ bytes. send bytes response))
      (ap (read (length body)) (sym (append-nil body)) ∙ read-append body []),
  refl,
  refl,
  refl,
  refl,
)
