-- ===== src/CInterface/Web.antt =====
-- The web functions of src/src/c/service.cpp: the HTTP server and its transactions, as C uses them.
pub mod Answering
use nil_service.Common.{
  ℕ, Bool, true, false, not, Option, none, some, List, [], ◌∷◌, ◌++◌, Bytes, read, length,
  get_elem?, ◌==◌,
}
use mathlib.Core.Option
use nil_service.Http.Server
use nil_service.Http.Server.{
  Response, Request, Server, Answers, get_route, set_content_type, send, use_ws, impl_on_get,
  impl_on_ready,
}
use nil_service.CInterface.Callbacks.{CallbackInfo}

-- The lambdas of `nil_service_web_on_get` and `nil_service_web_on_ready`.
pub data WebLambda : Type 0 where
  for_get for_ready : CallbackInfo → WebLambda

-- A server that C uses. A lambda is known to it by its place among those that were made.
pub record CWeb : Type 0 where
  pub server : Server
  pub lambdas : List WebLambda

unfoldable pub web_on_ready : CallbackInfo → CWeb → CWeb
web_on_ready info c = record {
  server = impl_on_ready (some (length c.lambdas)) c.server;
  lambdas = c.lambdas ++ for_ready info ∷ [];
}

unfoldable pub web_on_get : CallbackInfo → CWeb → CWeb
web_on_get info c = record {
  server = impl_on_get (some (length c.lambdas)) c.server;
  lambdas = c.lambdas ++ for_get info ∷ [];
}

-- The C functions for transactions: by name and context, the `int` that they return (as 32 bits) and
-- what they make of the response.
abbrev pub Exec : Type 0
Exec = ℕ → ℕ → Request → Response → ℕ × Response

-- The lambda of `nil_service_web_on_get`.
unfoldable pub run_get : Exec → Option ℕ → ℕ → Request → Response → Bool × Response
run_get run none context request response = (false, response)
run_get run (some exec) context request response =
    let (code, changed) = run exec context request response in (not (code == 0), changed)

unfoldable pub answer_of : Exec → Option WebLambda → Request → Response → Bool × Response
unfolding run_get
answer_of run (some (for_get info)) request response =
    run_get run info.exec info.context request response
answer_of run (some (for_ready info)) request response = (false, response)
answer_of run none request response = (false, response)

-- The handlers that the server has from C, by the places of their lambdas.
unfoldable pub answers : Exec → List WebLambda → Answers
unfolding answer_of
answers run ls cb request response = answer_of run (get_elem? cb ls) request response

-- A route that C may leave out; a number stands for "/".
abbrev pub root : ℕ
root = 47

unfoldable pub route_or_root : Option ℕ → ℕ
route_or_root none = root
route_or_root (some route) = route

-- A new WebSocket is at the addresses that are given.
unfoldable pub web_use_ws : Option ℕ → ℕ → ℕ → CWeb → CWeb
unfolding route_or_root
web_use_ws route this impl c = record c { server = use_ws (route_or_root route) this impl c.server }

unfoldable pub web_transaction_set_content_type : Option Bytes → Response → Response
web_transaction_set_content_type none response = response
web_transaction_set_content_type (some type) response = set_content_type type response

-- The bytes behind a pointer to a body, or behind "", which are a zero byte alone.
unfoldable pub body_memory : Option Bytes → Bytes
body_memory none = 0 ∷ []
body_memory (some memory) = memory

-- `none` is a read past the end of the memory.
unfoldable pub web_transaction_send : Option Bytes → ℕ → Response → Option Response
unfolding body_memory
web_transaction_send body n response =
    Option.map (λ bytes. send bytes response) (read n (body_memory body))

unfoldable pub web_transaction_get_route : Request → ℕ
web_transaction_get_route request = get_route request
