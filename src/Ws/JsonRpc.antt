-- ===== src/Ws/JsonRpc.antt =====
-- The JSON-RPC library as far as task_ws.go calls it: the types and the functions of the package
-- jsonrpc, and the encoder of requests.
use wadjit.Prelude.{ℕ, String, Bool, Option, List, ◌⊎◌}
use wadjit.GoError.{GoError}

-- `Req` and `Resp` are the types of requests and responses, `Ident` that of the identifiers they can have.
pub record JsonRpc (Req Resp Ident : Type 0) : Type 0 where
  -- `&jsonrpc.Request{}`, and `UnmarshalJSON` into it
  pub new_request : Req
  pub unmarshal_request : List ℕ → Req ⊎ GoError
  pub request_empty : Req → Bool
  pub request_id : Req → Option Ident
  -- an assignment of a text to the request's identifier
  pub set_request_id : String → Req → Req
  -- the bytes may be nil
  pub marshal_request : Req → Option (List ℕ) ⊎ GoError
  pub decode_response : List ℕ → Resp ⊎ GoError
  pub response_empty : Resp → Bool
  pub id_string : Resp → String
  pub with_id : Option Ident → Resp → Resp ⊎ GoError
  pub marshal_response : Resp → List ℕ ⊎ GoError
