-- ===== src/Middleware.antt =====
-- internal/middleware/interceptors.go: the unary and the stream interceptors and their chains. What
-- an interceptor logs is left out; the random request id is a parameter.
pub mod Chain
pub mod Server
use go_pub_sub.Prelude.{
  ℕ, zero, suc, Option, none, some, List, [], ◌∷◌, length, get_elem?, if◌then◌else◌,
}
use go_pub_sub.Text.{Bytes, codes, bytes_eq}
use go_pub_sub.Go.{Result, ok, err, panic, internal_server_error}

-- what the interceptors read and write of a context
pub record Context : Type 0 where
  pub authorization : List Bytes
  pub request_id : Option Bytes

abbrev pub recovered : {A : Type 0} → Result A → Result A
recovered (ok a) = ok a
recovered (err e) = err e
recovered panic = err internal_server_error

-- A unary handler takes a request to a `Result`; a stream's, the stream to an error or nil and the
-- stream behind it. A stream's context stands beside it, since the wrapper replaces it alone.
abbrev pub Handler : Type 0 → Type 0 → Type 0
Handler In Out = Context → In → Out

abbrev pub Interceptor : Type 0 → Type 0 → Type 0
Interceptor In Out = Context → In → Handler In Out → Out

abbrev pub UnaryInterceptor : Type 0 → Type 0 → Type 0
UnaryInterceptor Req Resp = Interceptor Req (Result Resp)

abbrev pub StreamInterceptor : Type 0 → Type 0
StreamInterceptor S = Interceptor S (Result (Unit {0}) × S)

module _ {Req Resp : Type 0} where
  unfoldable pub unary_logging : Bytes → UnaryInterceptor Req Resp
  unary_logging req_id ctx req handler = handler (record ctx { request_id = some req_id }) req

  -- a token that is wrong is only logged
  unfoldable pub unary_auth : UnaryInterceptor Req Resp
  unary_auth ctx req handler = elim ctx.authorization [
    | [] ↦ handler ctx req
    | token ∷ _ ↦ if bytes_eq token (codes "dev-token") then handler ctx req else handler ctx req
  ]

  unfoldable pub unary_recovery : UnaryInterceptor Req Resp
  unary_recovery ctx req handler = recovered (handler ctx req)

module _ {S : Type 0} where
  unfoldable pub stream_logging : Bytes → StreamInterceptor S
  stream_logging req_id ctx ss handler = handler (record ctx { request_id = some req_id }) ss

  -- a missing token is only logged
  unfoldable pub stream_auth : StreamInterceptor S
  stream_auth ctx ss handler = elim ctx.authorization [
    | [] ↦ handler ctx ss
    | _ ∷ _ ↦ handler ctx ss
  ]

  unfoldable pub stream_recovery : StreamInterceptor S
  stream_recovery ctx ss handler = let (r, ss') = handler ctx ss in (recovered r, ss')

module _ {In Out : Type 0} where
  -- one round: curr = func(c, r) { return ic(c, r, info, next) }
  abbrev pub wrap : Option (Interceptor In Out) → Handler In Out → Handler In Out
  wrap none next = next
  wrap (some ic) next = λ c r. ic c r next

  -- for i := len(interceptors) - 1; i >= 0; i--, with `n` rounds left
  unfoldable pub chain_loop : ℕ → List (Interceptor In Out) → Handler In Out → Handler In Out
  chain_loop zero interceptors curr = curr
  chain_loop (suc n) interceptors curr =
      chain_loop n interceptors (wrap (get_elem? interceptors n) curr)

unfoldable pub chain_unary_server :
    {Req Resp : Type 0} → List (UnaryInterceptor Req Resp) → UnaryInterceptor Req Resp
chain_unary_server [] ctx req handler = handler ctx req
chain_unary_server (ic ∷ ics) ctx req handler =
    chain_loop (length (ic ∷ ics)) (ic ∷ ics) handler ctx req

unfoldable pub chain_stream_server : {S : Type 0} → List (StreamInterceptor S) → StreamInterceptor S
chain_stream_server [] ctx ss handler = handler ctx ss
chain_stream_server (ic ∷ ics) ctx ss handler =
    chain_loop (length (ic ∷ ics)) (ic ∷ ics) handler ctx ss
