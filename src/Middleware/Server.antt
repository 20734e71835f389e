-- ===== src/Middleware/Server.antt =====
-- The chains of interceptors that cmd/server/main.go gives to the gRPC server.
use go_pub_sub.Prelude.{◌≡◌, refl, ap, some, List, [], ◌∷◌}
use go_pub_sub.Text.{Bytes}
use go_pub_sub.Go.{Result}
use go_pub_sub.Middleware.{
  Context, Handler, UnaryInterceptor, StreamInterceptor, recovered, unary_logging, unary_auth,
  unary_recovery, stream_logging, stream_auth, stream_recovery, chain_unary_server,
  chain_stream_server, chain_loop,
}
use go_pub_sub.Middleware.Chain.{auth_passes}

-- unary := middleware.ChainUnaryServer(...), for the request id that `NewMemberID` gives
unfoldable pub unary : {Req Resp : Type 0} → Bytes → UnaryInterceptor Req Resp
unary req_id = chain_unary_server (unary_recovery ∷ unary_auth ∷ unary_logging req_id ∷ [])

-- stream := middleware.ChainStreamServer(...)
unfoldable pub stream : {S : Type 0} → Bytes → StreamInterceptor S
stream req_id = chain_stream_server (stream_recovery ∷ stream_auth ∷ stream_logging req_id ∷ [])

module _ {S : Type 0} where
  stream_auth_passes :
      (ctx : Context) (ss : S) (h : Handler S (Result (Unit {0}) × S))
      → stream_auth ctx ss h ≡ h ctx ss
  unfolding stream_auth
  stream_auth_passes ctx ss h = by_tokens ctx.authorization
    where
      by_tokens :
          (tokens : List Bytes) → elim tokens [ [] ↦ h ctx ss | _ ∷ _ ↦ h ctx ss ] ≡ h ctx ss
      by_tokens [] = refl
      by_tokens (_ ∷ _) = refl

-- What the server's interceptors make of a call, unary or of a stream: the outcome of the handler
-- on the request or stream of the call, with the request id in its context. Only a panic is
-- changed: it becomes an error, with the stream as the handler left it. No token is refused.
pub server_chains :
    {Req Resp S : Type 0} (req_id : Bytes) (ctx : Context) (req : Req) (ss : S)
    (h : Handler Req (Result Resp)) (k : Handler S (Result (Unit {0}) × S))
    → let ctx' = record ctx { request_id = some req_id } in
      (unary req_id ctx req h ≡ recovered (h ctx' req))
      × (stream req_id ctx ss k ≡ (recovered (k ctx' ss).0, (k ctx' ss).1))
unfolding unary stream unary_recovery unary_logging stream_recovery stream_logging
    chain_unary_server chain_stream_server chain_loop
server_chains req_id ctx req ss h k = (
  ap recovered (auth_passes ctx req (λ c r. unary_logging req_id c r h)),
  ap (λ o. (recovered o.0, o.1)) (stream_auth_passes ctx ss (λ c s. stream_logging req_id c s k)),
)
