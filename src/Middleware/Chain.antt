-- ===== src/Middleware/Chain.antt =====
-- The order in which `ChainUnaryServer` of internal/middleware/interceptors.go runs interceptors.
use go_pub_sub.Prelude.{
  ℕ, zero, suc, ◌≡◌, ◌≢◌, refl, sym, ap, ◌∙◌, List, [], ◌∷◌, ◌++◌, length, get_elem?, true, false,
  if◌then◌else◌, Bool,
}
use go_pub_sub.Text.{Bytes, bytes_eq, codes}
use go_pub_sub.Go.{Result, ok, err, panic}
use go_pub_sub.Middleware.{
  Context, Handler, Interceptor, UnaryInterceptor, recovered, unary_auth, unary_recovery, wrap,
  chain_loop, chain_unary_server,
}

module _ {In Out : Type 0} where
  -- The first interceptor is around the rest.
  pub chain_loop-cons :
      (n : ℕ) (ic : Interceptor In Out) (ics : List (Interceptor In Out)) (h : Handler In Out)
      → chain_loop (suc n) (ic ∷ ics) h ≡ (λ c r. ic c r (chain_loop n ics h))
  unfolding chain_loop
  chain_loop-cons zero ic ics h = refl
  chain_loop-cons (suc n) ic ics h = chain_loop-cons n ic ics (wrap (get_elem? ics n) h)

module _ {Req Resp : Type 0} where
  pub chain_cons :
      (ic : UnaryInterceptor Req Resp) (ics : List (UnaryInterceptor Req Resp)) (ctx : Context)
      (req : Req) (h : Handler Req (Result Resp))
      → chain_unary_server (ic ∷ ics) ctx req h ≡ ic ctx req (λ c r. chain_unary_server ics c r h)
  unfolding chain_unary_server chain_loop
  chain_cons ic [] ctx req h = ap (λ k. k ctx req) (chain_loop-cons 0 ic [] h)
  chain_cons ic (x ∷ ics) ctx req h =
      ap (λ k. k ctx req) (chain_loop-cons (length (x ∷ ics)) ic (x ∷ ics) h)

  -- A chain of two lists is the chain of the first around the chain of the second: interceptors run
  -- in the given order.
  pub chain-append :
      (xs ys : List (UnaryInterceptor Req Resp)) (ctx : Context) (req : Req)
      (h : Handler Req (Result Resp))
      → chain_unary_server (xs ++ ys) ctx req h
        ≡ chain_unary_server xs ctx req (λ c r. chain_unary_server ys c r h)
  unfolding chain_unary_server
  chain-append [] ys ctx req h = refl
  chain-append (ic ∷ xs) ys ctx req h =
      chain_cons ic (xs ++ ys) ctx req h
      ∙ ap (ic ctx req) (λ i c r. chain-append xs ys c r h i)
      ∙ sym (chain_cons ic xs ctx req (λ c r. chain_unary_server ys c r h))

  -- With the recovery first, no panic of a later interceptor or of the handler leaves the chain.
  pub recovery_no_panic :
      (ics : List (UnaryInterceptor Req Resp)) (ctx : Context) (req : Req)
      (h : Handler Req (Result Resp))
      → chain_unary_server (unary_recovery ∷ ics) ctx req h ≢ panic
  unfolding unary_recovery
  recovery_no_panic ics ctx req h e =
      no_panic (chain_unary_server ics ctx req h)
        (sym (chain_cons unary_recovery ics ctx req h) ∙ e)
    where
      no_panic : (r : Result Resp) → recovered r ≢ panic
      no_panic (ok a) q = cc
      no_panic (err x) q = cc
      no_panic panic q = cc

  pub auth_passes :
      (ctx : Context) (req : Req) (h : Handler Req (Result Resp)) → unary_auth ctx req h ≡ h ctx req
  unfolding unary_auth
  auth_passes ctx req h = by_tokens ctx.authorization
    where
      same : (b : Bool) → (if b then h ctx req else h ctx req) ≡ h ctx req
      same true = refl
      same false = refl

      by_tokens :
          (tokens : List Bytes)
          → elim tokens [
            | [] ↦ h ctx req
            | token ∷ _ ↦ if bytes_eq token (codes "dev-token") then h ctx req else h ctx req
          ]
            ≡ h ctx req
      by_tokens [] = refl
      by_tokens (token ∷ _) = same (bytes_eq token (codes "dev-token"))

  -- The authorization interceptor never refuses: a chain with it, at any place, does what the chain
  -- without it does, whatever token a request brings.
  pub auth_admits :
      (xs ys : List (UnaryInterceptor Req Resp)) (ctx : Context) (req : Req)
      (h : Handler Req (Result Resp))
      → chain_unary_server (xs ++ unary_auth ∷ ys) ctx req h
        ≡ chain_unary_server (xs ++ ys) ctx req h
  auth_admits xs ys ctx req h =
      chain-append xs (unary_auth ∷ ys) ctx req h
      ∙ ap (chain_unary_server xs ctx req) (λ i c r.
        (chain_cons unary_auth ys c r h ∙ auth_passes c r (λ d q. chain_unary_server ys d q h)) i)
      ∙ sym (chain-append xs ys ctx req h)
