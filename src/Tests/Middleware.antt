-- ===== src/Tests/Middleware.antt =====
-- The theorems on internal/middleware/interceptors.go, on the chain that the server builds.
use go_pub_sub.Prelude.{ℕ, suc, some, ◌≡◌, none, List, [], ◌∷◌}
use go_pub_sub.Text.{codes}
use go_pub_sub.Go.{Result, panic}
use go_pub_sub.Middleware.{Context, Handler, UnaryInterceptor, unary_recovery, unary_logging}
use go_pub_sub.Middleware.{recovered}
use go_pub_sub.Middleware.Server.{unary, stream, server_chains}

abbrev context : Context
context = record { authorization = codes "wrong" ∷ []; request_id = none }

abbrev panics : Handler ℕ (Result ℕ)
panics c r = panic

abbrev outer : List (UnaryInterceptor ℕ ℕ)
outer = unary_recovery ∷ []

abbrev inner : List (UnaryInterceptor ℕ ℕ)
inner = unary_logging (codes "id") ∷ []

-- a stream that counts what it sends, and its handler that panics after one more
abbrev sends_and_panics : Handler ℕ (Result (Unit {0}) × ℕ)
sends_and_panics c n = (panic, suc n)

server_chains_example :
    let ctx' = record context { request_id = some (codes "id") } in
    (unary (codes "id") context 3 panics ≡ recovered (panics ctx' 3))
    × (stream (codes "id") context 5 sends_and_panics
        ≡ (recovered (sends_and_panics ctx' 5).0, (sends_and_panics ctx' 5).1))
server_chains_example = server_chains (codes "id") context 3 5 panics sends_and_panics
