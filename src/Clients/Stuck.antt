-- ===== src/Clients/Stuck.antt =====
-- The loop of client/consumer/main.go after an error of `Recv`.
use go_pub_sub.Prelude.{ℕ, zero, suc, ◌≡◌, refl, sym, subst, Bool, true, false}
use go_pub_sub.Text.{Bytes}
use go_pub_sub.Go.{Error}
use go_pub_sub.Clients.{Client, Received, recv_failed, on_received, consume}

-- the connection after `n` calls of `Recv` and nothing else
abbrev pub recv_times : (K : Client) → ℕ → K.State → K.State
recv_times K zero s = s
recv_times K (suc n) s = recv_times K n (K.recv s).1

-- If `Recv` fails with an error other than io.EOF, and from then on always does, as it is with a
-- gRPC stream that has failed, then the consumer's loop never returns: in any number of rounds all
-- it does is to call `Recv` again. It acknowledges nothing and does not subscribe again.
pub stuck_after_error :
    (K : Client) (Broken : K.State → Type 0)
    → ((s : K.State)
        → Broken s
        → (e : Error) × (s' : K.State) × (K.recv s ≡ (recv_failed e, s')) × Broken s')
    → (n : ℕ) (group : Bytes) (s : K.State) → Broken s
    → consume K n group s ≡ (false, recv_times K n s)
unfolding consume on_received
stuck_after_error K Broken fails zero group s h = refl
stuck_after_error K Broken fails (suc n) group s h =
    let (e, s', failed, h') = fails s h in
    subst (λ x. from_received x ≡ (false, recv_times K n x.1)) (sym failed)
      (stuck_after_error K Broken fails n group s' h')
  where
    from_received : Received × K.State → Bool × K.State
    from_received x = elim (on_received K group x).0 [
      | true ↦ (true, (on_received K group x).1)
      | false ↦ consume K n group (on_received K group x).1
    ]
