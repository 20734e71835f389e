-- ===== src/Clients/Session.antt =====
-- A client of client/consumer/main.go or client/producer/main.go with a broker at the other end.
use go_pub_sub.Prelude.{ℕ, ◌≡◌, some, List, [], ◌∷◌, ◌⊎◌, inl, inr}
use go_pub_sub.Go.{Error, Result, ok, err, panic, internal_server_error}
use go_pub_sub.Storage.{Message, LogStorage}
use go_pub_sub.Broker.{Broker, AckRequest, PublishRequest, PublishResponse, ack, publish}
use go_pub_sub.Clients.{Client, got, end_of_stream}

-- What the client sees of a handler's result; the server's interceptors turn a panic into an error.
abbrev pub reply : Result PublishResponse → Error ⊎ PublishResponse
reply (ok r) = inr r
reply (err e) = inl e
reply panic = inl internal_server_error

-- A connection to a broker that serves nobody else meanwhile: `Recv` gives the messages that the
-- broker sent, in their order, and then io.EOF; an `Ack` and a `Publish` reach the broker, which
-- takes some time for its own.
pub record IsSession (K : Client) (L : LogStorage) : Type 0 where
  pub coming : K.State → List Message
  pub broker : K.State → Broker L
  pub recv_lem :
      (s : K.State) (m : Message) (ms : List Message)
      → coming s ≡ m ∷ ms
      → (s' : K.State) × (K.recv s ≡ (got m, s')) × (coming s' ≡ ms) × (broker s' ≡ broker s)
  pub end_lem :
      (s : K.State)
      → coming s ≡ []
      → (s' : K.State) × (K.recv s ≡ (end_of_stream, s')) × (broker s' ≡ broker s)
  pub ack_lem :
      (s : K.State) (req : AckRequest)
      → (coming (K.ack s req).1 ≡ coming s)
        × (broker (K.ack s req).1 ≡ (ack L (broker s) (some req)).1)
  pub publish_lem :
      (s : K.State) (req : PublishRequest)
      → (now : ℕ) × ((K.publish s req).0 ≡ reply (publish L now (broker s) (some req)).0)
        × (broker (K.publish s req).1 ≡ (publish L now (broker s) (some req)).1)
