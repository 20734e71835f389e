-- ===== src/Broker/Subscribe/Cleanup.antt =====
-- The channels that a group's subscription of internal/broker/broker.go registers, and its
-- clean-up.
use go_pub_sub.Prelude.{
  ℕ, suc, ◌+◌, ◌≤◌, ◌≡◌, refl, sym, ap, ◌∙◌, subst, Bool, true, false, Option, none, some, List, [],
  ◌∷◌, ◌++◌, arith, ==_iff, if◌then◌else◌, length, append-nil,
}
use go_pub_sub.Text.{Bytes, bytes_eq, bytes_eq_iff}
use go_pub_sub.GoMap.{GoMap, get, put, get-put}
use go_pub_sub.Storage.{LogStorage}
use go_pub_sub.Broker.{Broker, Channel}
use go_pub_sub.Broker.Channels.{
  new_channel, or_nil, add_channel, without, remove_channel, unregister,
}
use go_pub_sub.Broker.Channels.Phases.{contains}
use go_pub_sub.Broker.Subscribe.{Registration, unregister_all}

-- the channels under a key
abbrev pub channels_at : Bytes → GoMap (List Channel) → List Channel
channels_at k subs = or_nil (get k subs)

-- the channels of a list of registrations that stand under a key
abbrev pub channels_of : Bytes → List Registration → List Channel
channels_of k [] = []
channels_of k (r ∷ regs) =
    if bytes_eq r.key k then new_channel r.channel ∷ channels_of k regs else channels_of k regs

-- The registrations have the channels from `n` on.
abbrev pub IsNumbered : ℕ → List Registration → Type 0
IsNumbered n [] = Unit {0}
IsNumbered n (r ∷ regs) = (r.channel ≡ n) × IsNumbered (suc n) regs

pub channels_at-add :
    (id : ℕ) (key k : Bytes) (subs : GoMap (List Channel))
    → channels_at k (add_channel id key subs)
      ≡ channels_at k subs ++ channels_of k (record { key = key; channel = id } ∷ [])
unfolding add_channel
channels_at-add id key k subs =
    ap or_nil (get-put key k (or_nil (get key subs) ++ new_channel id ∷ []) subs)
    ∙ by_key (bytes_eq key k) (bytes_eq_iff key k).0
  where
    by_key :
        (c : Bool)
        → (c ≡ true → key ≡ k)
        → or_nil (if c then some (or_nil (get key subs) ++ new_channel id ∷ []) else get k subs)
          ≡ channels_at k subs ++ (if c then new_channel id ∷ [] else [])
    by_key true same = ap (λ j. channels_at j subs ++ new_channel id ∷ []) (same refl)
    by_key false same = sym (append-nil (channels_at k subs))

channels_at-remove :
    (id : ℕ) (key k : Bytes) (subs : GoMap (List Channel))
    → channels_at k (remove_channel id key subs)
      ≡ (if bytes_eq key k then without id (channels_at k subs) else channels_at k subs)
unfolding remove_channel without
channels_at-remove id key k subs = at_ (get key subs) refl
  where
    at_ :
        (o : Option (List Channel))
        → get key subs ≡ o
        → channels_at k
            (elim o [ none ↦ subs | some channels ↦ put key (without id channels) subs ])
          ≡ (if bytes_eq key k then without id (channels_at k subs) else channels_at k subs)
    at_ none e = ground (arith, bytes_eq_iff key k)
    at_ (some channels) e =
        ground (arith, bytes_eq_iff key k, get-put key k (without id channels) subs)

pub channels_of-append :
    (k : Bytes) (xs ys : List Registration)
    → channels_of k (xs ++ ys) ≡ channels_of k xs ++ channels_of k ys
channels_of-append k [] ys = refl
channels_of-append k (r ∷ xs) ys = ground (arith, channels_of-append k xs ys)

pub IsNumbered-append :
    (n : ℕ) (xs ys : List Registration)
    → IsNumbered n xs
    → IsNumbered (n + length xs) ys
    → IsNumbered n (xs ++ ys)
IsNumbered-append n [] ys _ h = subst (λ i. IsNumbered i ys) (omega arith) h
IsNumbered-append n (r ∷ xs) ys (e, rest) h =
    (e, IsNumbered-append (suc n) xs ys rest (subst (λ i. IsNumbered i ys) (omega arith) h))

-- Taking the channels of some registrations out again, in any subscriber table that has them.
without-front :
    (id : ℕ) (old rest : List Channel)
    → contains id old ≡ false
    → without id (old ++ new_channel id ∷ rest) ≡ old ++ rest
unfolding without
without-front id [] rest h = ground (arith, ==_iff id id)
without-front id (ch ∷ old) rest h = ground (arith, without-front id old rest)

module _ (L : LogStorage) where
  pub unregister_all_lem :
      (k : Bytes) (n : ℕ) (old : List Channel) (regs : List Registration) (b : Broker L)
      → IsNumbered n regs
      → ((i : ℕ) → n ≤ i → contains i old ≡ false)
      → channels_at k b.subs ≡ old ++ channels_of k regs
      → channels_at k (unregister_all L regs b).subs ≡ old
  unfolding unregister_all unregister
  unregister_all_lem k n old [] b numbered fresh e = e ∙ append-nil old
  unregister_all_lem k n old (r ∷ regs) b (at_, numbered) fresh e =
      unregister_all_lem k (suc n) old regs (unregister L r.channel r.key b) numbered
        (λ i h. fresh i (omega arith)) (channels_at-remove r.channel r.key k b.subs ∙ ap_if ∙ taken)
    where
      ap_if :
          (if bytes_eq r.key k
            then without r.channel (channels_at k b.subs)
            else channels_at k b.subs)
          ≡ (if bytes_eq r.key k
              then without r.channel (old ++ channels_of k (r ∷ regs))
              else old ++ channels_of k (r ∷ regs))
      ap_if = ap (λ cs. if bytes_eq r.key k then without r.channel cs else cs) e

      taken :
          (if bytes_eq r.key k
            then without r.channel (old ++ channels_of k (r ∷ regs))
            else old ++ channels_of k (r ∷ regs))
          ≡ old ++ channels_of k regs
      taken =
          ground (
            arith,
            without-front r.channel old (channels_of k regs) (fresh r.channel (omega arith)),
          )
