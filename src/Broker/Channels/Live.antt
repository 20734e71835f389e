-- ===== src/Broker/Channels/Live.antt =====
-- What each change of the channels in internal/broker/broker.go keeps: those under a key are
-- attached to it.
use go_pub_sub.Prelude.{
  ℕ, ◌≡◌, ◌≢◌, refl, sym, ap, ◌∙◌, subst, true, false, Option, none, some, List, [], ◌∷◌, ◌++◌, map,
  arith, ==_iff, Bool-cases, inl, inr,
}
use go_pub_sub.Text.{Bytes, bytes_eq, bytes_eq_iff}
use go_pub_sub.GoMap.{GoMap, get, put, get-put}
use go_pub_sub.Storage.{Message}
use go_pub_sub.Broker.{Channel, offer, fan_out}
use go_pub_sub.Broker.Channels.{new_channel, or_nil, add_channel, without, remove_channel}
use go_pub_sub.Broker.Channels.Phases.{
  Phase, unused, attached, detached, set_phase, contains, IsLive, AllLive, map-IsLive,
  not_contained, set_phase-IsLive, without-IsLive, append-IsLive,
}

put-AllLive :
    (phase : ℕ → Phase) (key : Bytes) (v : List Channel) (subs : GoMap (List Channel))
    → IsLive phase key v
    → ((k : Bytes) (channels : List Channel)
        → key ≢ k
        → get k subs ≡ some channels
        → IsLive phase k channels)
    → AllLive phase (put key v subs)
put-AllLive phase key v subs new old k channels e = elim (Bool-cases (bytes_eq key k)) [
  | inl same ↦
      subst (λ j. IsLive phase j channels) ((bytes_eq_iff key k).0 same)
        (subst (IsLive phase key) (some_injective (sym (get-put key k v subs ∙ simp same refl) ∙ e))
          new)
  | inr other ↦
      old k channels (λ q. differ (sym other ∙ (bytes_eq_iff key k).1 q))
        (sym (get-put key k v subs ∙ simp other refl) ∙ e)
]
  where
    some_injective : {x y : List Channel} → some x ≡ some y → x ≡ y
    some_injective q = cc

    differ : false ≡ true → ⊥
    differ q = cc

attached_injective : {k j : Bytes} → attached k ≡ attached j → k ≡ j
attached_injective e = cc

module _ (phase : ℕ → Phase) (subs : GoMap (List Channel)) (live : AllLive phase subs) where
  -- A change of one key's channels that keeps them live.
  pub update-AllLive :
      (f : List Channel → List Channel) (key : Bytes)
      → ((channels : List Channel) → IsLive phase key channels → IsLive phase key (f channels))
      → AllLive phase
          (elim (get key subs) [ none ↦ subs | some channels ↦ put key (f channels) subs ])
  update-AllLive f key keeps = at_ (get key subs) refl
    where
      at_ :
          (o : Option (List Channel))
          → get key subs ≡ o
          → AllLive phase (elim o [ none ↦ subs | some channels ↦ put key (f channels) subs ])
      at_ none e = live
      at_ (some channels) e =
          put-AllLive phase key (f channels) subs (keeps channels (live key channels e))
            (λ k chs _. live k chs)

  pub add_channel-AllLive :
      (id : ℕ) (key : Bytes)
      → phase id ≡ unused
      → AllLive (set_phase id (attached key) phase) (add_channel id key subs)
  unfolding add_channel
  add_channel-AllLive id key fresh =
      put-AllLive _ key _ subs (new_list (get key subs) refl)
        (λ k channels _ e. moved k channels (live k channels e))
    where
      absent :
          (k : Bytes) (channels : List Channel)
          → IsLive phase k channels
          → contains id channels ≡ false
      absent k channels h = not_contained phase k id channels h (λ q. clash fresh q)
        where
          clash : {p : Phase} → p ≡ unused → p ≡ attached k → ⊥
          clash a b = cc

      moved :
          (k : Bytes) (channels : List Channel)
          → IsLive phase k channels
          → IsLive (set_phase id (attached key) phase) k channels
      moved k channels h =
          set_phase-IsLive phase k id (attached key) channels h (absent k channels h)

      now_attached : set_phase id (attached key) phase id ≡ attached key
      now_attached = ground (arith, ==_iff id id)

      new_list :
          (o : Option (List Channel))
          → get key subs ≡ o
          → IsLive (set_phase id (attached key) phase) key (or_nil o ++ new_channel id ∷ [])
      new_list none e = (now_attached, refl, tt)
      new_list (some channels) e =
          append-IsLive _ key id channels now_attached (moved key channels (live key channels e))
            (absent key channels (live key channels e))

  pub detach-AllLive :
      (id : ℕ) (p : Phase)
      → ((k : Bytes) (channels : List Channel)
          → get k subs ≡ some channels
          → contains id channels ≡ false)
      → AllLive (set_phase id p phase) subs
  detach-AllLive id p away k channels e =
      set_phase-IsLive phase k id p channels (live k channels e) (away k channels e)

  pub remove_channel-AllLive :
      (id : ℕ) (key : Bytes)
      → phase id ≡ attached key
      → AllLive (set_phase id detached phase) (remove_channel id key subs)
  unfolding remove_channel
  remove_channel-AllLive id key at_id = at_ (get key subs) refl
    where
      elsewhere :
          (k : Bytes) (channels : List Channel)
          → key ≢ k
          → get k subs ≡ some channels
          → contains id channels ≡ false
      elsewhere k channels differ e =
          not_contained phase k id channels (live k channels e)
            (λ q. differ (attached_injective (sym at_id ∙ q)))

      nowhere :
          get key subs ≡ none
          → (k : Bytes) (channels : List Channel) → get k subs ≡ some channels
          → contains id channels ≡ false
      nowhere missing k channels e =
          elsewhere k channels (λ q. clash (ap (λ j. get j subs) q) missing e) e
        where
          clash : {a b : Option (List Channel)} → a ≡ b → a ≡ none → b ≡ some channels → ⊥
          clash x y z = cc

      at_ :
          (o : Option (List Channel))
          → get key subs ≡ o
          → AllLive
              (set_phase id detached phase)
              (elim o [ none ↦ subs | some channels ↦ put key (without id channels) subs ])
      at_ none e = detach-AllLive id detached (nowhere e)
      at_ (some channels) e =
          let (left, gone) = without-IsLive phase key id channels (live key channels e) in
          put-AllLive _ key (without id channels) subs
            (set_phase-IsLive phase key id detached (without id channels) left gone)
            (λ k chs differ q.
              set_phase-IsLive phase k id detached chs (live k chs q) (elsewhere k chs differ q))

pub fan_out-AllLive :
    (phase : ℕ → Phase) (m : Message) (key : Bytes) (subs : GoMap (List Channel))
    → AllLive phase subs
    → AllLive phase (fan_out m key subs)
unfolding fan_out
fan_out-AllLive phase m key subs live =
    update-AllLive phase subs live (map (offer m)) key
      (λ channels. map-IsLive (offer m) (λ ch. ground arith) phase key channels)
