-- ===== src/WebSocket/Changed.antt =====
-- What handleItemChanged does to the subscriptions.
use qt_network_protocol.Prelude.{
  ℕ, ◌≡◌, ◌≢◌, ◌⊎◌, inl, inr, refl, ap, ◌∙◌, List, [], ◌∷◌, true, false, member, arith, ℕ_discrete,
  Bool-cases, ==_iff,
}
use qt_network_protocol.WebSocket.{
  WebSocketController, set_at, unsubscribe, Item, Host, is_allowed, notify, foreach_subscribers,
  handle_item_changed,
}
use qt_network_protocol.WebSocket.Matched.{is_subscribed, is_subscribed-unsubscribe}

module _ {N : Type 0} (host : Host N) where
  -- In whatever state the node is, the subscriber may read the item and the sending succeeds.
  abbrev pub IsServed : Item → ℕ → Type 0
  IsServed item s =
      (n : N)
      → ((is_allowed host item s n).1 ≡ true)
        × ((host.send item s (is_allowed host item s n).0).1 ≢ 0)

  -- In whatever state the node is, the subscriber may not read the item or the sending fails.
  abbrev pub IsUnserved : Item → ℕ → Type 0
  IsUnserved item s =
      (n : N)
      → ((is_allowed host item s n).1 ≡ false)
        ⊎ ((host.send item s (is_allowed host item s n).0).1 ≡ 0)

  notify_cases :
      (item : Item) (s : ℕ) (n : N) (c : WebSocketController)
      → ((notify host item s (n, c)).1 ≡ c)
        ⊎ ((notify host item s (n, c)).1 ≡ unsubscribe s item.subscribe_id c)
  unfolding notify
  notify_cases item s n c = ground arith

  notify_served :
      (item : Item) (s : ℕ) (n : N) (c : WebSocketController)
      → IsServed item s
      → (notify host item s (n, c)).1 ≡ c
  unfolding notify
  notify_served item s n c h = ground (arith, h n)

  notify_unserved :
      (item : Item) (s : ℕ) (n : N) (c : WebSocketController)
      → IsUnserved item s
      → (notify host item s (n, c)).1 ≡ unsubscribe s item.subscribe_id c
  unfolding notify
  notify_unserved item s n c h = ground (arith, h n)

  -- Telling one subscriber leaves another pair alone.
  notify_other :
      (item : Item) (t s i : ℕ) (n : N) (c : WebSocketController)
      → (t ≢ s) ⊎ (item.subscribe_id ≢ i)
      → is_subscribed s i (notify host item t (n, c)).1 ≡ is_subscribed s i c
  notify_other item t s i n c h = elim (notify_cases item t n c) [
    | inl e ↦ ap (is_subscribed s i) e
    | inr e ↦
        ap (is_subscribed s i) e
        ∙ ground (arith, (is_subscribed-unsubscribe s i t item.subscribe_id c).0)
  ]

  notify_keeps :
      (item : Item) (t s i : ℕ) (n : N) (c : WebSocketController)
      → (item.subscribe_id ≢ i) ⊎ IsServed item s
      → is_subscribed s i (notify host item t (n, c)).1 ≡ is_subscribed s i c
  notify_keeps item t s i n c (inl e) = notify_other item t s i n c (inr e)
  notify_keeps item t s i n c (inr h) = elim (ℕ_discrete t s) [
    | yes e ↦
        ap (λ x. is_subscribed s i (notify host item x (n, c)).1) e
        ∙ ap (is_subscribed s i) (notify_served item s n c h)
    | no e ↦ notify_other item t s i n c (inl e)
  ]

  notify_stays :
      (item : Item) (t s : ℕ) (n : N) (c : WebSocketController)
      → is_subscribed s item.subscribe_id c ≡ false
      → is_subscribed s item.subscribe_id (notify host item t (n, c)).1 ≡ false
  notify_stays item t s n c h = elim (notify_cases item t n c) [
    | inl e ↦ ap (is_subscribed s item.subscribe_id) e ∙ h
    | inr e ↦
        ap (is_subscribed s item.subscribe_id) e
        ∙ ground (arith, (is_subscribed-unsubscribe s item.subscribe_id t item.subscribe_id c).0)
  ]

  notify_drops :
      (item : Item) (s : ℕ) (n : N) (c : WebSocketController)
      → IsUnserved item s
      → is_subscribed s item.subscribe_id (notify host item s (n, c)).1 ≡ false
  notify_drops item s n c h =
      ap (is_subscribed s item.subscribe_id) (notify_unserved item s n c h)
      ∙ ground (arith, (is_subscribed-unsubscribe s item.subscribe_id s item.subscribe_id c).0)

  foreach_keeps :
      (item : Item) (ts : List ℕ) (s i : ℕ) (n : N) (c : WebSocketController)
      → (item.subscribe_id ≢ i) ⊎ IsServed item s
      → is_subscribed s i (foreach_subscribers host item ts (n, c)).1 ≡ is_subscribed s i c
  unfolding foreach_subscribers
  foreach_keeps item [] s i n c h = refl
  foreach_keeps item (t ∷ ts) s i n c h =
      let (m, d) = notify host item t (n, c) in
      foreach_keeps item ts s i m d h ∙ notify_keeps item t s i n c h

  foreach_drops :
      (item : Item) (ts : List ℕ) (s : ℕ) (n : N) (c : WebSocketController)
      → IsUnserved item s
      → (member s ts ≡ true) ⊎ (is_subscribed s item.subscribe_id c ≡ false)
      → is_subscribed s item.subscribe_id (foreach_subscribers host item ts (n, c)).1 ≡ false
  unfolding foreach_subscribers member
  foreach_drops item [] s n c h (inl e) = ground arith
  foreach_drops item [] s n c h (inr e) = e
  foreach_drops item (t ∷ ts) s n c h e =
      let (m, d) = notify host item t (n, c) in
      foreach_drops item ts s m d h (elim (ℕ_discrete t s) [
        | yes e' ↦ inr (
            ap (λ x. is_subscribed s item.subscribe_id (notify host item x (n, c)).1) e'
            ∙ notify_drops item s n c h)
        | no e' ↦ elim e [
          | inl e ↦ inl (ground (arith, ==_iff t s))
          | inr e ↦ inr (notify_stays item t s n c e)
        ]
      ])

  -- When an item has changed: a subscriber of it that cannot be served is not subscribed to it any
  -- more, and all other subscriptions are as before: those to another item, whoever has them, and
  -- those of a subscriber that is served.
  pub handle_item_changed_lem :
      (item : Item) (s i : ℕ) (n : N) (c : WebSocketController)
      → (IsUnserved item s
          → is_subscribed s item.subscribe_id (handle_item_changed host item (n, c)).1 ≡ false)
        × ((item.subscribe_id ≢ i) ⊎ IsServed item s
            → is_subscribed s i (handle_item_changed host item (n, c)).1 ≡ is_subscribed s i c)
  unfolding handle_item_changed
  handle_item_changed_lem item s i n c = (
    (λ h.
        foreach_drops item (set_at item.subscribe_id c.subscribs) s n c h
          (Bool-cases (is_subscribed s item.subscribe_id c))),
    foreach_keeps item (set_at item.subscribe_id c.subscribs) s i n c,
  )
