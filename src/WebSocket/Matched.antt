-- ===== src/WebSocket/Matched.antt =====
-- The two tables of the WebSocketController against the requests that made them.
use qt_network_protocol.Prelude.{
  ℕ, ◌≡◌, ◌∙◌, if◌then◌else◌, refl, List, [], ◌∷◌, Bool, true, false, ◌&&◌, ◌||◌, not, ◌==◌, nat_eq,
  lookup, member, IdSet, Dict, insert, set_insert, set_remove, ℕ_discrete, ap, arith, lookup-insert,
  member-set_insert, member-set_remove, ==_iff,
}
use qt_network_protocol.WebSocket.{WebSocketController, set_at, subscribe, unsubscribe, list}

-- Whether the table of items, and the table of subscribers, have the pair.
abbrev pub is_subscribed : ℕ → ℕ → WebSocketController → Bool
is_subscribed subscriber item c = member subscriber (set_at item c.subscribs)

abbrev pub has_item : ℕ → ℕ → WebSocketController → Bool
has_item subscriber item c = member item (set_at subscriber c.items)

set_at-insert :
    (k j : ℕ) (v : IdSet) (d : Dict ℕ IdSet)
    → set_at j (insert k v d) ≡ (if k == j then v else set_at j d)
unfolding set_at
set_at-insert k j v d = ground (arith, lookup-insert k j v d)

-- Entering the set that stands under the key already.
set_at-insert_self : (k j : ℕ) (d : Dict ℕ IdSet) → set_at j (insert k (set_at k d) d) ≡ set_at j d
set_at-insert_self k j d = elim (ℕ_discrete k j) [
  | yes e ↦ ground (arith, e, ap (λ x. set_at x d) e, ==_iff k j, set_at-insert k j (set_at k d) d)
  | no e ↦ ground (arith, e, ==_iff k j, set_at-insert k j (set_at k d) d)
]

-- Changing the set under one key by one element.
member_at-insert :
    (k j x y : ℕ) (d : Dict ℕ IdSet)
    → (member y (set_at j (insert k (set_insert x (set_at k d)) d))
        ≡ ((k == j && x == y) || member y (set_at j d)))
      × (member y (set_at j (insert k (set_remove x (set_at k d)) d))
          ≡ (not (k == j && x == y) && member y (set_at j d)))
member_at-insert k j x y d =
    let entered = ap (member y) (set_at-insert k j (set_insert x (set_at k d)) d) in
    let removed = ap (member y) (set_at-insert k j (set_remove x (set_at k d)) d) in
    elim (ℕ_discrete k j) [
      | yes e ↦
          let same = ap (λ x. member y (set_at x d)) e in
          ground (
            arith,
            e,
            same,
            entered,
            removed,
            ==_iff k j,
            member-set_insert x y (set_at k d),
            member-set_remove x y (set_at k d),
          )
      | no e ↦ ground (arith, e, entered, removed, ==_iff k j)
    ]

pub is_subscribed-subscribe :
    (s i subscriber item : ℕ) (c : WebSocketController)
    → (is_subscribed s i (subscribe subscriber item c)
        ≡ ((subscriber == s && item == i) || is_subscribed s i c))
      × (has_item s i (subscribe subscriber item c)
          ≡ ((subscriber == s && item == i) || has_item s i c))
unfolding subscribe
is_subscribed-subscribe s i subscriber item c = ground (
  arith,
  member_at-insert item i subscriber s c.subscribs,
  member_at-insert subscriber s item i c.items,
)

pub is_subscribed-unsubscribe :
    (s i subscriber item : ℕ) (c : WebSocketController)
    → (is_subscribed s i (unsubscribe subscriber item c)
        ≡ (not (subscriber == s && item == i) && is_subscribed s i c))
      × (has_item s i (unsubscribe subscriber item c)
          ≡ (not (subscriber == s && item == i) && has_item s i c))
unfolding unsubscribe
is_subscribed-unsubscribe s i subscriber item c = ground (
  arith,
  member_at-insert item i subscriber s c.subscribs,
  member_at-insert subscriber s item i c.items,
)

is_subscribed-list :
    (s i subscriber : ℕ) (c : WebSocketController)
    → (is_subscribed s i (list subscriber c).0 ≡ is_subscribed s i c)
      × (has_item s i (list subscriber c).0 ≡ has_item s i c)
unfolding list
is_subscribed-list s i subscriber c =
    (refl, ap (member i) (set_at-insert_self subscriber s c.items))

-- The calls of the controller that change its tables on a client's behalf.
pub data Request : Type 0 where
  subscribes unsubscribes : ℕ → ℕ → Request
  lists : ℕ → Request

unfoldable pub answer : Request → WebSocketController → WebSocketController
answer (subscribes s i) c = subscribe s i c
answer (unsubscribes s i) c = unsubscribe s i c
answer (lists s) c = (list s c).0

unfoldable pub answer_all : List Request → WebSocketController → WebSocketController
answer_all [] c = c
answer_all (r ∷ rs) c = answer_all rs (answer r c)

-- What a sequence of requests means for one subscriber and one item: the last one that names both
-- decides, and `before` where there is none.
unfoldable pub last_wins : List Request → ℕ → ℕ → Bool → Bool
last_wins [] s i before = before
last_wins (subscribes t j ∷ rs) s i before =
    last_wins rs s i (if t == s && j == i then true else before)
last_wins (unsubscribes t j ∷ rs) s i before =
    last_wins rs s i (if t == s && j == i then false else before)
last_wins (lists t ∷ rs) s i before = last_wins rs s i before

abbrev pub no_subscriptions : WebSocketController
no_subscriptions = record { subscribs = []; items = [] }

answer_all_from :
    (rs : List Request) (s i : ℕ) (c : WebSocketController) (before : Bool)
    → is_subscribed s i c ≡ before
    → has_item s i c ≡ before
    → (is_subscribed s i (answer_all rs c) ≡ last_wins rs s i before)
      × (has_item s i (answer_all rs c) ≡ last_wins rs s i before)
unfolding answer answer_all last_wins
answer_all_from [] s i c before h k = (h, k)
answer_all_from (subscribes t j ∷ rs) s i c before h k =
    let step = is_subscribed-subscribe s i t j c in
    answer_all_from rs s i (subscribe t j c) (if t == s && j == i then true else before)
      (ground (arith, step.0)) (ground (arith, step.1))
answer_all_from (unsubscribes t j ∷ rs) s i c before h k =
    let step = is_subscribed-unsubscribe s i t j c in
    answer_all_from rs s i (unsubscribe t j c) (if t == s && j == i then false else before)
      (ground (arith, step.0)) (ground (arith, step.1))
answer_all_from (lists t ∷ rs) s i c before h k =
    let step = is_subscribed-list s i t c in
    answer_all_from rs s i (list t c).0 before (step.0 ∙ h) (step.1 ∙ k)

-- After any sequence of requests from empty tables, both tables have a subscriber's subscription to
-- an item exactly if the last request that names both was to subscribe.
pub answer_all-last_wins :
    (rs : List Request) (s i : ℕ)
    → (is_subscribed s i (answer_all rs no_subscriptions) ≡ last_wins rs s i false)
      × (has_item s i (answer_all rs no_subscriptions) ≡ last_wins rs s i false)
unfolding set_at lookup member
answer_all-last_wins rs s i = answer_all_from rs s i no_subscriptions false refl refl
