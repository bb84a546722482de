-- ===== src/Naive/Keeping.antt =====
-- A smaller quantity at the same price keeps an order's time priority.
use order_book_matching_engi.Common.{
  ℕ, ◌-◌, ◌<◌, ◌≤◌, ◌≡◌, refl, sym, ap, ◌∙◌, ◌==◌, Bool, true, false, some, Option-cases,
  Bool-cases, inl, inr, List, [], ◌∷◌, ◌++◌, arith,
}
use order_book_matching_engi.Common.Int.{ℤ, leb_ℤ, eqb_ℤ}
use order_book_matching_engi.Common.Words.{sub64}
use order_book_matching_engi.Common.Keyed
use order_book_matching_engi.Types.{
  Price, OrderId, Order, OrderStatus, RejectReason, Quantity, is_buy,
}
use order_book_matching_engi.Levels.{Levels, precedes, find, upsert}
use order_book_matching_engi.Levels.Laws.{IsSorted, find-upsert, find_before, precedes-All}
use order_book_matching_engi.Naive.{
  Node, PriceLevel, fresh_level, Locator, OrderBook, on_side, find_node, deref, find_order,
  orders_of, queue, all_resting_orders,
}
use order_book_matching_engi.Naive.Matching.Priority.{order_ids}
use order_book_matching_engi.Naive.Amend.{resize_node, amend_in_place, modify_found, modify_order}
use order_book_matching_engi.Naive.Books.{IsBook}

tail_order_ids :
    (xs os os' : List Order)
    → order_ids os ≡ order_ids os'
    → order_ids (xs ++ os) ≡ order_ids (xs ++ os')
tail_order_ids [] os os' h = h
tail_order_ids (x ∷ xs) os os' h = ap (◌∷◌ x.id) (tail_order_ids xs os os' h)

order_ids-append : (xs os : List Order) → order_ids (xs ++ os) ≡ order_ids xs ++ order_ids os
order_ids-append [] os = refl
order_ids-append (x ∷ xs) os = ap (◌∷◌ x.id) (order_ids-append xs os)

head_order_ids :
    (xs xs' os : List Order)
    → order_ids xs ≡ order_ids xs'
    → order_ids (xs ++ os) ≡ order_ids (xs' ++ os)
head_order_ids xs xs' os h =
    order_ids-append xs os ∙ ap (λ y. y ++ order_ids os) h ∙ sym (order_ids-append xs' os)

module _ (it : ℕ) (r size : Quantity) where
  find_node-resize_node :
      (ns : List Node) (o : Order)
      → find_node it ns ≡ some o
      → find_node it (resize_node it r size ns)
        ≡ some (record o { remaining_quantity = r; quantity = size })
  unfolding find_node resize_node
  find_node-resize_node [] o e = absurd cc
  find_node-resize_node (n ∷ ns) o e = ground (arith, find_node-resize_node ns o)

  resize_node-order_ids :
      (ns : List Node) (os os' : List Order)
      → order_ids os ≡ order_ids os'
      → order_ids (orders_of (resize_node it r size ns) ++ os) ≡ order_ids (orders_of ns ++ os')
  unfolding resize_node
  resize_node-order_ids [] os os' h = h
  resize_node-order_ids (n ∷ ns) os os' h = elim (Bool-cases (n.it == it)) [
    | inl t ↦ rw t (ap (◌∷◌ n.order.id) (tail_order_ids (orders_of ns) os os' h))
    | inr t ↦ rw t (ap (◌∷◌ n.order.id) (resize_node-order_ids ns os os' h))
  ]

module _ (bids : Bool) (p : Price) (it : ℕ) (delta r size : Quantity) where
  resized : PriceLevel → PriceLevel
  resized l = record l {
    total_quantity = sub64 l.total_quantity delta;
    orders = resize_node it r size l.orders;
  }

  order_ids-resized :
      (ls : Levels PriceLevel) (l : PriceLevel)
      → IsSorted bids ls
      → find p ls ≡ some l
      → order_ids (queue (upsert bids fresh_level resized p ls)) ≡ order_ids (queue ls)
  unfolding find upsert resized
  order_ids-resized [] l s e = absurd cc
  order_ids-resized ((q, w) ∷ ls) l s e = elim (Bool-cases (eqb_ℤ q p)) [
    | inl t ↦ rw t (resize_node-order_ids it r size w.orders (queue ls) (queue ls) refl)
    | inr t ↦
        let below : find p ls ≡ some l = rw t at e in
        rw t (elim (Bool-cases (precedes bids p q)) [
          | inl b ↦ absurd (cc (below, find_before bids p ls (precedes-All bids p q ls b s.0)))
          | inr b ↦
              rw b (tail_order_ids (orders_of w.orders) _ _ (order_ids-resized ls l s.1 below))
        ])
  ]

module _ (b : OrderBook) (loc : Locator) (o : Order) (new_quantity : Quantity) (h : IsBook b)
    (d : deref b loc ≡ some o) where
  amend_in_place-deref :
      deref (amend_in_place b loc o new_quantity) loc
      ≡ some (record o {
        remaining_quantity = new_quantity;
        quantity = sub64 o.quantity (o.remaining_quantity - new_quantity);
      })
  unfolding amend_in_place deref resized
  amend_in_place-deref = elim (Option-cases (find loc.price (on_side b loc.side))) [
    | inl f ↦ absurd cc
    | inr (l, f) ↦
        let there : find_node loc.it l.orders ≡ some o = cc in
        let delta = o.remaining_quantity - new_quantity in
        let size = sub64 o.quantity delta in
        ground (
          arith,
          find-upsert true fresh_level (resized true loc.price loc.it delta new_quantity size)
              loc.price loc.price b.bids h.bids.sorted,
          find-upsert false fresh_level (resized false loc.price loc.it delta new_quantity size)
              loc.price loc.price b.asks h.asks.sorted,
          find_node-resize_node loc.it new_quantity size l.orders o there,
        )
  ]

  amend_in_place-order_ids :
      order_ids (all_resting_orders (amend_in_place b loc o new_quantity))
      ≡ order_ids (all_resting_orders b)
  unfolding amend_in_place deref resized all_resting_orders
  amend_in_place-order_ids = elim (Option-cases (find loc.price (on_side b loc.side))) [
    | inl f ↦ absurd cc
    | inr (l, f) ↦
        let delta = o.remaining_quantity - new_quantity in
        let size = sub64 o.quantity delta in
        elim (Bool-cases (is_buy loc.side)) [
          | inl s ↦ rw s (
              head_order_ids
                (queue (
                  upsert true fresh_level (resized true loc.price loc.it delta new_quantity size)
                    loc.price b.bids))
                (queue b.bids) (queue b.asks)
                (order_ids-resized true loc.price loc.it delta new_quantity size b.bids l
                  h.bids.sorted (rw s at f)))
          | inr s ↦ rw s (
              tail_order_ids (queue b.bids)
                (queue (
                  upsert false fresh_level (resized false loc.price loc.it delta new_quantity size)
                    loc.price b.asks))
                (queue b.asks)
                (order_ids-resized false loc.price loc.it delta new_quantity size b.asks l
                  h.asks.sorted (rw s at f)))
        ]
  ]

amend_in_place-index :
    (b : OrderBook) (loc : Locator) (o : Order) (new_quantity : Quantity)
    → (amend_in_place b loc o new_quantity).index ≡ b.index
unfolding amend_in_place
amend_in_place-index b loc o new_quantity = ground arith

eqb_ℤ_refl : (p : Price) → eqb_ℤ p p ≡ true
eqb_ℤ_refl p = ground arith

-- On a well-formed book, `ModifyOrder` of an order at its own positive price to a positive quantity
-- that does not exceed what is open succeeds without a trade and without a loss of priority, and
-- answers with the new quantity as what remains: all
-- resting orders stay in their order, and this one has the new quantity open.
pub modify_order_keeps_priority :
    (b : OrderBook) (id : OrderId) (o : Order) (new_quantity seq ts : ℕ)
    → IsBook b
    → find_order b id ≡ some (some o)
    → leb_ℤ o.price (ℤ.pos 0) ≡ false
    → 0 < new_quantity
    → new_quantity ≤ o.remaining_quantity
    → (b' : OrderBook) × (modify_order b id o.price new_quantity seq ts
        ≡ some (
          record {
            success = true;
            reject_reason = RejectReason.none;
            lost_priority = false;
            final_status = OrderStatus.partially_filled;
            filled_quantity = 0;
            remaining_quantity = new_quantity;
            trades = [];
          },
          b',
        ))
      × (order_ids (all_resting_orders b') ≡ order_ids (all_resting_orders b))
      × (find_order b' id
          ≡ some (
              some (record o {
                remaining_quantity = new_quantity;
                quantity = sub64 o.quantity (o.remaining_quantity - new_quantity);
              })))
unfolding find_order modify_order modify_found
modify_order_keeps_priority b id o new_quantity seq ts h e p f g =
    elim (Option-cases (Keyed.find id b.index)) [
      | inl k ↦ absurd cc
      | inr (loc, k) ↦ elim (Option-cases (deref b loc)) [
        | inl d ↦ absurd cc
        | inr (o', d) ↦
            let same : o' ≡ o = cc in
            let there : deref b loc ≡ some o = cc in
            (
              amend_in_place b loc o new_quantity,
              ground (arith, eqb_ℤ_refl o.price, there),
              amend_in_place-order_ids b loc o new_quantity h there,
              ground (
                arith,
                ap (Keyed.find id) (amend_in_place-index b loc o new_quantity),
                amend_in_place-deref b loc o new_quantity h there,
              ),
            )
      ]
    ]
