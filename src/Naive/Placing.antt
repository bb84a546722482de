-- ===== src/Naive/Placing.antt =====
-- Where `InsertResting` puts an order: behind all that are as good, before all that are worse.
use order_book_matching_engi.Common.{
  ℕ, ◌+◌, ◌≡◌, refl, ap, sym, subst, is_empty, ◌∙◌, Bool, true, false, All, List, [], ◌∷◌, ◌++◌,
  arith, Bool-cases, inl, inr, if◌then◌else◌, ◌==◌,
}
use order_book_matching_engi.Common.Int.{ltb_ℤ, eqb_ℤ, eqb_ℤ→eq}
use order_book_matching_engi.Types.{Price, Order, OrderStatus, Quantity}
use order_book_matching_engi.Levels.{Levels, upsert, precedes}
use order_book_matching_engi.Levels.Laws.{IsSorted, Precede, precedes-All}
use order_book_matching_engi.Naive.{Node, PriceLevel, fresh_level, orders_of, queue}
use order_book_matching_engi.Naive.Operations.{push_order}
use order_book_matching_engi.Naive.Matching.{Incoming}
use order_book_matching_engi.Naive.Matching.Priority.{ArePriced}
use order_book_matching_engi.Naive.Matching.Quantities.{depth, open_quantity}

-- An order's place in a queue: before the first order of a worse price, so last of its own price.
unfoldable pub place : Bool → Order → List Order → List Order
place bids o [] = o ∷ []
place bids o (x ∷ xs) =
    if if bids then ltb_ℤ x.price o.price else ltb_ℤ o.price x.price
    then o ∷ x ∷ xs
    else x ∷ place bids o xs

-- The order that an incoming one leaves behind, with `left` of it open.
abbrev pub rested : ℕ → Incoming → Quantity → Order
rested symbol a left = record {
  id = a.id;
  trader_id = a.trader_id;
  symbol_id = symbol;
  sequence_number = a.seq;
  timestamp = a.ts;
  price = a.price;
  quantity = a.quantity;
  remaining_quantity = left;
  side = a.side;
  type = a.type;
  time_in_force = a.time_in_force;
  status = if left == a.quantity then OrderStatus.new else OrderStatus.partially_filled;
}

orders_of-append :
    (ns ms : List Node) (os : List Order)
    → orders_of (ns ++ ms) ++ os ≡ orders_of ns ++ (orders_of ms ++ os)
orders_of-append [] ms os = refl
orders_of-append (n ∷ ns) ms os = ap (λ k. n.order ∷ k) (orders_of-append ns ms os)

module _ (bids : Bool) (o : Order) where
  -- Orders that are not worse stay ahead.
  place_behind :
      (p : Price) (ns : List Node) (os : List Order)
      → All (λ n. n.order.price ≡ p) ns
      → precedes bids o.price p ≡ false
      → place bids o (orders_of ns ++ os) ≡ orders_of ns ++ place bids o os
  unfolding place
  place_behind p [] os h k = refl
  place_behind p (n ∷ ns) os h k = ground (arith, place_behind p ns os h.1 k)

  -- Orders that are worse come behind.
  place_before :
      (p : Price) (ns : List Node) (os : List Order)
      → is_empty ns ≡ false
      → All (λ n. n.order.price ≡ p) ns
      → precedes bids o.price p ≡ true
      → place bids o (orders_of ns ++ os) ≡ o ∷ orders_of ns ++ os
  unfolding place
  place_before p [] os e h k = absurd (cc e)
  place_before p (n ∷ ns) os e h k = ground arith

  place_ahead :
      (ls : Levels PriceLevel)
      → ArePriced ls
      → Precede bids o.price ls
      → place bids o (queue ls) ≡ o ∷ queue ls
  place_ahead [] h k = unfold place in refl
  place_ahead ((p, l) ∷ ls) h k = place_before p l.orders (queue ls) h.0 h.1 k.0

  -- On a sorted side `InsertResting` puts the order at its place in the queue.
  pub queue-upsert :
      (it : ℕ) (ls : Levels PriceLevel)
      → ArePriced ls
      → IsSorted bids ls
      → queue
          (upsert bids fresh_level (push_order o.price (record { it = it; order = o })) o.price ls)
        ≡ place bids o (queue ls)
  unfolding upsert
  queue-upsert it [] h s = unfold place in refl
  queue-upsert it ((p, l) ∷ ls) h s = elim (Bool-cases (eqb_ℤ p o.price)) [
    | inl e ↦
        let n : Node = record { it = it; order = o } in
        rw e (
          orders_of-append l.orders (n ∷ []) (queue ls)
          ∙ sym (
              place_behind p l.orders (queue ls) h.1 (ground arith)
              ∙ ap (λ k. orders_of l.orders ++ k)
                  (place_ahead ls h.2 (subst (λ k. Precede bids k ls) (eqb_ℤ→eq p o.price e) s.0))))
    | inr e ↦ rw e (elim (Bool-cases (precedes bids o.price p)) [
      | inl k ↦ rw k (sym (place_ahead ((p, l) ∷ ls) h (k, precedes-All bids o.price p ls k s.0)))
      | inr k ↦ rw k (
          ap (λ q. orders_of l.orders ++ q) (queue-upsert it ls h.2 s.1)
          ∙ sym (place_behind p l.orders (queue ls) h.1 k))
    ])
  ]

pub open_quantity-append :
    (ns : List Node) (n : Node)
    → open_quantity (ns ++ (n ∷ [])) ≡ open_quantity ns + n.order.remaining_quantity
open_quantity-append [] n = omega arith
open_quantity-append (m ∷ ns) n = omega (arith, open_quantity-append ns n)

-- An order that comes to rest adds what is open of it to its side's depth.
pub depth-upsert :
    (bids : Bool) (n : Node) (p : Price) (ls : Levels PriceLevel)
    → depth (upsert bids fresh_level (push_order p n) p ls) ≡ depth ls + n.order.remaining_quantity
unfolding upsert
depth-upsert bids n p [] = omega arith
depth-upsert bids n p ((q, l) ∷ ls) =
    ground (arith, depth-upsert bids n p ls, open_quantity-append l.orders n)
