-- ===== src/Naive/Accepting.antt =====
-- What `AddOrder` does behind its checks, side by side: what it fills, and what it leaves on either
-- side of the book.
use order_book_matching_engi.Common.{
  ◌+◌, ◌-◌, ◌<◌, ◌≡◌, inl, inr, Bool, true, not, min, none, some, Option-cases, Bool-cases, List,
  [], ◌∷◌, ◌++◌, All, ap, ◌==◌, arith, if◌then◌else◌,
}
use order_book_matching_engi.Types.{Side, Price, is_buy, RejectReason, Order}
use order_book_matching_engi.Levels.{Levels, upsert}
use order_book_matching_engi.Naive.{
  PriceLevel, OrderBook, Node, queue, orders_of, on_side, fresh_level,
}
use order_book_matching_engi.Naive.Matching.{Incoming, match_levels}
use order_book_matching_engi.Naive.Matching.Quantities.{depth, traded, match_levels-remaining}
use order_book_matching_engi.Naive.Matching.Available.{
  AreTotalled, crossing_quantity, match_levels-traded,
}
use order_book_matching_engi.Naive.Sides.{AreResting, IsLevel, IsSide, IsSide-ArePriced}
use order_book_matching_engi.Naive.Books.{IsBook}
use order_book_matching_engi.Naive.Operations.{
  against, can_rest, reject_of, rejected_add, matched_book, accept_order, add_order, insert_resting,
  push_order,
}
use order_book_matching_engi.Naive.Placing.{place, rested, queue-upsert, depth-upsert}

AreTotalled-levels :
    (bids : Bool) (ls : Levels PriceLevel) → All (λ e. IsLevel bids e.0 e.1) ls → AreTotalled ls
AreTotalled-levels bids [] h = tt
AreTotalled-levels bids ((p, l) ∷ ls) h = (h.0.total, AreTotalled-levels bids ls h.1)

module _ (b : OrderBook) (a : Incoming) where
  pub add_order-rejected :
      (reason : RejectReason)
      → reject_of b a ≡ some reason
      → add_order b a ≡ (rejected_add reason, b)
  unfolding add_order
  add_order-rejected reason e = rw (e, add_order)

  pub add_order-accepted : reject_of b a ≡ none → add_order b a ≡ accept_order b a
  unfolding add_order
  add_order-accepted e = rw (e, add_order)

  -- An order is accepted only past every check.
  pub add_order-checked : (add_order b a).0.accepted ≡ true → reject_of b a ≡ none
  add_order-checked acc = elim (Option-cases (reject_of b a)) [
    | inl e ↦ e
    | inr (reason, e) ↦ absurd (cc (acc, ap (λ r. r.0.accepted) (add_order-rejected reason e)))
  ]

  -- What an accepted order was given.
  pub accept_order-filled :
      let (r, b') = accept_order b a in
      (r.accepted ≡ true)
      × (r.filled_quantity ≡ traded r.trades)
      × (r.filled_quantity ≡ min a.quantity (crossing_quantity a (against b a.side)))
      × (r.remaining_quantity ≡ (
          if can_rest a (a.quantity - r.filled_quantity)
          then a.quantity - r.filled_quantity
          else 0))
  unfolding accept_order
  accept_order-filled = ground (
    arith,
    match_levels-remaining b.symbol_id a (against b a.side) a.quantity b.index,
    match_levels-traded a b.symbol_id (against b a.side) a.quantity b.index,
  )

-- The orders of a well-formed side are open.
nodes-unfilled :
    (bids : Bool) (p : Price) (ns : List Node) (os : List Order)
    → AreResting bids p ns
    → All (λ o. 0 < o.remaining_quantity) os
    → All (λ o. 0 < o.remaining_quantity) (orders_of ns ++ os)
nodes-unfilled bids p [] os h k = k
nodes-unfilled bids p (n ∷ ns) os h k = (h.0.unfilled, nodes-unfilled bids p ns os h.1 k)

pub queue-unfilled :
    (bids : Bool) (ls : Levels PriceLevel)
    → All (λ e. IsLevel bids e.0 e.1) ls
    → All (λ o. 0 < o.remaining_quantity) (queue ls)
queue-unfilled bids [] h = tt
queue-unfilled bids ((p, l) ∷ ls) h =
    nodes-unfilled bids p l.orders (queue ls) h.0.resting (queue-unfilled bids ls h.1)

-- The side that an order trades against, in a well-formed book.
pub against-IsSide : (b : OrderBook) (s : Side) → IsBook b → IsSide (not (is_buy s)) (against b s)
against-IsSide b s h = elim (Bool-cases (is_buy s)) [ inl e ↦ rw e h.asks | inr e ↦ rw e h.bids ]

pub against-AreTotalled : (b : OrderBook) (s : Side) → IsBook b → AreTotalled (against b s)
against-AreTotalled b s h = AreTotalled-levels _ _ (against-IsSide b s h).levels

-- Matching and resting on the own side leave the opposite side as `Match` does.
pub accept_order-against :
    (b : OrderBook) (a : Incoming)
    → let m = match_levels b.symbol_id a (against b a.side) a.quantity b.index in
      let (r, b') = accept_order b a in (r.trades ≡ m.trades) × (against b' a.side ≡ m.levels)
unfolding accept_order matched_book insert_resting
accept_order-against b a = ground arith

-- Matching leaves the order's own side; what of it may rest is put there.
accept_order-own :
    (b : OrderBook) (a : Incoming)
    → let (r, b') = accept_order b a in
      on_side b' a.side ≡ (
        if r.remaining_quantity == 0
        then on_side b a.side
        else upsert
            (is_buy a.side)
            fresh_level
            (push_order a.price
              (record { it = b.next_node; order = rested b.symbol_id a r.remaining_quantity }))
            a.price
            (on_side b a.side))
unfolding accept_order matched_book insert_resting
accept_order-own b a =
    ground (arith, match_levels-remaining b.symbol_id a (against b a.side) a.quantity b.index)

on_side-IsSide : (b : OrderBook) (s : Side) → IsBook b → IsSide (is_buy s) (on_side b s)
on_side-IsSide b s h = elim (Bool-cases (is_buy s)) [ inl e ↦ rw e h.bids | inr e ↦ rw e h.asks ]

pub accept_order-place :
    (b : OrderBook) (a : Incoming)
    → IsBook b
    → let (r, b') = accept_order b a in
      queue (on_side b' a.side) ≡ (
        if r.remaining_quantity == 0
        then queue (on_side b a.side)
        else place
            (is_buy a.side)
            (rested b.symbol_id a r.remaining_quantity)
            (queue (on_side b a.side)))
accept_order-place b a h =
    let side = on_side-IsSide b a.side h in
    let left = (accept_order b a).0.remaining_quantity in
    ground (
      arith,
      accept_order-own b a,
      queue-upsert (is_buy a.side) (rested b.symbol_id a left) b.next_node (on_side b a.side)
          (IsSide-ArePriced _ _ side.levels) side.sorted,
    )

pub accept_order-depth :
    (b : OrderBook) (a : Incoming)
    → let (r, b') = accept_order b a in
      depth (on_side b' a.side) ≡ depth (on_side b a.side) + r.remaining_quantity
accept_order-depth b a =
    let left = (accept_order b a).0.remaining_quantity in
    ground (
      arith,
      accept_order-own b a,
      depth-upsert (is_buy a.side) (record { it = b.next_node; order = rested b.symbol_id a left })
          a.price (on_side b a.side),
    )
