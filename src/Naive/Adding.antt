-- ===== src/Naive/Adding.antt =====
-- `AddOrder` of the reference book: what it answers, branch by branch, and what it leaves.
use order_book_matching_engi.Common.{
  ◌+◌, ◌-◌, ◌^◌, ◌≤◌, ◌≡◌, ◌⊎◌, inl, inr, refl, ltb, true, false, min, none, some, Option-cases, [],
  All, ap, ◌==◌, ◌&&◌, ◌%◌, arith, if◌then◌else◌, length, take,
}
use order_book_matching_engi.Types.{
  TimeInForce, is_buy, is_limit, is_good_till_cancel, is_fill_or_kill, RejectReason,
}
use order_book_matching_engi.Naive.{OrderBook, queue, on_side}
use order_book_matching_engi.Naive.Matching.{Incoming, available_from, price_crosses}
use order_book_matching_engi.Naive.Matching.Quantities.{depth, traded, match_levels-depth}
use order_book_matching_engi.Naive.Matching.Priority.{
  walk, walk_trades, IsTradeOf, resting_ids, order_ids, match_levels-walk, walk_takes_first,
}
use order_book_matching_engi.Naive.Matching.Available.{
  crossing_quantity, available-crossing_quantity,
}
use order_book_matching_engi.Naive.Sides.{IsSide-ArePriced}
use order_book_matching_engi.Naive.Books.{IsBook}
use order_book_matching_engi.Naive.Operations.{against, reject_of, add_order}
use order_book_matching_engi.Naive.Placing.{place, rested}
use order_book_matching_engi.Naive.Accepting.{
  add_order-rejected, add_order-accepted, add_order-checked, accept_order-filled, queue-unfilled,
  against-IsSide, against-AreTotalled, accept_order-against, accept_order-place, accept_order-depth,
}

fill_or_kill-filled :
    (b : OrderBook) (a : Incoming)
    → IsBook b
    → is_fill_or_kill a.time_in_force ≡ true
    → reject_of b a ≡ none
    → a.quantity ≤ crossing_quantity a (against b a.side)
unfolding reject_of
fill_or_kill-filled b a h f e =
    ground
      (arith, available-crossing_quantity a (against b a.side) (against-AreTotalled b a.side h))

-- A fill-or-kill order on a well-formed book is filled in full and leaves nothing, or it is refused,
-- trades nothing and leaves the book as it was.
pub fill_or_kill_all_or_nothing :
    (b : OrderBook) (a : Incoming)
    → IsBook b
    → is_fill_or_kill a.time_in_force ≡ true
    → let (r, b') = add_order b a in
      ((r.accepted ≡ true)
        × (r.filled_quantity ≡ a.quantity)
        × (traded r.trades ≡ a.quantity)
        × (r.remaining_quantity ≡ 0))
      ⊎ ((r.accepted ≡ false) × (r.trades ≡ []) × (b' ≡ b))
fill_or_kill_all_or_nothing b a h f = elim (Option-cases (reject_of b a)) [
  | inl e ↦
      rw (add_order-accepted b a e)
        (inl (ground (arith, accept_order-filled b a, fill_or_kill-filled b a h f e)))
  | inr (reason, e) ↦ rw (add_order-rejected b a reason e) (inr (refl, refl, refl))
]

-- On a well-formed book the trades of an accepted order are those of a walk along the opposite side's
-- queue, best price first and in the queue's order within a price, each at the resting order's price;
-- the walk also leaves that queue as the book's, and the orders that trade are the first of it, each
-- once and in its order. What remains of the order, if anything, stands in the queue of its own side
-- before the first order of a worse price, so behind all older ones of its price; nothing else of that
-- queue changes.
pub add_order_priority :
    (b : OrderBook) (a : Incoming)
    → IsBook b
    → (add_order b a).0.accepted ≡ true
    → let (r, b') = add_order b a in
      (r.trades ≡ (walk b.symbol_id a (queue (against b a.side)) a.quantity).trades)
      × (queue (against b' a.side)
          ≡ (walk b.symbol_id a (queue (against b a.side)) a.quantity).left)
      × (resting_ids r.trades ≡ take (length r.trades) (order_ids (queue (against b a.side))))
      × (queue (on_side b' a.side) ≡ (
          if r.remaining_quantity == 0
          then queue (on_side b a.side)
          else place
              (is_buy a.side)
              (rested b.symbol_id a r.remaining_quantity)
              (queue (on_side b a.side))))
add_order_priority b a h acc = rw (add_order-accepted b a (add_order-checked b a acc)) (
    ground (
      arith,
      accept_order-against b a,
      match_levels-walk b.symbol_id a (against b a.side) a.quantity b.index
          (IsSide-ArePriced _ _ (against-IsSide b a.side h).levels),
      walk_takes_first b.symbol_id a (queue (against b a.side)) a.quantity,
      accept_order-place b a h,
    ))

-- `AddOrder` fills an order that it accepts up to what is within its limit, the quantity filled is
-- that of its trades, and the opposite side's depth falls by it. The rest remains for a good-till-cancel
-- limit order and for no other, and the own side's depth grows by what remains.
pub add_order-quantities :
    (b : OrderBook) (a : Incoming)
    → (add_order b a).0.accepted ≡ true
    → let (r, b') = add_order b a in
      (r.filled_quantity ≡ min a.quantity (crossing_quantity a (against b a.side)))
      × (traded r.trades ≡ r.filled_quantity)
      × (depth (against b' a.side) + r.filled_quantity ≡ depth (against b a.side))
      × (r.remaining_quantity ≡ (
          if is_limit a.type && is_good_till_cancel a.time_in_force
          then a.quantity - r.filled_quantity
          else 0))
      × (depth (on_side b' a.side) ≡ depth (on_side b a.side) + r.remaining_quantity)
add_order-quantities b a acc = rw (add_order-accepted b a (add_order-checked b a acc)) (
    ground (
      arith,
      accept_order-filled b a,
      accept_order-against b a,
      match_levels-depth b.symbol_id a (against b a.side) a.quantity b.index,
      accept_order-depth b a,
    ))

-- On a well-formed book every trade of `AddOrder` is at a price within the incoming order's limit, of
-- a positive quantity, and names the incoming order as its aggressor.
pub add_order-IsTradeOf :
    (b : OrderBook) (a : Incoming) → IsBook b → All (IsTradeOf a) (add_order b a).0.trades
add_order-IsTradeOf b a h = elim (Option-cases (reject_of b a)) [
  | inl e ↦
      rw
        (
          add_order-accepted b a e,
          (accept_order-against b a).0,
          ← (
              ap (λ w. w.trades)
                (match_levels-walk b.symbol_id a (against b a.side) a.quantity b.index
                  (IsSide-ArePriced _ _ (against-IsSide b a.side h).levels))),
        )
        (walk_trades b.symbol_id a _ a.quantity
          (queue-unfilled _ _ (against-IsSide b a.side h).levels))
  | inr (reason, e) ↦ rw (add_order-rejected b a reason e) tt
]

-- On a well-formed book a fill-or-kill order that would be let in as immediate-or-cancel is refused
-- exactly if the crossing liquidity modulo 2 ^ 64 is short of its quantity: so also when the
-- liquidity suffices, but has passed 2 ^ 64 and leaves a small remainder.
pub fill_or_kill_check :
    (b : OrderBook) (a : Incoming)
    → IsBook b
    → is_fill_or_kill a.time_in_force ≡ true
    → reject_of b (record a { time_in_force = TimeInForce.immediate_or_cancel }) ≡ none
    → reject_of b a ≡ (
        if ltb (crossing_quantity a (against b a.side) % 2 ^ 64) a.quantity
        then some RejectReason.fill_or_kill_not_filled
        else none)
unfolding reject_of available_from price_crosses
fill_or_kill_check b a h f e =
    ground
      (arith, available-crossing_quantity a (against b a.side) (against-AreTotalled b a.side h))
