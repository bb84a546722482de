-- ===== src/Examples/Books.antt =====
-- The theorems on the reference book at a book of two asks.
use order_book_matching_engi.Common.{
  ℕ, ◌+◌, ◌-◌, ◌%◌, ◌^◌, ◌≡◌, ◌⊎◌, refl, ltb, true, false, if◌then◌else◌, min, All, none, some, [],
  length, take, arith, ◌==◌, ◌&&◌,
}
use order_book_matching_engi.Common.Int.{ℤ}
use order_book_matching_engi.Common.Keyed
use order_book_matching_engi.Types.{
  Side, OrderType, TimeInForce, RejectReason, Order, is_buy, is_limit, is_good_till_cancel,
  OrderStatus,
}
use order_book_matching_engi.Levels
use order_book_matching_engi.Naive.{
  OrderBook, empty_book, queue, has_order, CancelResult, ModifyResult, find_order, on_side,
  all_resting_orders, deref, find_node,
}
use order_book_matching_engi.Naive.Matching.{
  Incoming, available_from, price_crosses, match_orders, match_levels, trade_of,
}
use order_book_matching_engi.Naive.Matching.Quantities.{depth, traded}
use order_book_matching_engi.Naive.Matching.Priority.{walk, IsTradeOf, resting_ids, order_ids}
use order_book_matching_engi.Naive.Matching.Available.{crossing_quantity}
use order_book_matching_engi.Naive.Operations.{
  against, reject_of, matched_book, insert_resting, accept_order, add_order,
}
use order_book_matching_engi.Naive.Books.{IsBook, empty_book-IsBook, add_order-IsBook}
use order_book_matching_engi.Naive.Indexed.{IsIndexed, empty_book-IsIndexed, add_order-IsIndexed}
use order_book_matching_engi.Naive.Cancelling.{find_order_lem, cancel_order_lem}
use order_book_matching_engi.Naive.Replacing.{modify_order_lem}
use order_book_matching_engi.Naive.Amend.{refused_modify, cancel_order, modify_order}
use mathlib.Core.Option.{Option, map}
use order_book_matching_engi.Naive.Leaving.{Leaves}
use order_book_matching_engi.Naive.Placing.{place, rested}
use order_book_matching_engi.Naive.Keeping.{modify_order_keeps_priority}
use order_book_matching_engi.Common.Words.{sub64}
use order_book_matching_engi.Naive.Adding.{
  fill_or_kill_all_or_nothing, add_order_priority, add_order-quantities, add_order-IsTradeOf,
  fill_or_kill_check,
}

abbrev pub sell_at : ℕ → ℕ → ℕ → Incoming
sell_at id price quantity = record {
  id = id;
  trader_id = 7;
  side = Side.sell;
  type = OrderType.limit;
  price = ℤ.pos price;
  quantity = quantity;
  time_in_force = TimeInForce.good_till_cancel;
  seq = id;
  ts = 0;
}

abbrev pub buy_at : TimeInForce → ℕ → ℕ → Incoming
buy_at tif price quantity = record {
  id = 9;
  trader_id = 8;
  side = Side.buy;
  type = OrderType.limit;
  price = ℤ.pos price;
  quantity = quantity;
  time_in_force = tif;
  seq = 9;
  ts = 0;
}

abbrev two_asks : OrderBook
two_asks = (add_order (add_order (empty_book 1) (sell_at 1 101 5)).1 (sell_at 2 100 3)).1

two_asks-IsBook : IsBook two_asks
two_asks-IsBook =
    add_order-IsBook _ (sell_at 2 100 3)
      (add_order-IsBook _ (sell_at 1 101 5) (empty_book-IsBook 1) (omega arith)) (omega arith)

add_order-IsBook_example : IsBook (add_order two_asks (buy_at TimeInForce.good_till_cancel 100 4)).1
add_order-IsBook_example =
    add_order-IsBook two_asks (buy_at TimeInForce.good_till_cancel 100 4) two_asks-IsBook
      (omega arith)

fill_or_kill_all_or_nothing_example :
    let (r, b') = add_order two_asks (buy_at TimeInForce.fill_or_kill 101 7) in
    ((r.accepted ≡ true)
      × (r.filled_quantity ≡ 7)
      × (traded r.trades ≡ 7)
      × (r.remaining_quantity ≡ 0))
    ⊎ ((r.accepted ≡ false) × (r.trades ≡ []) × (b' ≡ two_asks))
fill_or_kill_all_or_nothing_example =
    fill_or_kill_all_or_nothing two_asks (buy_at TimeInForce.fill_or_kill 101 7) two_asks-IsBook
      refl

add_order_priority_example :
    let a = buy_at TimeInForce.good_till_cancel 101 4 in
    let (r, b') = add_order two_asks a in
    (r.trades ≡ (walk 1 a (queue (against two_asks a.side)) 4).trades)
    × (queue (against b' a.side) ≡ (walk 1 a (queue (against two_asks a.side)) 4).left)
    × (resting_ids r.trades ≡ take (length r.trades) (order_ids (queue (against two_asks a.side))))
    × (queue (on_side b' a.side) ≡ (
        if r.remaining_quantity == 0
        then queue (on_side two_asks a.side)
        else place
            (is_buy a.side)
            (rested 1 a r.remaining_quantity)
            (queue (on_side two_asks a.side))))
unfolding add_order accept_order reject_of matched_book insert_resting has_order available_from
    price_crosses match_orders match_levels trade_of empty_book Keyed.find Keyed.insert Keyed.erase
    Levels.find Levels.upsert Levels.erase
add_order_priority_example =
    add_order_priority two_asks (buy_at TimeInForce.good_till_cancel 101 4) two_asks-IsBook refl

add_order-quantities_example :
    let a = buy_at TimeInForce.good_till_cancel 101 4 in
    let (r, b') = add_order two_asks a in
    (r.filled_quantity ≡ min 4 (crossing_quantity a (against two_asks a.side)))
    × (traded r.trades ≡ r.filled_quantity)
    × (depth (against b' a.side) + r.filled_quantity ≡ depth (against two_asks a.side))
    × (r.remaining_quantity ≡ (
        if is_limit a.type && is_good_till_cancel a.time_in_force
        then 4 - r.filled_quantity
        else 0))
    × (depth (on_side b' a.side) ≡ depth (on_side two_asks a.side) + r.remaining_quantity)
unfolding add_order accept_order reject_of matched_book insert_resting has_order available_from
    price_crosses match_orders match_levels trade_of empty_book Keyed.find Keyed.insert Keyed.erase
    Levels.find Levels.upsert Levels.erase
add_order-quantities_example =
    add_order-quantities two_asks (buy_at TimeInForce.good_till_cancel 101 4) refl

add_order-IsTradeOf_example :
    All
      (IsTradeOf (buy_at TimeInForce.good_till_cancel 101 4))
      (add_order two_asks (buy_at TimeInForce.good_till_cancel 101 4)).0.trades
add_order-IsTradeOf_example =
    add_order-IsTradeOf two_asks (buy_at TimeInForce.good_till_cancel 101 4) two_asks-IsBook

-- Two asks of 2 ^ 63 each, whose sum wraps to nothing.
abbrev deep_asks : OrderBook
deep_asks =
    (add_order (add_order (empty_book 1) (sell_at 1 101 (2 ^ 63))).1 (sell_at 2 100 (2 ^ 63))).1

deep_asks-IsBook : IsBook deep_asks
deep_asks-IsBook =
    add_order-IsBook _ (sell_at 2 100 (2 ^ 63))
      (add_order-IsBook _ (sell_at 1 101 (2 ^ 63)) (empty_book-IsBook 1) (omega arith))
      (omega arith)

fill_or_kill_check_example :
    let a = buy_at TimeInForce.fill_or_kill 101 7 in
    reject_of deep_asks a ≡ (
      if ltb (crossing_quantity a (against deep_asks a.side) % 2 ^ 64) 7
      then some RejectReason.fill_or_kill_not_filled
      else none)
unfolding add_order accept_order reject_of matched_book insert_resting has_order available_from
    price_crosses match_orders match_levels trade_of empty_book Keyed.find Keyed.insert Keyed.erase
    Levels.find Levels.upsert Levels.erase
fill_or_kill_check_example =
    fill_or_kill_check deep_asks (buy_at TimeInForce.fill_or_kill 101 7) deep_asks-IsBook refl refl

two_asks-IsIndexed : IsIndexed two_asks
two_asks-IsIndexed =
    add_order-IsIndexed _ (sell_at 2 100 3)
      (add_order-IsBook _ (sell_at 1 101 5) (empty_book-IsBook 1) (omega arith))
      (add_order-IsIndexed _ (sell_at 1 101 5) (empty_book-IsBook 1) (empty_book-IsIndexed 1))

add_order-IsIndexed_example :
    IsIndexed (add_order two_asks (buy_at TimeInForce.good_till_cancel 100 4)).1
add_order-IsIndexed_example =
    add_order-IsIndexed two_asks (buy_at TimeInForce.good_till_cancel 100 4) two_asks-IsBook
      two_asks-IsIndexed

find_order_lem_example :
    (found : Option Order) × (find_order two_asks 2 ≡ some found)
    × (map (λ o. o.id) found ≡ (if has_order two_asks 2 then some 2 else none))
find_order_lem_example = find_order_lem two_asks 2 two_asks-IsIndexed

cancel_order_lem_example :
    (r : CancelResult) × (b' : OrderBook) × (cancel_order two_asks 2 ≡ some (r, b'))
    × (r.success ≡ has_order two_asks 2)
    × (((r.success ≡ false) × (r.reject_reason ≡ RejectReason.unknown_order) × (b' ≡ two_asks))
        ⊎ ((o : Order) × (find_order two_asks 2 ≡ some (some o))
            × (o.id ≡ 2)
            × (r ≡ record {
              success = true;
              reject_reason = RejectReason.none;
              symbol_id = o.symbol_id;
              trader_id = o.trader_id;
            })
            × Leaves o (all_resting_orders two_asks) (all_resting_orders b')))
    × (has_order b' 1 ≡ (if 2 == 1 then false else has_order two_asks 1))
    × IsBook b'
    × IsIndexed b'
cancel_order_lem_example = cancel_order_lem two_asks 2 1 two_asks-IsBook two_asks-IsIndexed

modify_order_lem_example :
    (r : ModifyResult) × (b' : OrderBook) × (modify_order two_asks 2 (ℤ.pos 100) 1 10 0
      ≡ some (r, b'))
    × ((has_order two_asks 2 ≡ true)
        ⊎ ((r ≡ refused_modify RejectReason.unknown_order) × (b' ≡ two_asks)))
    × IsBook b'
    × IsIndexed b'
modify_order_lem_example =
    modify_order_lem two_asks 2 (ℤ.pos 100) 1 10 0 two_asks-IsBook two_asks-IsIndexed (omega arith)

abbrev ask : Order
ask = record {
  id = 1;
  trader_id = 7;
  symbol_id = 1;
  sequence_number = 1;
  timestamp = 0;
  price = ℤ.pos 101;
  quantity = 5;
  remaining_quantity = 5;
  side = Side.sell;
  type = OrderType.limit;
  time_in_force = TimeInForce.good_till_cancel;
  status = OrderStatus.new;
}

modify_order_keeps_priority_example :
    (b' : OrderBook) × (modify_order two_asks 1 (ℤ.pos 101) 2 10 0
      ≡ some (
        record {
          success = true;
          reject_reason = RejectReason.none;
          lost_priority = false;
          final_status = OrderStatus.partially_filled;
          filled_quantity = 0;
          remaining_quantity = 2;
          trades = [];
        },
        b',
      ))
    × (order_ids (all_resting_orders b') ≡ order_ids (all_resting_orders two_asks))
    × (find_order b' 1
        ≡ some (some (record ask { remaining_quantity = 2; quantity = sub64 5 (5 - 2) })))
unfolding find_order deref find_node add_order accept_order reject_of matched_book insert_resting
    has_order available_from price_crosses match_orders match_levels trade_of empty_book Keyed.find
    Keyed.insert Keyed.erase Levels.find Levels.upsert Levels.erase
modify_order_keeps_priority_example =
    modify_order_keeps_priority two_asks 1 ask 2 10 0 two_asks-IsBook refl refl (omega arith)
      (omega arith)
