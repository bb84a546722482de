-- ===== src/Naive/Matching.antt =====
-- `PriceCrosses`, `AvailableCrossingQuantity` and `Match` of src/naive/order_book.cpp.
-- `Match` has one loop for each side of the same text; both are `match_levels`.
pub mod Limit
pub mod Quantities
pub mod Priority
pub mod Available
use order_book_matching_engi.Common.{
  ℕ, zero, ◌-◌, ◌==◌, Bool, true, false, not, ◌||◌, is_empty, if◌then◌else◌, List, [], ◌∷◌, ◌++◌,
  min,
}
use order_book_matching_engi.Common.Int.{leb_ℤ}
use order_book_matching_engi.Common.Words.{add64, sub64}
use order_book_matching_engi.Common.Keyed
use order_book_matching_engi.Types.{
  Price, OrderId, Quantity, Side, OrderType, OrderStatus, TimeInForce, Order, Trade, is_buy,
  is_market,
}
use order_book_matching_engi.Levels.{Levels}
use order_book_matching_engi.Naive.{Node, PriceLevel, Index}

-- The arguments of `AddOrder`.
pub record Incoming : Type 0 where
  pub id : OrderId
  pub trader_id : ℕ
  pub side : Side
  pub type : OrderType
  pub price : Price
  pub quantity : Quantity
  pub time_in_force : TimeInForce
  pub seq : ℕ
  pub ts : ℕ

unfoldable pub price_crosses : Side → Price → Price → Bool → Bool
price_crosses side limit_price level_price market =
    if market
    then true
    else if is_buy side
    then leb_ℤ level_price limit_price
    else leb_ℤ limit_price level_price

-- Whether a resting price crosses the incoming order.
abbrev pub crosses : Incoming → Price → Bool
crosses a p = price_crosses a.side a.price p (is_market a.type)

-- The `uint64_t` sum wraps.
unfoldable pub available_from : Incoming → Levels PriceLevel → Quantity → Quantity
available_from a [] total = total
available_from a ((p, l) ∷ ls) total =
    if not (crosses a p) then total else available_from a ls (add64 total l.total_quantity)

unfoldable pub trade_of : ℕ → Incoming → Order → Quantity → Trade
trade_of symbol a resting quantity = record {
  sequence_number = a.seq;
  timestamp = a.ts;
  symbol_id = symbol;
  aggressor_order_id = a.id;
  resting_order_id = resting.id;
  aggressor_trader_id = a.trader_id;
  resting_trader_id = resting.trader_id;
  aggressor_side = a.side;
  price = resting.price;
  quantity = quantity;
}

-- One level after the inner loop: what is left of its queue and its total, of the incoming
-- quantity and of the index, and the trades, oldest first.
pub record Filled : Type 0 where
  pub orders : List Node
  pub total : Quantity
  pub remaining : Quantity
  pub index : Index
  pub trades : List Trade

-- The partly filled order that stays.
abbrev pub reduced : Node → Quantity → Node
reduced n left = record n {
  order = record (n.order) { remaining_quantity = left; status = OrderStatus.partially_filled };
}

-- `trade_qty`, and what is then left of the resting order.
abbrev pub trade_quantity : Node → Quantity → Quantity
trade_quantity n remaining = min remaining n.order.remaining_quantity

abbrev pub left_over : Node → Quantity → Quantity
left_over n remaining = n.order.remaining_quantity - trade_quantity n remaining

-- A filled order leaves the index.
abbrev pub index_after : Node → Quantity → Index → Index
index_after n remaining index =
    if left_over n remaining == 0 then Keyed.erase n.order.id index else index

-- The inner loop over a level's orders.
unfoldable pub match_orders : ℕ → Incoming → List Node → Quantity → Quantity → Index → Filled
match_orders symbol a [] total remaining index = record {
  orders = [];
  total = total;
  remaining = remaining;
  index = index;
  trades = [];
}
match_orders symbol a (n ∷ ns) total remaining index =
    let trade_qty = trade_quantity n remaining in
    let rest =
      match_orders symbol a ns (sub64 total trade_qty) (remaining - trade_qty)
        (index_after n remaining index) in
    if remaining == 0
    then record {
      orders = n ∷ ns;
      total = total;
      remaining = remaining;
      index = index;
      trades = [];
    }
    else record rest {
      orders =
          if left_over n remaining == 0
          then rest.orders
          else reduced n (left_over n remaining) ∷ rest.orders;
      trades = trade_of symbol a n.order trade_qty ∷ rest.trades;
    }

-- A side after the outer loop.
pub record Matched : Type 0 where
  pub levels : Levels PriceLevel
  pub remaining : Quantity
  pub index : Index
  pub trades : List Trade

-- The outer loop over the levels of the opposite side, best first.
unfoldable pub match_levels : ℕ → Incoming → Levels PriceLevel → Quantity → Index → Matched
match_levels symbol a [] remaining index = record {
  levels = [];
  remaining = remaining;
  index = index;
  trades = [];
}
match_levels symbol a ((p, l) ∷ ls) remaining index =
    let f = match_orders symbol a l.orders l.total_quantity remaining index in
    let rest = match_levels symbol a ls f.remaining f.index in
    if remaining == 0 || not (crosses a p)
    then record { levels = (p, l) ∷ ls; remaining = remaining; index = index; trades = [] }
    else record {
      levels =
          if is_empty f.orders
          then rest.levels
          else (p, record l { orders = f.orders; total_quantity = f.total }) ∷ rest.levels;
      remaining = rest.remaining;
      index = rest.index;
      trades = f.trades ++ rest.trades;
    }
