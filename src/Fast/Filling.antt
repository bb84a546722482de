-- ===== src/Fast/Filling.antt =====
-- `AvailableCrossingQuantity` and `Match` of src/fast/order_book.cpp.
use order_book_matching_engi.Common.{
  ℕ, zero, suc, ◌-◌, ◌==◌, Bool, true, false, not, ◌||◌, min, if◌then◌else◌, Option, none, some,
  List, [], ◌∷◌, ◌++◌, ◌>>=◌,
}
use order_book_matching_engi.Common.Int.{leb_ℤ}
use order_book_matching_engi.Common.Words.{add64, sub64}
use order_book_matching_engi.Common.Keyed
use order_book_matching_engi.Types.{
  Price, Side, OrderId, Quantity, OrderStatus, Order, Trade, is_buy, is_market,
}
use order_book_matching_engi.Levels.{Levels}
use order_book_matching_engi.Pool.{release, load, store}
use order_book_matching_engi.Naive.Matching.{Incoming}
use order_book_matching_engi.Fast.{Node, PriceLevel, NodePool}
use order_book_matching_engi.Fast.Links.{unlink}

unfoldable pub price_crosses : Side → Price → Price → Bool → Bool
price_crosses side limit_price level_price market =
    if market
    then true
    else if is_buy side
    then leb_ℤ level_price limit_price
    else leb_ℤ limit_price level_price

abbrev pub crosses : Incoming → Price → Bool
crosses a p = price_crosses a.side a.price p (is_market a.type)

unfoldable pub available_from : Incoming → Levels PriceLevel → Quantity → Quantity
available_from a [] total = total
available_from a ((p, l) ∷ ls) total =
    if not (crosses a p) then total else available_from a ls (add64 total l.total_quantity)

-- The variables of the inner loop of `Match`.
pub record Filling : Type 0 where
  pub pool : NodePool
  pub level : PriceLevel
  pub remaining : Quantity
  pub index : List (OrderId × ℕ)

-- The trade of the incoming order with the node's.
unfoldable pub trade_of : ℕ → Incoming → Order → Quantity → Trade
trade_of symbol a resting trade_qty = record {
  sequence_number = a.seq;
  timestamp = a.ts;
  symbol_id = symbol;
  aggressor_order_id = a.id;
  resting_order_id = resting.id;
  aggressor_trader_id = a.trader_id;
  resting_trader_id = resting.trader_id;
  aggressor_side = a.side;
  price = resting.price;
  quantity = trade_qty;
}

-- One round at the node `p`: what it leaves.
unfoldable pub fill_node : ℕ → Node → Filling → Option Filling
fill_node p n f =
    let trade_qty = min f.remaining n.order.remaining_quantity in
    let left = n.order.remaining_quantity - trade_qty in
    let remaining = f.remaining - trade_qty in
    let level = record f.level { total_quantity = sub64 f.level.total_quantity trade_qty } in
    elim (left == 0) [
      | true ↦ do
        let pool = store f.pool p (record n {
          order = record (n.order) { remaining_quantity = left; status = OrderStatus.filled };
        })
        (pool1, level1) ← unlink pool level p
        pool2 ← release pool1 p
        some (record {
          pool = pool2;
          level = level1;
          remaining = remaining;
          index = Keyed.erase n.order.id f.index;
        })
      | false ↦ some (record {
        pool = store f.pool p (record n {
          order = record (n.order) {
            remaining_quantity = left;
            status = OrderStatus.partially_filled;
          };
        });
        level = level;
        remaining = remaining;
        index = f.index;
      })
    ]

-- The inner loop, from the node `cur` on.
unfoldable pub fill_level : ℕ → ℕ → Incoming → Option ℕ → Filling → Option (List Trade × Filling)
fill_level zero symbol a cur f = none
fill_level (suc fuel) symbol a cur f = elim (f.remaining == 0) [
  | true ↦ some ([], f)
  | false ↦ elim cur [
    | none ↦ some ([], f)
    | some p ↦ do
      n ← load f.pool p
      f' ← fill_node p n f
      (ts, f'') ← fill_level fuel symbol a n.next f'
      some (trade_of symbol a n.order (min f.remaining n.order.remaining_quantity) ∷ ts, f'')
  ]
]

pub record Matched : Type 0 where
  pub levels : Levels PriceLevel
  pub remaining : Quantity
  pub index : List (OrderId × ℕ)
  pub pool : NodePool
  pub trades : List Trade

-- The outer loop, with one round of fuel for each node of a level and one for its end.
unfoldable pub match_levels :
    ℕ → Incoming → Levels PriceLevel → Quantity → List (OrderId × ℕ) → NodePool → Option Matched
match_levels symbol a [] remaining index pool =
    some (record { levels = []; remaining = remaining; index = index; pool = pool; trades = [] })
match_levels symbol a ((p, l) ∷ ls) remaining index pool =
    elim (remaining == 0 || not (crosses a p)) [
      | true ↦ some (record {
        levels = (p, l) ∷ ls;
        remaining = remaining;
        index = index;
        pool = pool;
        trades = [];
      })
      | false ↦ do
        (ts, f) ←
            fill_level (suc (suc l.count)) symbol a l.head
              (record { pool = pool; level = l; remaining = remaining; index = index })
        rest ← match_levels symbol a ls f.remaining f.index f.pool
        some (record rest {
          levels = if f.level.count == 0 then rest.levels else (p, f.level) ∷ rest.levels;
          trades = ts ++ rest.trades;
        })
    ]
