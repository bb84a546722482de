-- ===== src/Fast.antt =====
-- The pooled order book: include/matching_engine/fast/order_book.hpp and src/fast/order_book.cpp.
-- Its queues are doubly linked lists through the slots of an object pool. A result `none` is
-- undefined behaviour of a pointer, or a loop that outlives its fuel.
pub mod Links
pub mod Filling
pub mod Book
pub mod Cells
pub mod Relinking
pub mod Unlinking
pub mod Removing
pub mod Rounds
pub mod Inner
pub mod Queues
pub mod Outer
pub mod Pushing
pub mod Pushed
pub mod Image
pub mod Placing
pub mod Resting
pub mod Agreeing
pub mod Trading
pub mod Adding
pub mod Spending
pub mod Entering
pub mod Shrinking
pub mod Leaving
pub mod Finding
pub mod Cancelling
pub mod Resized
pub mod Amending
pub mod Modifying
pub mod Replacing
pub mod Runs
pub mod Queries
use order_book_matching_engi.Common.{
  ℕ, Bool, true, false, if◌then◌else◌, Option, none, some, List, [], ◌∷◌, length,
}
use order_book_matching_engi.Common.Int.{ℤ}
use order_book_matching_engi.Common.Keyed
use order_book_matching_engi.Types.{
  Price, OrderId, Quantity, Side, Order, is_buy, invalid_price_value,
}
use order_book_matching_engi.Levels
use order_book_matching_engi.Levels.{Levels}
use order_book_matching_engi.Pool.{ObjectPool, new_pool, available}

pub record Node : Type 0 where
  pub order : Order
  pub prev : Option ℕ
  pub next : Option ℕ

pub record PriceLevel : Type 0 where
  pub price : Price
  pub total_quantity : Quantity
  pub count : ℕ
  pub head : Option ℕ
  pub tail : Option ℕ

abbrev pub fresh_level : PriceLevel
fresh_level = record { price = ℤ.pos 0; total_quantity = 0; count = 0; head = none; tail = none }

abbrev pub NodePool : Type 0
NodePool = ObjectPool Node

pub record OrderBook : Type 0 where
  pub symbol_id : ℕ
  pub bids : Levels PriceLevel
  pub asks : Levels PriceLevel
  pub index : List (OrderId × ℕ)
  pub pool : NodePool

unfoldable pub empty_book : ℕ → ℕ → OrderBook
empty_book symbol max_orders = record {
  symbol_id = symbol;
  bids = [];
  asks = [];
  index = [];
  pool = new_pool max_orders;
}

abbrev pub on_side : OrderBook → Side → Levels PriceLevel
on_side b s = if is_buy s then b.bids else b.asks

abbrev pub with_side : OrderBook → Side → Levels PriceLevel → OrderBook
with_side b s ls = if is_buy s then record b { bids = ls } else record b { asks = ls }

unfoldable pub has_order : OrderBook → OrderId → Bool
has_order b id = elim (Keyed.find id b.index) [ none ↦ false | some p ↦ true ]

unfoldable pub best_price : Levels PriceLevel → Price
best_price [] = invalid_price_value
best_price ((p, l) ∷ ls) = p

unfoldable pub best_bid : OrderBook → Price
unfolding best_price
best_bid b = best_price b.bids

unfoldable pub best_ask : OrderBook → Price
unfolding best_price
best_ask b = best_price b.asks

unfoldable pub quantity_at : OrderBook → Side → Price → Quantity
quantity_at b s p = elim (Levels.find p (on_side b s)) [ none ↦ 0 | some l ↦ l.total_quantity ]

unfoldable pub order_count_at : OrderBook → Side → Price → ℕ
order_count_at b s p = elim (Levels.find p (on_side b s)) [ none ↦ 0 | some l ↦ l.count ]

unfoldable pub total_order_count : OrderBook → ℕ
total_order_count b = length b.index

unfoldable pub pool_available : OrderBook → ℕ
pool_available b = available b.pool
