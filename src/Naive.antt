-- ===== src/Naive.antt =====
-- The state and the queries of the reference order book:
-- include/matching_engine/naive/order_book.hpp and src/naive/order_book.cpp.
-- A `std::list` node has an address, `it`, that is never given out twice; an iterator is that
-- address, read through the level that its locator names.
pub mod Matching
pub mod Operations
pub mod Amend
pub mod Sides
pub mod Placing
pub mod Accepting
pub mod Adding
pub mod Books
pub mod Amending
pub mod Resizing
pub mod Index
pub mod Indexed
pub mod Leaving
pub mod Cancelling
pub mod Replacing
pub mod Keeping
use order_book_matching_engi.Common.{
  ℕ, ◌+◌, Bool, true, false, not, ◌&&◌, ◌==◌, leb, is_empty, length, if◌then◌else◌, Option, none,
  some, List, [], ◌∷◌, ◌++◌, ◌>>=◌,
}
use order_book_matching_engi.Common.Int.{ℤ}
use order_book_matching_engi.Common.Keyed
use order_book_matching_engi.Types.{
  Price, OrderId, Quantity, Side, OrderStatus, RejectReason, Order, Trade, is_buy,
  invalid_price_value,
}
use order_book_matching_engi.Levels
use order_book_matching_engi.Levels.{Levels}

pub record Node : Type 0 where
  pub it : ℕ
  pub order : Order

pub record PriceLevel : Type 0 where
  pub price : Price
  pub total_quantity : Quantity
  pub orders : List Node

-- What `operator[]` puts at a new key.
abbrev pub fresh_level : PriceLevel
fresh_level = record { price = ℤ.pos 0; total_quantity = 0; orders = [] }

pub record Locator : Type 0 where
  pub side : Side
  pub price : Price
  pub it : ℕ

abbrev pub Index : Type 0
Index = List (OrderId × Locator)

pub record OrderBook : Type 0 where
  pub symbol_id : ℕ
  pub bids : Levels PriceLevel
  pub asks : Levels PriceLevel
  pub index : Index
  pub next_node : ℕ

unfoldable pub empty_book : ℕ → OrderBook
empty_book symbol = record { symbol_id = symbol; bids = []; asks = []; index = []; next_node = 0 }

pub record AddResult : Type 0 where
  pub accepted : Bool
  pub reject_reason : RejectReason
  pub final_status : OrderStatus
  pub filled_quantity : Quantity
  pub remaining_quantity : Quantity
  pub trades : List Trade

pub record CancelResult : Type 0 where
  pub success : Bool
  pub reject_reason : RejectReason
  pub symbol_id : ℕ
  pub trader_id : ℕ

pub record ModifyResult : Type 0 where
  pub success : Bool
  pub reject_reason : RejectReason
  pub lost_priority : Bool
  pub final_status : OrderStatus
  pub filled_quantity : Quantity
  pub remaining_quantity : Quantity
  pub trades : List Trade

-- The map of one side: `side == Side::Buy ? bids_ : asks_`, and the same to write.
abbrev pub on_side : OrderBook → Side → Levels PriceLevel
on_side b s = if is_buy s then b.bids else b.asks

abbrev pub with_side : OrderBook → Side → Levels PriceLevel → OrderBook
with_side b s ls = if is_buy s then record b { bids = ls } else record b { asks = ls }

unfoldable pub find_node : ℕ → List Node → Option Order
find_node it [] = none
find_node it (n ∷ ns) = if n.it == it then some n.order else find_node it ns

-- `*loc.it`; `none` is a dangling iterator.
unfoldable pub deref : OrderBook → Locator → Option Order
deref b loc = do level ← Levels.find loc.price (on_side b loc.side); find_node loc.it level.orders

unfoldable pub has_order : OrderBook → OrderId → Bool
has_order b id = elim (Keyed.find id b.index) [ none ↦ false | some loc ↦ true ]

-- The outer `none` is undefined behaviour, the inner one `nullptr`.
unfoldable pub find_order : OrderBook → OrderId → Option (Option Order)
find_order b id = elim (Keyed.find id b.index) [
  | none ↦ some none
  | some loc ↦ elim (deref b loc) [ none ↦ none | some o ↦ some (some o) ]
]

unfoldable pub best_price : Levels PriceLevel → Price
best_price [] = invalid_price_value
best_price ((p, l) ∷ ls) = p

unfoldable pub best_bid : OrderBook → Price
unfolding best_price
best_bid b = best_price b.bids

unfoldable pub best_ask : OrderBook → Price
unfolding best_price
best_ask b = best_price b.asks

unfoldable pub quantity_at : OrderBook → Side → Price → Quantity
quantity_at b s p = elim (Levels.find p (on_side b s)) [ none ↦ 0 | some l ↦ l.total_quantity ]

unfoldable pub order_count_at : OrderBook → Side → Price → ℕ
order_count_at b s p = elim (Levels.find p (on_side b s)) [ none ↦ 0 | some l ↦ length l.orders ]

unfoldable pub total_order_count : OrderBook → ℕ
total_order_count b = length b.index

-- The loop of `BidLevels` and `AskLevels`; `size` is `out.size()`.
unfoldable pub depth_levels : ℕ → ℕ → Levels PriceLevel → List (Price × Quantity)
depth_levels depth size [] = []
depth_levels depth size ((p, l) ∷ ls) =
    (p, l.total_quantity)
    ∷ (if not (depth == 0) && leb depth (size + 1) then [] else depth_levels depth (size + 1) ls)

unfoldable pub bid_levels : OrderBook → ℕ → List (Price × Quantity)
unfolding depth_levels
bid_levels b depth = depth_levels depth 0 b.bids

unfoldable pub ask_levels : OrderBook → ℕ → List (Price × Quantity)
unfolding depth_levels
ask_levels b depth = depth_levels depth 0 b.asks

abbrev pub orders_of : List Node → List Order
orders_of [] = []
orders_of (n ∷ ns) = n.order ∷ orders_of ns

-- Best price first, first in first out within a price.
abbrev pub queue : Levels PriceLevel → List Order
queue [] = []
queue ((p, l) ∷ ls) = orders_of l.orders ++ queue ls

unfoldable pub all_resting_orders : OrderBook → List Order
all_resting_orders b = queue b.bids ++ queue b.asks
