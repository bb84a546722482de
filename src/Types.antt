-- ===== src/Types.antt =====
-- The vocabulary of the engine: include/matching_engine/types.hpp, order.hpp and trade.hpp.
-- An `enum class` over `uint8_t` may hold a value that no enumerator names, since the decoders
-- cast any byte: `other b` is that value, and only `b` past the last enumerator occurs.
pub mod Messages
use order_book_matching_engi.Common.{ℕ, Bool, true, false, if◌then◌else◌}
use order_book_matching_engi.Common.Int.{ℤ, negsuc}

-- Ticks in an `int64_t`; identifiers and quantities are numbers of their width.
abbrev pub Price : Type 0
Price = ℤ

abbrev pub OrderId : Type 0
OrderId = ℕ

abbrev pub Quantity : Type 0
Quantity = ℕ

abbrev pub invalid_price_value : Price
invalid_price_value = negsuc 0

abbrev pub invalid_order_id : OrderId
invalid_order_id = 0

pub data Side : Type 0 where
  buy sell : Side
  other : ℕ → Side

pub data OrderType : Type 0 where
  limit market : OrderType
  other : ℕ → OrderType

pub data TimeInForce : Type 0 where
  good_till_cancel immediate_or_cancel fill_or_kill : TimeInForce
  other : ℕ → TimeInForce

pub data OrderStatus : Type 0 where
  new partially_filled filled cancelled rejected : OrderStatus
  other : ℕ → OrderStatus

pub data RejectReason : Type 0 where
  none invalid_symbol invalid_price invalid_quantity unknown_order : RejectReason
  duplicate_order_id market_order_no_liquidity fill_or_kill_not_filled : RejectReason
  self_match_prevented pool_exhausted : RejectReason
  other : ℕ → RejectReason

-- The tests by `==` against an enumerator.
abbrev pub is_buy : Side → Bool
is_buy Side.buy = true
is_buy Side.sell = false
is_buy (Side.other b) = false

abbrev pub is_limit : OrderType → Bool
is_limit OrderType.limit = true
is_limit OrderType.market = false
is_limit (OrderType.other b) = false

abbrev pub is_market : OrderType → Bool
is_market OrderType.limit = false
is_market OrderType.market = true
is_market (OrderType.other b) = false

abbrev pub is_good_till_cancel : TimeInForce → Bool
is_good_till_cancel TimeInForce.good_till_cancel = true
is_good_till_cancel TimeInForce.immediate_or_cancel = false
is_good_till_cancel TimeInForce.fill_or_kill = false
is_good_till_cancel (TimeInForce.other b) = false

abbrev pub is_fill_or_kill : TimeInForce → Bool
is_fill_or_kill TimeInForce.good_till_cancel = false
is_fill_or_kill TimeInForce.immediate_or_cancel = false
is_fill_or_kill TimeInForce.fill_or_kill = true
is_fill_or_kill (TimeInForce.other b) = false

unfoldable pub opposite : Side → Side
opposite s = if is_buy s then Side.sell else Side.buy

pub record Order : Type 0 where
  pub id : OrderId
  pub trader_id : ℕ
  pub symbol_id : ℕ
  pub sequence_number : ℕ
  pub timestamp : ℕ
  pub price : Price
  pub quantity : Quantity
  pub remaining_quantity : Quantity
  pub side : Side
  pub type : OrderType
  pub time_in_force : TimeInForce
  pub status : OrderStatus

-- A single execution, at the resting order's price.
pub record Trade : Type 0 where
  pub sequence_number : ℕ
  pub timestamp : ℕ
  pub symbol_id : ℕ
  pub aggressor_order_id : OrderId
  pub resting_order_id : OrderId
  pub aggressor_trader_id : ℕ
  pub resting_trader_id : ℕ
  pub aggressor_side : Side
  pub price : Price
  pub quantity : Quantity
