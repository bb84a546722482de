-- ===== src/Wire/Enums.antt =====
-- The casts between the enumerations of include/matching_engine/types.hpp and their `uint8_t` values.
use order_book_matching_engi.Common.{ℕ, ◌^◌, ◌≤◌, ◌<◌, ◌≡◌, refl, ◌==◌, if◌then◌else◌, arith}
use order_book_matching_engi.Types.{Side, OrderType, TimeInForce, OrderStatus, RejectReason}

unfoldable pub side_byte : Side → ℕ
side_byte Side.buy = 0
side_byte Side.sell = 1
side_byte (Side.other b) = b

unfoldable pub side_of_byte : ℕ → Side
side_of_byte b = if b == 0 then Side.buy else if b == 1 then Side.sell else Side.other b

-- A value that a `uint8_t` can hold, by its only name.
abbrev pub IsSide : Side → Type 0
IsSide Side.buy = Unit {0}
IsSide Side.sell = Unit {0}
IsSide (Side.other b) = (2 ≤ b) × (b < 2 ^ 8)

pub side_of_byte-side_byte : (x : Side) → IsSide x → side_of_byte (side_byte x) ≡ x
unfolding side_byte side_of_byte
side_of_byte-side_byte Side.buy h = refl
side_of_byte-side_byte Side.sell h = refl
side_of_byte-side_byte (Side.other b) h = ground arith

unfoldable pub type_byte : OrderType → ℕ
type_byte OrderType.limit = 0
type_byte OrderType.market = 1
type_byte (OrderType.other b) = b

unfoldable pub type_of_byte : ℕ → OrderType
type_of_byte b =
    if b == 0 then OrderType.limit else if b == 1 then OrderType.market else OrderType.other b

-- A value that a `uint8_t` can hold, by its only name.
abbrev pub IsOrderType : OrderType → Type 0
IsOrderType OrderType.limit = Unit {0}
IsOrderType OrderType.market = Unit {0}
IsOrderType (OrderType.other b) = (2 ≤ b) × (b < 2 ^ 8)

pub type_of_byte-type_byte : (x : OrderType) → IsOrderType x → type_of_byte (type_byte x) ≡ x
unfolding type_byte type_of_byte
type_of_byte-type_byte OrderType.limit h = refl
type_of_byte-type_byte OrderType.market h = refl
type_of_byte-type_byte (OrderType.other b) h = ground arith

unfoldable pub time_in_force_byte : TimeInForce → ℕ
time_in_force_byte TimeInForce.good_till_cancel = 0
time_in_force_byte TimeInForce.immediate_or_cancel = 1
time_in_force_byte TimeInForce.fill_or_kill = 2
time_in_force_byte (TimeInForce.other b) = b

unfoldable pub time_in_force_of_byte : ℕ → TimeInForce
time_in_force_of_byte b =
    if b == 0
    then TimeInForce.good_till_cancel
    else if b == 1
    then TimeInForce.immediate_or_cancel
    else if b == 2
    then TimeInForce.fill_or_kill
    else TimeInForce.other b

-- A value that a `uint8_t` can hold, by its only name.
abbrev pub IsTimeInForce : TimeInForce → Type 0
IsTimeInForce TimeInForce.good_till_cancel = Unit {0}
IsTimeInForce TimeInForce.immediate_or_cancel = Unit {0}
IsTimeInForce TimeInForce.fill_or_kill = Unit {0}
IsTimeInForce (TimeInForce.other b) = (3 ≤ b) × (b < 2 ^ 8)

pub time_in_force_of_byte-time_in_force_byte :
    (x : TimeInForce) → IsTimeInForce x → time_in_force_of_byte (time_in_force_byte x) ≡ x
unfolding time_in_force_byte time_in_force_of_byte
time_in_force_of_byte-time_in_force_byte TimeInForce.good_till_cancel h = refl
time_in_force_of_byte-time_in_force_byte TimeInForce.immediate_or_cancel h = refl
time_in_force_of_byte-time_in_force_byte TimeInForce.fill_or_kill h = refl
time_in_force_of_byte-time_in_force_byte (TimeInForce.other b) h = ground arith

unfoldable pub status_byte : OrderStatus → ℕ
status_byte OrderStatus.new = 0
status_byte OrderStatus.partially_filled = 1
status_byte OrderStatus.filled = 2
status_byte OrderStatus.cancelled = 3
status_byte OrderStatus.rejected = 4
status_byte (OrderStatus.other b) = b

unfoldable pub status_of_byte : ℕ → OrderStatus
status_of_byte b =
    if b == 0
    then OrderStatus.new
    else if b == 1
    then OrderStatus.partially_filled
    else if b == 2
    then OrderStatus.filled
    else if b == 3
    then OrderStatus.cancelled
    else if b == 4
    then OrderStatus.rejected
    else OrderStatus.other b

-- A value that a `uint8_t` can hold, by its only name.
abbrev pub IsOrderStatus : OrderStatus → Type 0
IsOrderStatus OrderStatus.new = Unit {0}
IsOrderStatus OrderStatus.partially_filled = Unit {0}
IsOrderStatus OrderStatus.filled = Unit {0}
IsOrderStatus OrderStatus.cancelled = Unit {0}
IsOrderStatus OrderStatus.rejected = Unit {0}
IsOrderStatus (OrderStatus.other b) = (5 ≤ b) × (b < 2 ^ 8)

pub status_of_byte-status_byte :
    (x : OrderStatus) → IsOrderStatus x → status_of_byte (status_byte x) ≡ x
unfolding status_byte status_of_byte
status_of_byte-status_byte OrderStatus.new h = refl
status_of_byte-status_byte OrderStatus.partially_filled h = refl
status_of_byte-status_byte OrderStatus.filled h = refl
status_of_byte-status_byte OrderStatus.cancelled h = refl
status_of_byte-status_byte OrderStatus.rejected h = refl
status_of_byte-status_byte (OrderStatus.other b) h = ground arith

unfoldable pub reason_byte : RejectReason → ℕ
reason_byte RejectReason.none = 0
reason_byte RejectReason.invalid_symbol = 1
reason_byte RejectReason.invalid_price = 2
reason_byte RejectReason.invalid_quantity = 3
reason_byte RejectReason.unknown_order = 4
reason_byte RejectReason.duplicate_order_id = 5
reason_byte RejectReason.market_order_no_liquidity = 6
reason_byte RejectReason.fill_or_kill_not_filled = 7
reason_byte RejectReason.self_match_prevented = 8
reason_byte RejectReason.pool_exhausted = 9
reason_byte (RejectReason.other b) = b

unfoldable pub reason_of_byte : ℕ → RejectReason
reason_of_byte b =
    if b == 0
    then RejectReason.none
    else if b == 1
    then RejectReason.invalid_symbol
    else if b == 2
    then RejectReason.invalid_price
    else if b == 3
    then RejectReason.invalid_quantity
    else if b == 4
    then RejectReason.unknown_order
    else if b == 5
    then RejectReason.duplicate_order_id
    else if b == 6
    then RejectReason.market_order_no_liquidity
    else if b == 7
    then RejectReason.fill_or_kill_not_filled
    else if b == 8
    then RejectReason.self_match_prevented
    else if b == 9
    then RejectReason.pool_exhausted
    else RejectReason.other b

-- A value that a `uint8_t` can hold, by its only name.
abbrev pub IsRejectReason : RejectReason → Type 0
IsRejectReason RejectReason.none = Unit {0}
IsRejectReason RejectReason.invalid_symbol = Unit {0}
IsRejectReason RejectReason.invalid_price = Unit {0}
IsRejectReason RejectReason.invalid_quantity = Unit {0}
IsRejectReason RejectReason.unknown_order = Unit {0}
IsRejectReason RejectReason.duplicate_order_id = Unit {0}
IsRejectReason RejectReason.market_order_no_liquidity = Unit {0}
IsRejectReason RejectReason.fill_or_kill_not_filled = Unit {0}
IsRejectReason RejectReason.self_match_prevented = Unit {0}
IsRejectReason RejectReason.pool_exhausted = Unit {0}
IsRejectReason (RejectReason.other b) = (10 ≤ b) × (b < 2 ^ 8)

pub reason_of_byte-reason_byte :
    (x : RejectReason) → IsRejectReason x → reason_of_byte (reason_byte x) ≡ x
unfolding reason_byte reason_of_byte
reason_of_byte-reason_byte RejectReason.none h = refl
reason_of_byte-reason_byte RejectReason.invalid_symbol h = refl
reason_of_byte-reason_byte RejectReason.invalid_price h = refl
reason_of_byte-reason_byte RejectReason.invalid_quantity h = refl
reason_of_byte-reason_byte RejectReason.unknown_order h = refl
reason_of_byte-reason_byte RejectReason.duplicate_order_id h = refl
reason_of_byte-reason_byte RejectReason.market_order_no_liquidity h = refl
reason_of_byte-reason_byte RejectReason.fill_or_kill_not_filled h = refl
reason_of_byte-reason_byte RejectReason.self_match_prevented h = refl
reason_of_byte-reason_byte RejectReason.pool_exhausted h = refl
reason_of_byte-reason_byte (RejectReason.other b) h = ground arith
