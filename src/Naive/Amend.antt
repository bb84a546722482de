-- ===== src/Naive/Amend.antt =====
-- `CancelOrder` and `ModifyOrder` of src/naive/order_book.cpp. A result `none` is a dangling iterator.
use order_book_matching_engi.Common.{
  ℕ, ◌-◌, ◌==◌, leb, true, false, ◌&&◌, if◌then◌else◌, Option, none, some, List, [], ◌∷◌, ◌>>=◌,
}
use order_book_matching_engi.Common.Int.{ℤ, leb_ℤ, eqb_ℤ}
use order_book_matching_engi.Common.Words.{sub64}
use order_book_matching_engi.Common.Keyed
use order_book_matching_engi.Types.{
  Price, OrderId, Quantity, OrderStatus, RejectReason, Order, is_buy,
}
use order_book_matching_engi.Levels
use order_book_matching_engi.Levels.{Levels}
use order_book_matching_engi.Naive.{
  Node, fresh_level, Locator, OrderBook, on_side, with_side, deref, AddResult, CancelResult,
  ModifyResult,
}
use order_book_matching_engi.Naive.Matching.{Incoming}
use order_book_matching_engi.Naive.Operations.{remove_from_book, add_order}

abbrev pub refused_cancel : CancelResult
refused_cancel = record {
  success = false;
  reject_reason = RejectReason.unknown_order;
  symbol_id = 0;
  trader_id = 0;
}

unfoldable pub cancel_order : OrderBook → OrderId → Option (CancelResult × OrderBook)
cancel_order b id = elim (Keyed.find id b.index) [
  | none ↦ some (refused_cancel, b)
  | some loc ↦ do
    o ← deref b loc
    b' ← remove_from_book b loc id
    some (
      record {
        success = true;
        reject_reason = RejectReason.none;
        symbol_id = o.symbol_id;
        trader_id = o.trader_id;
      },
      b',
    )
]

abbrev pub refused_modify : RejectReason → ModifyResult
refused_modify reason = record {
  success = false;
  reject_reason = reason;
  lost_priority = false;
  final_status = OrderStatus.rejected;
  filled_quantity = 0;
  remaining_quantity = 0;
  trades = [];
}

-- The order at `it` with a smaller quantity; an address that is not there changes nothing.
unfoldable pub resize_node : ℕ → Quantity → Quantity → List Node → List Node
resize_node it remaining quantity [] = []
resize_node it remaining quantity (n ∷ ns) =
    if n.it == it
    then record n {
      order = record (n.order) { remaining_quantity = remaining; quantity = quantity };
    }
      ∷ ns
    else n ∷ resize_node it remaining quantity ns

-- The amendment in place, which keeps time priority.
unfoldable pub amend_in_place : OrderBook → Locator → Order → Quantity → OrderBook
amend_in_place b loc snapshot new_quantity =
    let delta = snapshot.remaining_quantity - new_quantity in
    with_side b loc.side (
      Levels.upsert (is_buy loc.side) fresh_level
        (λ l. record l {
          total_quantity = sub64 l.total_quantity delta;
          orders = resize_node loc.it new_quantity (sub64 snapshot.quantity delta) l.orders;
        })
        loc.price (on_side b loc.side))

-- The order that takes the place of `snapshot` in a cancel and replace.
abbrev pub replacement : OrderId → Order → Price → Quantity → ℕ → ℕ → Incoming
replacement id snapshot new_price new_quantity seq ts = record {
  id = id;
  trader_id = snapshot.trader_id;
  side = snapshot.side;
  type = snapshot.type;
  price = new_price;
  quantity = new_quantity;
  time_in_force = snapshot.time_in_force;
  seq = seq;
  ts = ts;
}

abbrev pub replaced : AddResult → ModifyResult
replaced r = record {
  success = r.accepted;
  reject_reason = r.reject_reason;
  lost_priority = true;
  final_status = r.final_status;
  filled_quantity = r.filled_quantity;
  remaining_quantity = r.remaining_quantity;
  trades = r.trades;
}

abbrev pub amended : Quantity → ModifyResult
amended new_quantity = record {
  success = true;
  reject_reason = RejectReason.none;
  lost_priority = false;
  final_status = if new_quantity == 0 then OrderStatus.filled else OrderStatus.partially_filled;
  filled_quantity = 0;
  remaining_quantity = new_quantity;
  trades = [];
}

-- `ModifyOrder` once the order is found at `loc` and its new terms are valid.
unfoldable pub modify_found :
    OrderBook
    → OrderId
    → Locator
    → Order
    → Price
    → Quantity
    → ℕ
    → ℕ
    → Option (ModifyResult × OrderBook)
modify_found b id loc snapshot new_price new_quantity seq ts =
    if eqb_ℤ new_price snapshot.price && leb new_quantity snapshot.remaining_quantity
    then some (amended new_quantity, amend_in_place b loc snapshot new_quantity)
    else do
      b' ← remove_from_book b loc id
      let (r, b'') = add_order b' (replacement id snapshot new_price new_quantity seq ts)
      some (replaced r, b'')

unfoldable pub modify_order :
    OrderBook → OrderId → Price → Quantity → ℕ → ℕ → Option (ModifyResult × OrderBook)
modify_order b id new_price new_quantity seq ts = elim (Keyed.find id b.index) [
  | none ↦ some (refused_modify RejectReason.unknown_order, b)
  | some loc ↦
      if new_quantity == 0
      then some (refused_modify RejectReason.invalid_quantity, b)
      else if leb_ℤ new_price (ℤ.pos 0)
      then some (refused_modify RejectReason.invalid_price, b)
      else do snapshot ← deref b loc; modify_found b id loc snapshot new_price new_quantity seq ts
]
