-- ===== src/Naive/Operations.antt =====
-- `InsertResting`, `RemoveFromBook`, `RestoreOrder` and `AddOrder` of src/naive/order_book.cpp.
-- A result `none` is a dangling iterator.
use order_book_matching_engi.Common.{
  ℕ, ◌+◌, ◌-◌, ◌==◌, ltb, Bool, true, false, ◌&&◌, is_empty, if◌then◌else◌, Option, none, some,
  List, [], ◌∷◌, ◌++◌,
}
use order_book_matching_engi.Common.Int.{ℤ, leb_ℤ}
use order_book_matching_engi.Common.Words.{add64, sub64}
use order_book_matching_engi.Common.Keyed
use order_book_matching_engi.Types.{
  Price, OrderId, Quantity, Side, OrderStatus, RejectReason, Order, is_buy, is_limit, is_market,
  is_good_till_cancel, is_fill_or_kill,
}
use order_book_matching_engi.Levels
use order_book_matching_engi.Levels.{Levels}
use order_book_matching_engi.Naive.{
  Node, PriceLevel, fresh_level, Locator, OrderBook, on_side, with_side, find_node, has_order,
  AddResult,
}
use order_book_matching_engi.Naive.Matching.{Incoming, available_from, match_levels}

-- A level with one more order at the back of its queue.
abbrev pub push_order : Price → Node → PriceLevel → PriceLevel
push_order p n l = record {
  price = p;
  total_quantity = add64 l.total_quantity n.order.remaining_quantity;
  orders = l.orders ++ (n ∷ []);
}

unfoldable pub insert_resting : OrderBook → Order → OrderBook
insert_resting b o =
    let node : Node = record { it = b.next_node; order = o } in
    let levels =
      Levels.upsert (is_buy o.side) fresh_level (push_order o.price node) o.price
        (on_side b o.side) in
    record (with_side b o.side levels) {
      index =
          Keyed.insert o.id (record { side = o.side; price = o.price; it = b.next_node }) b.index;
      next_node = b.next_node + 1;
    }

unfoldable pub restore_order : OrderBook → Order → OrderBook
restore_order b o = insert_resting b o

unfoldable pub erase_node : ℕ → List Node → List Node
erase_node it [] = []
erase_node it (n ∷ ns) = if n.it == it then ns else n ∷ erase_node it ns

-- A level without the order at `it`, or no entry when that was its last.
unfoldable pub shrink_level :
    Bool → Price → PriceLevel → ℕ → Quantity → Levels PriceLevel → Levels PriceLevel
shrink_level bids p l it quantity ls =
    let left = erase_node it l.orders in
    if is_empty left
    then Levels.erase p ls
    else Levels.upsert bids fresh_level
        (λ _. record l { total_quantity = sub64 l.total_quantity quantity; orders = left }) p ls

-- With no such level the function returns early, and the index keeps its entry.
unfoldable pub remove_from_book : OrderBook → Locator → OrderId → Option OrderBook
remove_from_book b loc id = elim (Levels.find loc.price (on_side b loc.side)) [
  | none ↦ some b
  | some l ↦ elim (find_node loc.it l.orders) [
    | none ↦ none
    | some o ↦
        some
          (record (with_side b loc.side (
            shrink_level (is_buy loc.side) loc.price l loc.it o.remaining_quantity
              (on_side b loc.side))) { index = Keyed.erase id b.index })
  ]
]

abbrev pub rejected_add : RejectReason → AddResult
rejected_add reason = record {
  accepted = false;
  reject_reason = reason;
  final_status = OrderStatus.rejected;
  filled_quantity = 0;
  remaining_quantity = 0;
  trades = [];
}

-- The opposite side, which the incoming order trades against.
abbrev pub against : OrderBook → Side → Levels PriceLevel
against b s = if is_buy s then b.asks else b.bids

abbrev pub with_against : OrderBook → Side → Levels PriceLevel → OrderBook
with_against b s ls = if is_buy s then record b { asks = ls } else record b { bids = ls }

-- The checks of `AddOrder` in their order; `none` lets the order in.
unfoldable pub reject_of : OrderBook → Incoming → Option RejectReason
reject_of b a =
    if a.id == 0
    then some RejectReason.unknown_order
    else if has_order b a.id
    then some RejectReason.duplicate_order_id
    else if a.quantity == 0
    then some RejectReason.invalid_quantity
    else if is_limit a.type && leb_ℤ a.price (ℤ.pos 0)
    then some RejectReason.invalid_price
    else if is_market a.type && is_empty (against b a.side)
    then some RejectReason.market_order_no_liquidity
    else if is_fill_or_kill a.time_in_force
        && ltb (available_from a (against b a.side) 0) a.quantity
    then some RejectReason.fill_or_kill_not_filled
    else none

-- The book after `Match`.
unfoldable pub matched_book : OrderBook → Incoming → OrderBook
matched_book b a =
    let m = match_levels b.symbol_id a (against b a.side) a.quantity b.index in
    record (with_against b a.side m.levels) { index = m.index }

abbrev pub resting_order : OrderBook → Incoming → Quantity → Order
resting_order b a remaining = record {
  id = a.id;
  trader_id = a.trader_id;
  symbol_id = b.symbol_id;
  sequence_number = a.seq;
  timestamp = a.ts;
  price = a.price;
  quantity = a.quantity;
  remaining_quantity = remaining;
  side = a.side;
  type = a.type;
  time_in_force = a.time_in_force;
  status = if ltb 0 (a.quantity - remaining) then OrderStatus.partially_filled else OrderStatus.new;
}

-- `can_rest`, on the quantity left after matching.
abbrev pub can_rest : Incoming → Quantity → Bool
can_rest a remaining = is_limit a.type && is_good_till_cancel a.time_in_force && ltb 0 remaining

-- `AddOrder` behind its checks.
unfoldable pub accept_order : OrderBook → Incoming → AddResult × OrderBook
accept_order b a =
    let m = match_levels b.symbol_id a (against b a.side) a.quantity b.index in
    let filled = a.quantity - m.remaining in
    if can_rest a m.remaining
    then (
      record {
        accepted = true;
        reject_reason = RejectReason.none;
        final_status = (resting_order b a m.remaining).status;
        filled_quantity = filled;
        remaining_quantity = m.remaining;
        trades = m.trades;
      },
      insert_resting (matched_book b a) (resting_order b a m.remaining),
    )
    else (
      record {
        accepted = true;
        reject_reason = RejectReason.none;
        final_status = if filled == a.quantity then OrderStatus.filled else OrderStatus.cancelled;
        filled_quantity = filled;
        remaining_quantity = 0;
        trades = m.trades;
      },
      matched_book b a,
    )

unfoldable pub add_order : OrderBook → Incoming → AddResult × OrderBook
add_order b a = elim (reject_of b a) [
  | none ↦ accept_order b a
  | some reason ↦ (rejected_add reason, b)
]
