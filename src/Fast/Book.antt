-- ===== src/Fast/Book.antt =====
-- `InsertResting`, `RemoveFromBook`, `AddOrder`, `CancelOrder` and `ModifyOrder` of
-- src/fast/order_book.cpp. Their results have the fields of the reference book's.
use order_book_matching_engi.Common.{
  ℕ, ◌-◌, ◌==◌, ltb, leb, Bool, true, false, ◌&&◌, is_empty, if◌then◌else◌, Option, none, some,
  List, ◌>>=◌,
}
use order_book_matching_engi.Common.Int.{ℤ, leb_ℤ, eqb_ℤ}
use order_book_matching_engi.Common.Words.{add64, sub64}
use order_book_matching_engi.Common.Keyed
use order_book_matching_engi.Types.{
  Price, OrderId, Quantity, Side, OrderStatus, RejectReason, Order, Trade, is_buy, is_limit,
  is_market, is_good_till_cancel, is_fill_or_kill,
}
use order_book_matching_engi.Levels
use order_book_matching_engi.Levels.{Levels}
use order_book_matching_engi.Pool.{acquire, release, load, store}
use order_book_matching_engi.Naive.{AddResult, CancelResult, ModifyResult}
use order_book_matching_engi.Naive.Matching.{Incoming}
use order_book_matching_engi.Naive.Operations.{rejected_add}
use order_book_matching_engi.Naive.Amend.{
  refused_cancel, refused_modify, replacement, replaced, amended,
}
use order_book_matching_engi.Fast.{
  Node, PriceLevel, fresh_level, OrderBook, on_side, with_side, has_order,
}
use order_book_matching_engi.Fast.Links.{push_back, unlink}
use order_book_matching_engi.Fast.Filling.{available_from, match_levels}

-- `levels[price]`, where a missing key is given a fresh level.
abbrev pub level_at : Price → Levels PriceLevel → PriceLevel
level_at p ls = elim (Levels.find p ls) [ none ↦ fresh_level | some l ↦ l ]

-- The inner `Option` is the returned pointer.
unfoldable pub insert_resting : OrderBook → Order → Option (Option ℕ × OrderBook)
insert_resting b o = do
  (node, pool) ← acquire b.pool (record { order = o; prev = none; next = none })
  elim node [
    | none ↦ some (none, b)
    | some p ↦ do
      let l = level_at o.price (on_side b o.side)
      (pool1, l1) ←
          push_back pool
            (record l {
              price = o.price;
              total_quantity = add64 l.total_quantity o.remaining_quantity;
            })
            p
      some (
        some p,
        record (with_side b o.side
            (Levels.upsert (is_buy o.side) fresh_level (λ _. l1) o.price (on_side b o.side))) {
              index = Keyed.insert o.id p b.index;
              pool = pool1;
            },
      )
  ]

-- With no such level the function returns early, and the node stays.
unfoldable pub remove_from_book : OrderBook → ℕ → Side → Price → OrderId → Option OrderBook
remove_from_book b p side price id = elim (Levels.find price (on_side b side)) [
  | none ↦ some b
  | some l ↦ do
    n ← load b.pool p
    (pool1, l1) ←
        unlink b.pool
          (record l { total_quantity = sub64 l.total_quantity n.order.remaining_quantity }) p
    pool2 ← release pool1 p
    some
        (record (with_side b side (
          if l1.count == 0
          then Levels.erase price (on_side b side)
          else Levels.upsert (is_buy side) fresh_level (λ _. l1) price (on_side b side))) {
            index = Keyed.erase id b.index;
            pool = pool2;
          })
]

abbrev pub against : OrderBook → Side → Levels PriceLevel
against b s = if is_buy s then b.asks else b.bids

abbrev pub with_against : OrderBook → Side → Levels PriceLevel → OrderBook
with_against b s ls = if is_buy s then record b { asks = ls } else record b { bids = ls }

-- The checks of `AddOrder` in their order; `none` lets the order in.
unfoldable pub reject_of : OrderBook → Incoming → Option RejectReason
reject_of b a =
    if a.id == 0
    then some RejectReason.unknown_order
    else if has_order b a.id
    then some RejectReason.duplicate_order_id
    else if a.quantity == 0
    then some RejectReason.invalid_quantity
    else if is_limit a.type && leb_ℤ a.price (ℤ.pos 0)
    then some RejectReason.invalid_price
    else if is_market a.type && is_empty (against b a.side)
    then some RejectReason.market_order_no_liquidity
    else if is_fill_or_kill a.time_in_force
        && ltb (available_from a (against b a.side) 0) a.quantity
    then some RejectReason.fill_or_kill_not_filled
    else none

abbrev pub resting_order : OrderBook → Incoming → Quantity → Order
resting_order b a remaining = record {
  id = a.id;
  trader_id = a.trader_id;
  symbol_id = b.symbol_id;
  sequence_number = a.seq;
  timestamp = a.ts;
  price = a.price;
  quantity = a.quantity;
  remaining_quantity = remaining;
  side = a.side;
  type = a.type;
  time_in_force = a.time_in_force;
  status = if ltb 0 (a.quantity - remaining) then OrderStatus.partially_filled else OrderStatus.new;
}

abbrev pub can_rest : Incoming → Quantity → Bool
can_rest a remaining = is_limit a.type && is_good_till_cancel a.time_in_force && ltb 0 remaining

-- The result for an order that may rest, by the pointer that `InsertResting` returned.
unfoldable pub rested_result : Option ℕ → Order → Quantity → List Trade → AddResult
rested_result node o filled trades = elim node [
  | none ↦ record {
    accepted = ltb 0 filled;
    reject_reason = RejectReason.pool_exhausted;
    final_status = if ltb 0 filled then OrderStatus.filled else OrderStatus.rejected;
    filled_quantity = filled;
    remaining_quantity = 0;
    trades = trades;
  }
  | some p ↦ record {
    accepted = true;
    reject_reason = RejectReason.none;
    final_status = o.status;
    filled_quantity = filled;
    remaining_quantity = o.remaining_quantity;
    trades = trades;
  }
]

abbrev pub unrested_result : Incoming → Quantity → List Trade → AddResult
unrested_result a filled trades = record {
  accepted = true;
  reject_reason = RejectReason.none;
  final_status = if filled == a.quantity then OrderStatus.filled else OrderStatus.cancelled;
  filled_quantity = filled;
  remaining_quantity = 0;
  trades = trades;
}

-- `AddOrder` after `Match`.
unfoldable pub rest_order :
    OrderBook → Incoming → Quantity → List Trade → Option (AddResult × OrderBook)
rest_order b a remaining trades = elim (can_rest a remaining) [
  | true ↦ do
    (node, b') ← insert_resting b (resting_order b a remaining)
    some (rested_result node (resting_order b a remaining) (a.quantity - remaining) trades, b')
  | false ↦ some (unrested_result a (a.quantity - remaining) trades, b)
]

-- `AddOrder` behind its checks.
unfoldable pub accept_order : OrderBook → Incoming → Option (AddResult × OrderBook)
accept_order b a = do
  m ← match_levels b.symbol_id a (against b a.side) a.quantity b.index b.pool
  rest_order (record (with_against b a.side m.levels) { index = m.index; pool = m.pool }) a
      m.remaining m.trades

unfoldable pub add_order : OrderBook → Incoming → Option (AddResult × OrderBook)
add_order b a = elim (reject_of b a) [
  | none ↦ accept_order b a
  | some reason ↦ some (rejected_add reason, b)
]

unfoldable pub cancel_order : OrderBook → OrderId → Option (CancelResult × OrderBook)
cancel_order b id = elim (Keyed.find id b.index) [
  | none ↦ some (refused_cancel, b)
  | some p ↦ do
    n ← load b.pool p
    b' ← remove_from_book b p n.order.side n.order.price id
    some (
      record {
        success = true;
        reject_reason = RejectReason.none;
        symbol_id = n.order.symbol_id;
        trader_id = n.order.trader_id;
      },
      b',
    )
]

-- The amendment in place; `node` is what the pointer `p` leads to.
unfoldable pub amend_in_place : OrderBook → ℕ → Node → Quantity → OrderBook
amend_in_place b p node new_quantity =
    let o = node.order in
    let delta = o.remaining_quantity - new_quantity in
    record (with_side b o.side (
      Levels.upsert (is_buy o.side) fresh_level
        (λ l. record l { total_quantity = sub64 l.total_quantity delta }) o.price
        (on_side b o.side))) {
          pool = store b.pool p (record node {
            order = record o {
              remaining_quantity = new_quantity;
              quantity = sub64 o.quantity delta;
            };
          });
        }

unfoldable pub modify_found :
    OrderBook → OrderId → ℕ → Node → Price → Quantity → ℕ → ℕ → Option (ModifyResult × OrderBook)
modify_found b id p node new_price new_quantity seq ts =
    elim (eqb_ℤ new_price node.order.price && leb new_quantity node.order.remaining_quantity) [
      | true ↦ some (amended new_quantity, amend_in_place b p node new_quantity)
      | false ↦ do
        b' ← remove_from_book b p node.order.side node.order.price id
        (r, b'') ← add_order b' (replacement id node.order new_price new_quantity seq ts)
        some (replaced r, b'')
    ]

unfoldable pub modify_order :
    OrderBook → OrderId → Price → Quantity → ℕ → ℕ → Option (ModifyResult × OrderBook)
modify_order b id new_price new_quantity seq ts = elim (Keyed.find id b.index) [
  | none ↦ some (refused_modify RejectReason.unknown_order, b)
  | some p ↦ elim (new_quantity == 0) [
    | true ↦ some (refused_modify RejectReason.invalid_quantity, b)
    | false ↦ elim (leb_ℤ new_price (ℤ.pos 0)) [
      | true ↦ some (refused_modify RejectReason.invalid_price, b)
      | false ↦ do node ← load b.pool p; modify_found b id p node new_price new_quantity seq ts
    ]
  ]
]
