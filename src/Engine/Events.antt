-- ===== src/Engine/Events.antt =====
-- The events of a command that its book accepted: the second halves of `ProcessNewOrder`,
-- `ProcessCancel` and `ProcessModify` of src/matching_engine.cpp.
use order_book_matching_engi.Common.{
  ℕ, ◌==◌, ltb, Bool, true, false, not, ◌&&◌, if◌then◌else◌, Option, none, some, List, [], ◌∷◌,
  ◌++◌, map,
}
use order_book_matching_engi.Common.Int.{eqb_ℤ}
use order_book_matching_engi.Types.{Price, Side, OrderStatus, Order, Trade, opposite}
use order_book_matching_engi.Types.Messages.{NewOrderCommand, CancelCommand, ModifyCommand, Event}
use order_book_matching_engi.Types.Messages.Event.{
  accepted, cancelled, modified, trade, book_update,
}
use order_book_matching_engi.Naive.{OrderBook, AddResult, CancelResult, ModifyResult, quantity_at}

-- `==` of two `Side` bytes.
unfoldable pub side_eq : Side → Side → Bool
side_eq Side.buy Side.buy = true
side_eq Side.sell Side.sell = true
side_eq (Side.other x) (Side.other y) = x == y
side_eq _ _ = false

unfoldable pub is_cancelled : OrderStatus → Bool
is_cancelled OrderStatus.cancelled = true
is_cancelled _ = false

-- The levels touched, each once, in the order of their first touch.
unfoldable pub add_touched : List (Side × Price) → Side → Price → List (Side × Price)
add_touched [] side price = (side, price) ∷ []
add_touched ((s, p) ∷ touched) side price =
    if side_eq s side && eqb_ℤ p price
    then (s, p) ∷ touched
    else (s, p) ∷ add_touched touched side price

unfoldable pub touch_trades : Side → List (Side × Price) → List Trade → List (Side × Price)
touch_trades side touched [] = touched
touch_trades side touched (t ∷ ts) = touch_trades side (add_touched touched side t.price) ts

-- One `BookUpdateEvent` for each touched level.
unfoldable pub book_updates : OrderBook → ℕ → ℕ → ℕ → List (Side × Price) → List Event
book_updates b seq ts symbol [] = []
book_updates b seq ts symbol ((s, p) ∷ touched) =
    book_update (record {
      sequence_number = seq;
      timestamp = ts;
      symbol_id = symbol;
      side = s;
      price = p;
      aggregate_quantity = quantity_at b s p;
    })
    ∷ book_updates b seq ts symbol touched

abbrev pub touched_by_add : NewOrderCommand → AddResult → List (Side × Price)
touched_by_add c r =
    let touched = touch_trades (opposite c.side) [] r.trades in
    if ltb 0 r.remaining_quantity && not (is_cancelled r.final_status)
    then add_touched touched c.side c.price
    else touched

-- After the acceptance come the trades, then the updates of `book`.
unfoldable pub accepted_events : NewOrderCommand → ℕ → AddResult → OrderBook → List Event
accepted_events c seq r book =
    accepted (record {
      sequence_number = seq;
      timestamp = c.timestamp;
      symbol_id = c.symbol_id;
      order_id = c.order_id;
      trader_id = c.trader_id;
      side = c.side;
      type = c.type;
      price = c.price;
      quantity = c.quantity;
      filled_quantity = r.filled_quantity;
      remaining_quantity = r.remaining_quantity;
      status = r.final_status;
    })
    ∷ (map trade r.trades ++ book_updates book seq c.timestamp c.symbol_id (touched_by_add c r))

unfoldable pub cancelled_events :
    CancelCommand → ℕ → Option Order → CancelResult → OrderBook → List Event
cancelled_events c seq existing r book =
    cancelled (record {
      sequence_number = seq;
      timestamp = c.timestamp;
      symbol_id = c.symbol_id;
      order_id = c.order_id;
      trader_id = r.trader_id;
    })
    ∷ elim existing [
      | none ↦ []
      | some o ↦ book_updates book seq c.timestamp c.symbol_id ((o.side, o.price) ∷ [])
    ]

abbrev pub touched_by_modify : ModifyCommand → Order → ModifyResult → List (Side × Price)
touched_by_modify c o r =
    let touched = add_touched (touch_trades (opposite o.side) [] r.trades) o.side o.price in
    if not (eqb_ℤ c.new_price o.price) then add_touched touched o.side c.new_price else touched

unfoldable pub modified_events : ModifyCommand → ℕ → Order → ModifyResult → OrderBook → List Event
modified_events c seq o r book =
    modified (record {
      sequence_number = seq;
      timestamp = c.timestamp;
      symbol_id = c.symbol_id;
      order_id = c.order_id;
      trader_id = c.trader_id;
      new_price = c.new_price;
      new_remaining_quantity = r.remaining_quantity;
      lost_priority = r.lost_priority;
    })
    ∷ (map trade r.trades
        ++ book_updates book seq c.timestamp c.symbol_id (touched_by_modify c o r))
