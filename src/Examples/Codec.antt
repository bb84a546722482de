-- ===== src/Examples/Codec.antt =====
-- The round trips at one command and one event.
use order_book_matching_engi.Common.{◌≡◌, some, [], ◌∷◌, ◌++◌, arith}
use order_book_matching_engi.Common.Int.{ℤ}
use order_book_matching_engi.Types.{Side, OrderType, TimeInForce, OrderStatus}
use order_book_matching_engi.Types.Messages.{new_order, NewOrderCommand, accepted, AcceptedEvent}
use order_book_matching_engi.Types.{Order}
use order_book_matching_engi.Snapshot.{read_order, write_order}
use order_book_matching_engi.Snapshot.RoundTrip.{IsOrder, read_order-write_order}
use order_book_matching_engi.Wire.Commands.{encode_command, decode_command}
use order_book_matching_engi.Wire.Events.{encode_event, decode_event}
use order_book_matching_engi.Wire.RoundTrip.{IsNewOrder, decode_command-encode_command}
use order_book_matching_engi.Wire.EventRoundTrip.{IsAcceptedEvent, decode_event-encode_event}

abbrev pub bid : NewOrderCommand
bid = record {
  order_id = 300;
  trader_id = 7;
  symbol_id = 1;
  side = Side.sell;
  type = OrderType.limit;
  price = ℤ.negsuc 4;
  quantity = 12;
  time_in_force = TimeInForce.fill_or_kill;
  timestamp = 1000000;
}

pub bid-IsNewOrder : IsNewOrder bid
bid-IsNewOrder = record {
  order_id = omega arith;
  trader_id = omega arith;
  symbol_id = omega arith;
  side = tt;
  type = tt;
  price = omega arith;
  quantity = omega arith;
  time_in_force = tt;
  timestamp = omega arith;
}

decode_command-encode_command_example :
    decode_command (encode_command (new_order bid) ++ (255 ∷ [])) ≡ some (new_order bid)
decode_command-encode_command_example =
    decode_command-encode_command (new_order bid) (255 ∷ []) bid-IsNewOrder

abbrev taken : AcceptedEvent
taken = record {
  sequence_number = 5;
  timestamp = 1000000;
  symbol_id = 1;
  order_id = 300;
  trader_id = 7;
  side = Side.sell;
  type = OrderType.limit;
  price = ℤ.negsuc 4;
  quantity = 12;
  filled_quantity = 4;
  remaining_quantity = 8;
  status = OrderStatus.partially_filled;
}

taken-IsAcceptedEvent : IsAcceptedEvent taken
taken-IsAcceptedEvent = record {
  sequence_number = omega arith;
  timestamp = omega arith;
  symbol_id = omega arith;
  order_id = omega arith;
  trader_id = omega arith;
  side = tt;
  type = tt;
  price = omega arith;
  quantity = omega arith;
  filled_quantity = omega arith;
  remaining_quantity = omega arith;
  status = tt;
}

decode_event-encode_event_example :
    decode_event (encode_event (accepted taken) ++ (1 ∷ [])) ≡ some (accepted taken)
decode_event-encode_event_example =
    decode_event-encode_event (accepted taken) (1 ∷ []) taken-IsAcceptedEvent

abbrev pub resting : Order
resting = record {
  id = 300;
  trader_id = 7;
  symbol_id = 1;
  sequence_number = 5;
  timestamp = 1000000;
  price = ℤ.pos 99;
  quantity = 12;
  remaining_quantity = 8;
  side = Side.sell;
  type = OrderType.limit;
  time_in_force = TimeInForce.good_till_cancel;
  status = OrderStatus.partially_filled;
}

resting-IsOrder : IsOrder resting
resting-IsOrder = record {
  id = omega arith;
  trader_id = omega arith;
  symbol_id = omega arith;
  sequence_number = omega arith;
  timestamp = omega arith;
  price = omega arith;
  quantity = omega arith;
  remaining_quantity = omega arith;
  side = tt;
  type = tt;
  time_in_force = tt;
  status = tt;
}

read_order-write_order_example :
    read_order (write_order resting ++ (1 ∷ 2 ∷ [])) ≡ some (resting, 1 ∷ 2 ∷ [])
read_order-write_order_example = read_order-write_order resting (1 ∷ 2 ∷ []) resting-IsOrder
