-- ===== src/Wire/Events.antt =====
-- `EncodeEvent` and `DecodeEvent` of src/net/protocol.cpp.
use order_book_matching_engi.Common.{ℕ, Bool, not, ◌==◌, if◌then◌else◌, Option, none, some, ◌++◌}
use order_book_matching_engi.Types.{Trade}
use order_book_matching_engi.Types.Messages.{
  Event, accepted, rejected, cancelled, modified, trade, book_update, AcceptedEvent, RejectedEvent,
  CancelledEvent, ModifiedEvent, BookUpdateEvent,
}
use order_book_matching_engi.Wire.{
  Bytes, Reader, ◌>>=◌, return, write_u8, write_u32, write_u64, write_i64, read_u8, read_u32,
  read_u64, read_i64,
}
use order_book_matching_engi.Wire.Enums.{
  side_byte, side_of_byte, type_byte, type_of_byte, status_byte, status_of_byte, reason_byte,
  reason_of_byte,
}

-- `lost_priority ? 1 : 0`
abbrev pub bool_byte : Bool → ℕ
bool_byte b = if b then 1 else 0

-- The fields of each event in their order, behind the type byte.
unfoldable pub encode_accepted : AcceptedEvent → Bytes
encode_accepted e =
    write_u64 e.sequence_number
    ++ (write_u64 e.timestamp
        ++ (write_u32 e.symbol_id
            ++ (write_u64 e.order_id
                ++ (write_u64 e.trader_id
                    ++ (write_u8 (side_byte e.side)
                        ++ (write_u8 (type_byte e.type)
                            ++ (write_i64 e.price
                                ++ (write_u64 e.quantity
                                    ++ (write_u64 e.filled_quantity
                                        ++ (write_u64 e.remaining_quantity
                                            ++ (write_u8 (status_byte e.status))))))))))))

unfoldable pub encode_rejected : RejectedEvent → Bytes
encode_rejected e =
    write_u64 e.sequence_number
    ++ (write_u64 e.timestamp
        ++ (write_u32 e.symbol_id
            ++ (write_u64 e.order_id
                ++ (write_u64 e.trader_id ++ (write_u8 (reason_byte e.reason))))))

unfoldable pub encode_cancelled : CancelledEvent → Bytes
encode_cancelled e =
    write_u64 e.sequence_number
    ++ (write_u64 e.timestamp
        ++ (write_u32 e.symbol_id ++ (write_u64 e.order_id ++ (write_u64 e.trader_id))))

unfoldable pub encode_modified : ModifiedEvent → Bytes
encode_modified e =
    write_u64 e.sequence_number
    ++ (write_u64 e.timestamp
        ++ (write_u32 e.symbol_id
            ++ (write_u64 e.order_id
                ++ (write_u64 e.trader_id
                    ++ (write_i64 e.new_price
                        ++ (write_u64 e.new_remaining_quantity
                            ++ (write_u8 (bool_byte e.lost_priority))))))))

unfoldable pub encode_trade : Trade → Bytes
encode_trade e =
    write_u64 e.sequence_number
    ++ (write_u64 e.timestamp
        ++ (write_u32 e.symbol_id
            ++ (write_u64 e.aggressor_order_id
                ++ (write_u64 e.resting_order_id
                    ++ (write_u64 e.aggressor_trader_id
                        ++ (write_u64 e.resting_trader_id
                            ++ (write_u8 (side_byte e.aggressor_side)
                                ++ (write_i64 e.price ++ (write_u64 e.quantity)))))))))

unfoldable pub encode_book_update : BookUpdateEvent → Bytes
encode_book_update e =
    write_u64 e.sequence_number
    ++ (write_u64 e.timestamp
        ++ (write_u32 e.symbol_id
            ++ (write_u8 (side_byte e.side)
                ++ (write_i64 e.price ++ (write_u64 e.aggregate_quantity)))))

unfoldable pub encode_event : Event → Bytes
encode_event (accepted e) = write_u8 0x81 ++ encode_accepted e
encode_event (rejected e) = write_u8 0x82 ++ encode_rejected e
encode_event (cancelled e) = write_u8 0x83 ++ encode_cancelled e
encode_event (modified e) = write_u8 0x84 ++ encode_modified e
encode_event (trade e) = write_u8 0x85 ++ encode_trade e
encode_event (book_update e) = write_u8 0x86 ++ encode_book_update e

-- Each event behind the three fields that all share.
unfoldable pub decode_accepted : ℕ → ℕ → ℕ → Reader Event
decode_accepted sequence_number timestamp symbol_id = do
  order_id ← read_u64
  trader_id ← read_u64
  side ← read_u8
  type ← read_u8
  price ← read_i64
  quantity ← read_u64
  filled_quantity ← read_u64
  remaining_quantity ← read_u64
  status ← read_u8
  return (
      accepted (record {
        sequence_number = sequence_number;
        timestamp = timestamp;
        symbol_id = symbol_id;
        order_id = order_id;
        trader_id = trader_id;
        side = side_of_byte side;
        type = type_of_byte type;
        price = price;
        quantity = quantity;
        filled_quantity = filled_quantity;
        remaining_quantity = remaining_quantity;
        status = status_of_byte status;
      }))

unfoldable pub decode_rejected : ℕ → ℕ → ℕ → Reader Event
decode_rejected sequence_number timestamp symbol_id = do
  order_id ← read_u64
  trader_id ← read_u64
  reason ← read_u8
  return (
      rejected (record {
        sequence_number = sequence_number;
        timestamp = timestamp;
        symbol_id = symbol_id;
        order_id = order_id;
        trader_id = trader_id;
        reason = reason_of_byte reason;
      }))

unfoldable pub decode_cancelled : ℕ → ℕ → ℕ → Reader Event
decode_cancelled sequence_number timestamp symbol_id = do
  order_id ← read_u64
  trader_id ← read_u64
  return (
      cancelled (record {
        sequence_number = sequence_number;
        timestamp = timestamp;
        symbol_id = symbol_id;
        order_id = order_id;
        trader_id = trader_id;
      }))

unfoldable pub decode_modified : ℕ → ℕ → ℕ → Reader Event
decode_modified sequence_number timestamp symbol_id = do
  order_id ← read_u64
  trader_id ← read_u64
  new_price ← read_i64
  new_remaining_quantity ← read_u64
  lost_priority ← read_u8
  return (
      modified (record {
        sequence_number = sequence_number;
        timestamp = timestamp;
        symbol_id = symbol_id;
        order_id = order_id;
        trader_id = trader_id;
        new_price = new_price;
        new_remaining_quantity = new_remaining_quantity;
        lost_priority = not (lost_priority == 0);
      }))

unfoldable pub decode_trade : ℕ → ℕ → ℕ → Reader Event
decode_trade sequence_number timestamp symbol_id = do
  aggressor_order_id ← read_u64
  resting_order_id ← read_u64
  aggressor_trader_id ← read_u64
  resting_trader_id ← read_u64
  aggressor_side ← read_u8
  price ← read_i64
  quantity ← read_u64
  return (
      trade (record {
        sequence_number = sequence_number;
        timestamp = timestamp;
        symbol_id = symbol_id;
        aggressor_order_id = aggressor_order_id;
        resting_order_id = resting_order_id;
        aggressor_trader_id = aggressor_trader_id;
        resting_trader_id = resting_trader_id;
        aggressor_side = side_of_byte aggressor_side;
        price = price;
        quantity = quantity;
      }))

unfoldable pub decode_book_update : ℕ → ℕ → ℕ → Reader Event
decode_book_update sequence_number timestamp symbol_id = do
  side ← read_u8
  price ← read_i64
  aggregate_quantity ← read_u64
  return (
      book_update (record {
        sequence_number = sequence_number;
        timestamp = timestamp;
        symbol_id = symbol_id;
        side = side_of_byte side;
        price = price;
        aggregate_quantity = aggregate_quantity;
      }))

-- The switch on the type byte, which the function makes behind the shared fields.
unfoldable pub decode_payload : ℕ → ℕ → ℕ → ℕ → Reader Event
decode_payload type_byte seq ts symbol bytes =
    if type_byte == 0x81
    then decode_accepted seq ts symbol bytes
    else if type_byte == 0x82
    then decode_rejected seq ts symbol bytes
    else if type_byte == 0x83
    then decode_cancelled seq ts symbol bytes
    else if type_byte == 0x84
    then decode_modified seq ts symbol bytes
    else if type_byte == 0x85
    then decode_trade seq ts symbol bytes
    else if type_byte == 0x86
    then decode_book_update seq ts symbol bytes
    else none

unfoldable pub decode_shared : ℕ → Reader Event
decode_shared type_byte = do
  seq ← read_u64
  ts ← read_u64
  symbol ← read_u32
  decode_payload type_byte seq ts symbol

unfoldable pub decode_event : Bytes → Option Event
decode_event body = elim ((read_u8 >>= decode_shared) body) [
  | none ↦ none
  | some (e, rest) ↦ some e
]
