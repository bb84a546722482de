-- ===== src/Wire/Commands.antt =====
-- `EncodeCommand` and `DecodeCommand` of src/net/protocol.cpp.
use order_book_matching_engi.Common.{ℕ, ◌==◌, if◌then◌else◌, Option, none, some, ◌++◌}
use order_book_matching_engi.Types.Messages.{
  Command, new_order, cancel, modify, NewOrderCommand, CancelCommand, ModifyCommand,
}
use order_book_matching_engi.Wire.{
  Bytes, Reader, ◌>>=◌, return, write_u8, write_u32, write_u64, write_i64, read_u8, read_u32,
  read_u64, read_i64,
}
use order_book_matching_engi.Wire.Enums.{
  side_byte, side_of_byte, type_byte, type_of_byte, time_in_force_byte, time_in_force_of_byte,
}

-- The fields of a command in their order, behind the type byte.
unfoldable pub encode_new_order : NewOrderCommand → Bytes
encode_new_order c =
    write_u64 c.order_id
    ++ (write_u64 c.trader_id
        ++ (write_u32 c.symbol_id
            ++ (write_u8 (side_byte c.side)
                ++ (write_u8 (type_byte c.type)
                    ++ (write_u8 (time_in_force_byte c.time_in_force)
                        ++ (write_i64 c.price
                            ++ (write_u64 c.quantity ++ write_u64 c.timestamp)))))))

unfoldable pub encode_cancel : CancelCommand → Bytes
encode_cancel c =
    write_u64 c.order_id
    ++ (write_u64 c.trader_id ++ (write_u32 c.symbol_id ++ write_u64 c.timestamp))

unfoldable pub encode_modify : ModifyCommand → Bytes
encode_modify c =
    write_u64 c.order_id
    ++ (write_u64 c.trader_id
        ++ (write_u32 c.symbol_id
            ++ (write_i64 c.new_price ++ (write_u64 c.new_quantity ++ write_u64 c.timestamp))))

unfoldable pub encode_command : Command → Bytes
encode_command (new_order c) = write_u8 0x01 ++ encode_new_order c
encode_command (cancel c) = write_u8 0x02 ++ encode_cancel c
encode_command (modify c) = write_u8 0x03 ++ encode_modify c

unfoldable pub decode_new_order : Reader Command
decode_new_order = do
  order_id ← read_u64
  trader_id ← read_u64
  symbol_id ← read_u32
  side ← read_u8
  type ← read_u8
  tif ← read_u8
  price ← read_i64
  quantity ← read_u64
  timestamp ← read_u64
  return (
      new_order (record {
        order_id = order_id;
        trader_id = trader_id;
        symbol_id = symbol_id;
        side = side_of_byte side;
        type = type_of_byte type;
        price = price;
        quantity = quantity;
        time_in_force = time_in_force_of_byte tif;
        timestamp = timestamp;
      }))

unfoldable pub decode_cancel : Reader Command
decode_cancel = do
  order_id ← read_u64
  trader_id ← read_u64
  symbol_id ← read_u32
  timestamp ← read_u64
  return (
      cancel (record {
        order_id = order_id;
        trader_id = trader_id;
        symbol_id = symbol_id;
        timestamp = timestamp;
      }))

unfoldable pub decode_modify : Reader Command
decode_modify = do
  order_id ← read_u64
  trader_id ← read_u64
  symbol_id ← read_u32
  new_price ← read_i64
  new_quantity ← read_u64
  timestamp ← read_u64
  return (
      modify (record {
        order_id = order_id;
        trader_id = trader_id;
        symbol_id = symbol_id;
        new_price = new_price;
        new_quantity = new_quantity;
        timestamp = timestamp;
      }))

-- The switch on the type byte; any other value is malformed.
unfoldable pub decode_body : ℕ → Reader Command
decode_body type_byte bytes =
    if type_byte == 0x01
    then decode_new_order bytes
    else if type_byte == 0x02
    then decode_cancel bytes
    else if type_byte == 0x03
    then decode_modify bytes
    else none

-- What is left of the body behind a command is not looked at.
unfoldable pub decode_command : Bytes → Option Command
decode_command body = elim ((read_u8 >>= decode_body) body) [
  | none ↦ none
  | some (c, rest) ↦ some c
]
