-- ===== src/Snapshot.antt =====
-- The order record of a snapshot: `WriteOrder` and `ReadOrder` of src/persistence/snapshot.cpp.
pub mod RoundTrip
pub mod Files
use order_book_matching_engi.Common.{ℕ, List, [], ◌∷◌, ◌++◌}
use order_book_matching_engi.Types.{Order}
use order_book_matching_engi.Wire.{
  Bytes, Reader, ◌>>=◌, return, write_u8, write_u32, write_u64, write_i64, read_u8, read_u32,
  read_u64, read_i64,
}
use order_book_matching_engi.Wire.Enums.{
  side_byte, side_of_byte, type_byte, type_of_byte, time_in_force_byte, time_in_force_of_byte,
  status_byte, status_of_byte,
}

unfoldable pub write_order : Order → Bytes
write_order o =
    write_u64 o.id
    ++ (write_u64 o.trader_id
        ++ (write_u32 o.symbol_id
            ++ (write_u64 o.sequence_number
                ++ (write_u64 o.timestamp
                    ++ (write_i64 o.price
                        ++ (write_u64 o.quantity
                            ++ (write_u64 o.remaining_quantity
                                ++ (write_u8 (side_byte o.side)
                                    ++ (write_u8 (type_byte o.type)
                                        ++ (write_u8 (time_in_force_byte o.time_in_force)
                                            ++ write_u8 (status_byte o.status)))))))))))

unfoldable pub read_order : Reader Order
read_order = do
  id ← read_u64
  trader_id ← read_u64
  symbol_id ← read_u32
  seq ← read_u64
  ts ← read_u64
  price ← read_i64
  quantity ← read_u64
  remaining ← read_u64
  side ← read_u8
  type ← read_u8
  tif ← read_u8
  status ← read_u8
  return (record {
    id = id;
    trader_id = trader_id;
    symbol_id = symbol_id;
    sequence_number = seq;
    timestamp = ts;
    price = price;
    quantity = quantity;
    remaining_quantity = remaining;
    side = side_of_byte side;
    type = type_of_byte type;
    time_in_force = time_in_force_of_byte tif;
    status = status_of_byte status;
  })
