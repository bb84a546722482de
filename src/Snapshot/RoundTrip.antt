-- ===== src/Snapshot/RoundTrip.antt =====
-- The order records of a snapshot are read back as they were written.
use order_book_matching_engi.Common.{◌≡◌, subst, some, ◌++◌}
use order_book_matching_engi.Common.Int.{IsI64}
use order_book_matching_engi.Common.Words.{IsU32, IsU64}
use order_book_matching_engi.Types.{Order}
use order_book_matching_engi.Wire.{Bytes}
use order_book_matching_engi.Wire.RoundTrip.{
  Reads, bind_Reads, last_Reads, u64_Reads, u32_Reads, i64_Reads, u8_Reads,
}
use order_book_matching_engi.Wire.Enums.{
  side_byte, IsSide, IsOrderType, IsTimeInForce, IsOrderStatus, side_of_byte-side_byte,
  type_of_byte-type_byte, time_in_force_of_byte-time_in_force_byte, status_of_byte-status_byte,
  type_byte, time_in_force_byte, status_byte,
}
use order_book_matching_engi.Snapshot.{write_order, read_order}

-- Each field in the range of its type.
pub record IsOrder (o : Order) : Type 0 where
  pub id : IsU64 o.id
  pub trader_id : IsU64 o.trader_id
  pub symbol_id : IsU32 o.symbol_id
  pub sequence_number : IsU64 o.sequence_number
  pub timestamp : IsU64 o.timestamp
  pub price : IsI64 o.price
  pub quantity : IsU64 o.quantity
  pub remaining_quantity : IsU64 o.remaining_quantity
  pub side : IsSide o.side
  pub type : IsOrderType o.type
  pub time_in_force : IsTimeInForce o.time_in_force
  pub status : IsOrderStatus o.status

order_Reads : (o : Order) → IsOrder o → Reads read_order (write_order o) o
unfolding read_order write_order
order_Reads o h =
    subst (Reads read_order (write_order o))
      (λ i. record o {
        side = side_of_byte-side_byte o.side h.side i;
        type = type_of_byte-type_byte o.type h.type i;
        time_in_force = time_in_force_of_byte-time_in_force_byte o.time_in_force h.time_in_force i;
        status = status_of_byte-status_byte o.status h.status i;
      })
      (bind_Reads _ (u64_Reads h.id) (
        bind_Reads _ (u64_Reads h.trader_id) (
          bind_Reads _ (u32_Reads h.symbol_id) (
            bind_Reads _ (u64_Reads h.sequence_number) (
              bind_Reads _ (u64_Reads h.timestamp) (
                bind_Reads _ (i64_Reads h.price) (
                  bind_Reads _ (u64_Reads h.quantity) (
                    bind_Reads _ (u64_Reads h.remaining_quantity) (
                      bind_Reads _ (u8_Reads (side_byte o.side)) (
                        bind_Reads _ (u8_Reads (type_byte o.type)) (
                          bind_Reads _ (u8_Reads (time_in_force_byte o.time_in_force))
                            (last_Reads _ (u8_Reads (status_byte o.status))))))))))))))

-- Reading an order record that was written for an order whose fields are in range gives the order
-- back, and leaves exactly the bytes behind the record.
pub read_order-write_order :
    (o : Order) (rest : Bytes) → IsOrder o → read_order (write_order o ++ rest) ≡ some (o, rest)
read_order-write_order o rest h = (order_Reads o h).reads rest
