-- ===== src/Wire/EventRoundTrip.antt =====
-- Events, as a client reads them back.
use order_book_matching_engi.Common.{◌≡◌, refl, subst, Bool, true, false, not, ◌==◌, some, ◌++◌}
use order_book_matching_engi.Common.Int.{IsI64}
use order_book_matching_engi.Common.Words.{IsU32, IsU64}
use order_book_matching_engi.Types.{Trade}
use order_book_matching_engi.Types.Messages.{
  Event, accepted, rejected, cancelled, modified, trade, book_update, AcceptedEvent, RejectedEvent,
  CancelledEvent, ModifiedEvent, BookUpdateEvent,
}
use order_book_matching_engi.Wire.{Bytes, ◌>>=◌, write_u8, read_u8}
use order_book_matching_engi.Wire.Enums.{
  side_byte, side_of_byte-side_byte, type_byte, type_of_byte-type_byte, status_byte,
  status_of_byte-status_byte, reason_byte, reason_of_byte-reason_byte, IsSide, IsOrderType,
  IsOrderStatus, IsRejectReason,
}
use order_book_matching_engi.Wire.Events.{
  bool_byte, encode_event, decode_event, decode_shared, decode_payload, encode_accepted,
  decode_accepted, encode_rejected, decode_rejected, encode_cancelled, decode_cancelled,
  encode_modified, decode_modified, encode_trade, decode_trade, encode_book_update,
  decode_book_update,
}
use order_book_matching_engi.Wire.RoundTrip.{
  Reads, bind_Reads, last_Reads, u64_Reads, u32_Reads, i64_Reads, u8_Reads,
}

bool_of_byte-bool_byte : (b : Bool) → not (bool_byte b == 0) ≡ b
bool_of_byte-bool_byte true = refl
bool_of_byte-bool_byte false = refl

-- Each field in the range of its type.
pub record IsAcceptedEvent (e : AcceptedEvent) : Type 0 where
  pub sequence_number : IsU64 e.sequence_number
  pub timestamp : IsU64 e.timestamp
  pub symbol_id : IsU32 e.symbol_id
  pub order_id : IsU64 e.order_id
  pub trader_id : IsU64 e.trader_id
  pub side : IsSide e.side
  pub type : IsOrderType e.type
  pub price : IsI64 e.price
  pub quantity : IsU64 e.quantity
  pub filled_quantity : IsU64 e.filled_quantity
  pub remaining_quantity : IsU64 e.remaining_quantity
  pub status : IsOrderStatus e.status

pub record IsRejectedEvent (e : RejectedEvent) : Type 0 where
  pub sequence_number : IsU64 e.sequence_number
  pub timestamp : IsU64 e.timestamp
  pub symbol_id : IsU32 e.symbol_id
  pub order_id : IsU64 e.order_id
  pub trader_id : IsU64 e.trader_id
  pub reason : IsRejectReason e.reason

pub record IsCancelledEvent (e : CancelledEvent) : Type 0 where
  pub sequence_number : IsU64 e.sequence_number
  pub timestamp : IsU64 e.timestamp
  pub symbol_id : IsU32 e.symbol_id
  pub order_id : IsU64 e.order_id
  pub trader_id : IsU64 e.trader_id

pub record IsModifiedEvent (e : ModifiedEvent) : Type 0 where
  pub sequence_number : IsU64 e.sequence_number
  pub timestamp : IsU64 e.timestamp
  pub symbol_id : IsU32 e.symbol_id
  pub order_id : IsU64 e.order_id
  pub trader_id : IsU64 e.trader_id
  pub new_price : IsI64 e.new_price
  pub new_remaining_quantity : IsU64 e.new_remaining_quantity

pub record IsTradeEvent (e : Trade) : Type 0 where
  pub sequence_number : IsU64 e.sequence_number
  pub timestamp : IsU64 e.timestamp
  pub symbol_id : IsU32 e.symbol_id
  pub aggressor_order_id : IsU64 e.aggressor_order_id
  pub resting_order_id : IsU64 e.resting_order_id
  pub aggressor_trader_id : IsU64 e.aggressor_trader_id
  pub resting_trader_id : IsU64 e.resting_trader_id
  pub aggressor_side : IsSide e.aggressor_side
  pub price : IsI64 e.price
  pub quantity : IsU64 e.quantity

pub record IsBookUpdateEvent (e : BookUpdateEvent) : Type 0 where
  pub sequence_number : IsU64 e.sequence_number
  pub timestamp : IsU64 e.timestamp
  pub symbol_id : IsU32 e.symbol_id
  pub side : IsSide e.side
  pub price : IsI64 e.price
  pub aggregate_quantity : IsU64 e.aggregate_quantity

abbrev pub IsEvent : Event → Type 0
IsEvent (accepted e) = IsAcceptedEvent e
IsEvent (rejected e) = IsRejectedEvent e
IsEvent (cancelled e) = IsCancelledEvent e
IsEvent (modified e) = IsModifiedEvent e
IsEvent (trade e) = IsTradeEvent e
IsEvent (book_update e) = IsBookUpdateEvent e

accepted_Reads :
    (e : AcceptedEvent)
    → IsAcceptedEvent e
    → Reads (decode_shared 0x81) (encode_accepted e) (accepted e)
unfolding decode_shared decode_payload decode_accepted encode_accepted
accepted_Reads e h =
    subst (Reads (decode_shared 0x81) (encode_accepted e))
      (λ i. accepted (record e {
        side = side_of_byte-side_byte e.side h.side i;
        type = type_of_byte-type_byte e.type h.type i;
        status = status_of_byte-status_byte e.status h.status i;
      }))
      (bind_Reads _ (u64_Reads h.sequence_number) (
        bind_Reads _ (u64_Reads h.timestamp) (
          bind_Reads _ (u32_Reads h.symbol_id) (
            bind_Reads _ (u64_Reads h.order_id) (
              bind_Reads _ (u64_Reads h.trader_id) (
                bind_Reads _ (u8_Reads (side_byte e.side)) (
                  bind_Reads _ (u8_Reads (type_byte e.type)) (
                    bind_Reads _ (i64_Reads h.price) (
                      bind_Reads _ (u64_Reads h.quantity) (
                        bind_Reads _ (u64_Reads h.filled_quantity) (
                          bind_Reads _ (u64_Reads h.remaining_quantity)
                            (last_Reads _ (u8_Reads (status_byte e.status))))))))))))))

rejected_Reads :
    (e : RejectedEvent)
    → IsRejectedEvent e
    → Reads (decode_shared 0x82) (encode_rejected e) (rejected e)
unfolding decode_shared decode_payload decode_rejected encode_rejected
rejected_Reads e h =
    subst (Reads (decode_shared 0x82) (encode_rejected e))
      (λ i. rejected (record e { reason = reason_of_byte-reason_byte e.reason h.reason i }))
      (bind_Reads _ (u64_Reads h.sequence_number) (
        bind_Reads _ (u64_Reads h.timestamp) (
          bind_Reads _ (u32_Reads h.symbol_id) (
            bind_Reads _ (u64_Reads h.order_id) (
              bind_Reads _ (u64_Reads h.trader_id)
                (last_Reads _ (u8_Reads (reason_byte e.reason))))))))

cancelled_Reads :
    (e : CancelledEvent)
    → IsCancelledEvent e
    → Reads (decode_shared 0x83) (encode_cancelled e) (cancelled e)
unfolding decode_shared decode_payload decode_cancelled encode_cancelled
cancelled_Reads e h = bind_Reads _ (u64_Reads h.sequence_number) (
    bind_Reads _ (u64_Reads h.timestamp) (
      bind_Reads _ (u32_Reads h.symbol_id)
        (bind_Reads _ (u64_Reads h.order_id) (last_Reads _ (u64_Reads h.trader_id)))))

modified_Reads :
    (e : ModifiedEvent)
    → IsModifiedEvent e
    → Reads (decode_shared 0x84) (encode_modified e) (modified e)
unfolding decode_shared decode_payload decode_modified encode_modified
modified_Reads e h =
    subst (Reads (decode_shared 0x84) (encode_modified e))
      (λ i. modified (record e { lost_priority = bool_of_byte-bool_byte e.lost_priority i }))
      (bind_Reads _ (u64_Reads h.sequence_number) (
        bind_Reads _ (u64_Reads h.timestamp) (
          bind_Reads _ (u32_Reads h.symbol_id) (
            bind_Reads _ (u64_Reads h.order_id) (
              bind_Reads _ (u64_Reads h.trader_id) (
                bind_Reads _ (i64_Reads h.new_price) (
                  bind_Reads _ (u64_Reads h.new_remaining_quantity)
                    (last_Reads _ (u8_Reads (bool_byte e.lost_priority))))))))))

trade_Reads : (e : Trade) → IsTradeEvent e → Reads (decode_shared 0x85) (encode_trade e) (trade e)
unfolding decode_shared decode_payload decode_trade encode_trade
trade_Reads e h =
    subst (Reads (decode_shared 0x85) (encode_trade e))
      (λ i.
        trade (record e {
          aggressor_side = side_of_byte-side_byte e.aggressor_side h.aggressor_side i;
        }))
      (bind_Reads _ (u64_Reads h.sequence_number) (
        bind_Reads _ (u64_Reads h.timestamp) (
          bind_Reads _ (u32_Reads h.symbol_id) (
            bind_Reads _ (u64_Reads h.aggressor_order_id) (
              bind_Reads _ (u64_Reads h.resting_order_id) (
                bind_Reads _ (u64_Reads h.aggressor_trader_id) (
                  bind_Reads _ (u64_Reads h.resting_trader_id) (
                    bind_Reads _ (u8_Reads (side_byte e.aggressor_side)) (
                      bind_Reads _ (i64_Reads h.price)
                        (last_Reads _ (u64_Reads h.quantity)))))))))))

book_update_Reads :
    (e : BookUpdateEvent)
    → IsBookUpdateEvent e
    → Reads (decode_shared 0x86) (encode_book_update e) (book_update e)
unfolding decode_shared decode_payload decode_book_update encode_book_update
book_update_Reads e h =
    subst (Reads (decode_shared 0x86) (encode_book_update e))
      (λ i. book_update (record e { side = side_of_byte-side_byte e.side h.side i }))
      (bind_Reads _ (u64_Reads h.sequence_number) (
        bind_Reads _ (u64_Reads h.timestamp) (
          bind_Reads _ (u32_Reads h.symbol_id) (
            bind_Reads _ (u8_Reads (side_byte e.side))
              (bind_Reads _ (i64_Reads h.price) (last_Reads _ (u64_Reads h.aggregate_quantity)))))))

-- Decoding what `EncodeEvent` wrote for an event whose fields are in range gives that event back,
-- whatever bytes follow it.
pub decode_event-encode_event :
    (e : Event) (rest : Bytes) → IsEvent e → decode_event (encode_event e ++ rest) ≡ some e
unfolding decode_event encode_event ◌>>=◌ read_u8 write_u8
decode_event-encode_event (accepted e) rest h = rw ((accepted_Reads e h).reads rest, decode_event)
decode_event-encode_event (rejected e) rest h = rw ((rejected_Reads e h).reads rest, decode_event)
decode_event-encode_event (cancelled e) rest h = rw ((cancelled_Reads e h).reads rest, decode_event)
decode_event-encode_event (modified e) rest h = rw ((modified_Reads e h).reads rest, decode_event)
decode_event-encode_event (trade e) rest h = rw ((trade_Reads e h).reads rest, decode_event)
decode_event-encode_event (book_update e) rest h =
    rw ((book_update_Reads e h).reads rest, decode_event)
