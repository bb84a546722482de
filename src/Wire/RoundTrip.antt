-- ===== src/Wire/RoundTrip.antt =====
-- What is encoded is decoded again, whatever bytes follow it.
use order_book_matching_engi.Common.{ℕ, ◌≡◌, some, ◌++◌}
use order_book_matching_engi.Common.Int.{ℤ, IsI64}
use order_book_matching_engi.Common.Words.{IsU32, IsU64}
use order_book_matching_engi.Types.{Side, OrderType, TimeInForce}
use order_book_matching_engi.Types.Messages.{
  Command, new_order, cancel, modify, NewOrderCommand, CancelCommand, ModifyCommand,
}
use order_book_matching_engi.Wire.{
  Bytes, Reader, ◌>>=◌, return, write_u8, write_u32, write_u64, write_i64, read_u8, read_u32,
  read_u64, read_i64,
}
use order_book_matching_engi.Wire.Primitives.{
  read_u8-write_u8, read_u32-write_u32, read_u64-write_u64, read_i64-write_i64,
}
use order_book_matching_engi.Wire.Enums.{
  side_byte, type_byte, time_in_force_byte, IsSide, IsOrderType, IsTimeInForce,
  side_of_byte-side_byte, type_of_byte-type_byte, time_in_force_of_byte-time_in_force_byte,
}
use order_book_matching_engi.Wire.Commands.{
  encode_new_order, encode_cancel, encode_modify, encode_command, decode_new_order, decode_cancel,
  decode_modify, decode_body, decode_command,
}
use mathlib.Core.List.{append_assoc}

-- `r` reads `a` off the bytes `w`, whatever follows them.
pub record Reads {A : Type 0} (r : Reader A) (w : Bytes) (a : A) : Type 0 where
  pub reads : (rest : Bytes) → r (w ++ rest) ≡ some (a, rest)

pub bind_Reads :
    {A B : Type 0} {r : Reader A} (f : A → Reader B) {w w' : Bytes} {a : A} {b : B}
    → Reads r w a
    → Reads (f a) w' b
    → Reads (r >>= f) (w ++ w') b
unfolding ◌>>=◌
bind_Reads f {w = w} {w' = w'} p q = record {
  reads = λ rest. rw (append_assoc w w' rest, p.reads (w' ++ rest), ◌>>=◌) (q.reads rest);
}

-- The last read, with what is made of it.
pub last_Reads :
    {A B : Type 0} {r : Reader A} (f : A → B) {w : Bytes} {a : A}
    → Reads r w a
    → Reads (r >>= λ x. return (f x)) w (f a)
unfolding ◌>>=◌ return
last_Reads f p = record { reads = λ rest. rw (p.reads rest, ◌>>=◌) }

-- Each field in the range of its type.
pub record IsNewOrder (c : NewOrderCommand) : Type 0 where
  pub order_id : IsU64 c.order_id
  pub trader_id : IsU64 c.trader_id
  pub symbol_id : IsU32 c.symbol_id
  pub side : IsSide c.side
  pub type : IsOrderType c.type
  pub price : IsI64 c.price
  pub quantity : IsU64 c.quantity
  pub time_in_force : IsTimeInForce c.time_in_force
  pub timestamp : IsU64 c.timestamp

pub u64_Reads : {v : ℕ} → IsU64 v → Reads read_u64 (write_u64 v) v
u64_Reads {v} h = record { reads = λ rest. read_u64-write_u64 v rest h }

pub u32_Reads : {v : ℕ} → IsU32 v → Reads read_u32 (write_u32 v) v
u32_Reads {v} h = record { reads = λ rest. read_u32-write_u32 v rest h }

pub i64_Reads : {v : ℤ} → IsI64 v → Reads read_i64 (write_i64 v) v
i64_Reads {v} h = record { reads = λ rest. read_i64-write_i64 v rest h }

pub u8_Reads : (v : ℕ) → Reads read_u8 (write_u8 v) v
u8_Reads v = record { reads = read_u8-write_u8 v }

-- A byte that stands for an enumerator.
cast_Reads :
    {A : Type 0} (f : ℕ → Reader A) (b : ℕ) {w : Bytes} {a : A}
    → Reads (f b) w a
    → Reads (read_u8 >>= f) (write_u8 b ++ w) a
cast_Reads f b p = bind_Reads f (u8_Reads b) p

-- The fields of a new order behind its enumerations.
new_order_tail :
    (c : NewOrderCommand) (s : Side) (t : OrderType) (f : TimeInForce)
    → IsNewOrder c
    → s ≡ c.side
    → t ≡ c.type
    → f ≡ c.time_in_force
    → Reads
        (do
          price ← read_i64
          quantity ← read_u64
          timestamp ← read_u64
          return (
              new_order (record {
                order_id = c.order_id;
                trader_id = c.trader_id;
                symbol_id = c.symbol_id;
                side = s;
                type = t;
                price = price;
                quantity = quantity;
                time_in_force = f;
                timestamp = timestamp;
              })))
        (write_i64 c.price ++ (write_u64 c.quantity ++ write_u64 c.timestamp))
        (new_order c)
new_order_tail c s t f h es et ef =
    rw (es, et, ef)
      (bind_Reads _ (i64_Reads h.price)
        (bind_Reads _ (u64_Reads h.quantity) (last_Reads _ (u64_Reads h.timestamp))))

new_order_Reads :
    (c : NewOrderCommand) → IsNewOrder c → Reads decode_new_order (encode_new_order c) (new_order c)
unfolding decode_new_order encode_new_order
new_order_Reads c h = bind_Reads _ (u64_Reads h.order_id) (
    bind_Reads _ (u64_Reads h.trader_id) (
      bind_Reads _ (u32_Reads h.symbol_id) (
        cast_Reads _ (side_byte c.side) (
          cast_Reads _ (type_byte c.type) (
            cast_Reads _ (time_in_force_byte c.time_in_force) (
              new_order_tail c _ _ _ h (side_of_byte-side_byte c.side h.side)
                (type_of_byte-type_byte c.type h.type)
                (time_in_force_of_byte-time_in_force_byte c.time_in_force h.time_in_force)))))))

-- Each field in the range of its type.
pub record IsCancel (c : CancelCommand) : Type 0 where
  pub order_id : IsU64 c.order_id
  pub trader_id : IsU64 c.trader_id
  pub symbol_id : IsU32 c.symbol_id
  pub timestamp : IsU64 c.timestamp

pub record IsModify (c : ModifyCommand) : Type 0 where
  pub order_id : IsU64 c.order_id
  pub trader_id : IsU64 c.trader_id
  pub symbol_id : IsU32 c.symbol_id
  pub new_price : IsI64 c.new_price
  pub new_quantity : IsU64 c.new_quantity
  pub timestamp : IsU64 c.timestamp

abbrev pub IsCommand : Command → Type 0
IsCommand (new_order c) = IsNewOrder c
IsCommand (cancel c) = IsCancel c
IsCommand (modify c) = IsModify c

cancel_Reads : (c : CancelCommand) → IsCancel c → Reads decode_cancel (encode_cancel c) (cancel c)
unfolding decode_cancel encode_cancel
cancel_Reads c h = bind_Reads _ (u64_Reads h.order_id) (
    bind_Reads _ (u64_Reads h.trader_id)
      (bind_Reads _ (u32_Reads h.symbol_id) (last_Reads _ (u64_Reads h.timestamp))))

modify_Reads : (c : ModifyCommand) → IsModify c → Reads decode_modify (encode_modify c) (modify c)
unfolding decode_modify encode_modify
modify_Reads c h = bind_Reads _ (u64_Reads h.order_id) (
    bind_Reads _ (u64_Reads h.trader_id) (
      bind_Reads _ (u32_Reads h.symbol_id) (
        bind_Reads _ (i64_Reads h.new_price)
          (bind_Reads _ (u64_Reads h.new_quantity) (last_Reads _ (u64_Reads h.timestamp))))))

-- Decoding what `EncodeCommand` wrote for a command whose fields are in range gives that command
-- back, whatever bytes follow it in the body.
pub decode_command-encode_command :
    (c : Command) (rest : Bytes) → IsCommand c → decode_command (encode_command c ++ rest) ≡ some c
unfolding decode_command encode_command decode_body ◌>>=◌ read_u8 write_u8
decode_command-encode_command (new_order c) rest h =
    rw ((new_order_Reads c h).reads rest, decode_command)
decode_command-encode_command (cancel c) rest h = rw ((cancel_Reads c h).reads rest, decode_command)
decode_command-encode_command (modify c) rest h = rw ((modify_Reads c h).reads rest, decode_command)
