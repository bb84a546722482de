-- ===== src/Types/Messages.antt =====
-- Commands and events: include/matching_engine/command.hpp and events.hpp.
use order_book_matching_engi.Common.{ℕ, Bool}
use order_book_matching_engi.Types.{
  Price, OrderId, Quantity, Side, OrderType, TimeInForce, OrderStatus, RejectReason, Trade,
}

pub record NewOrderCommand : Type 0 where
  pub order_id : OrderId
  pub trader_id : ℕ
  pub symbol_id : ℕ
  pub side : Side
  pub type : OrderType
  pub price : Price
  pub quantity : Quantity
  pub time_in_force : TimeInForce
  pub timestamp : ℕ

pub record CancelCommand : Type 0 where
  pub order_id : OrderId
  pub trader_id : ℕ
  pub symbol_id : ℕ
  pub timestamp : ℕ

pub record ModifyCommand : Type 0 where
  pub order_id : OrderId
  pub trader_id : ℕ
  pub symbol_id : ℕ
  pub new_price : Price
  pub new_quantity : Quantity
  pub timestamp : ℕ

pub data Command : Type 0 where
  new_order : NewOrderCommand → Command
  cancel : CancelCommand → Command
  modify : ModifyCommand → Command

-- The routing key.
unfoldable pub symbol_of : Command → ℕ
symbol_of (new_order c) = c.symbol_id
symbol_of (cancel c) = c.symbol_id
symbol_of (modify c) = c.symbol_id

pub record AcceptedEvent : Type 0 where
  pub sequence_number : ℕ
  pub timestamp : ℕ
  pub symbol_id : ℕ
  pub order_id : OrderId
  pub trader_id : ℕ
  pub side : Side
  pub type : OrderType
  pub price : Price
  pub quantity : Quantity
  pub filled_quantity : Quantity
  pub remaining_quantity : Quantity
  pub status : OrderStatus

pub record RejectedEvent : Type 0 where
  pub sequence_number : ℕ
  pub timestamp : ℕ
  pub symbol_id : ℕ
  pub order_id : OrderId
  pub trader_id : ℕ
  pub reason : RejectReason

pub record CancelledEvent : Type 0 where
  pub sequence_number : ℕ
  pub timestamp : ℕ
  pub symbol_id : ℕ
  pub order_id : OrderId
  pub trader_id : ℕ

pub record ModifiedEvent : Type 0 where
  pub sequence_number : ℕ
  pub timestamp : ℕ
  pub symbol_id : ℕ
  pub order_id : OrderId
  pub trader_id : ℕ
  pub new_price : Price
  pub new_remaining_quantity : Quantity
  pub lost_priority : Bool

pub record BookUpdateEvent : Type 0 where
  pub sequence_number : ℕ
  pub timestamp : ℕ
  pub symbol_id : ℕ
  pub side : Side
  pub price : Price
  pub aggregate_quantity : Quantity

pub data Event : Type 0 where
  accepted : AcceptedEvent → Event
  rejected : RejectedEvent → Event
  cancelled : CancelledEvent → Event
  modified : ModifiedEvent → Event
  trade : Trade → Event
  book_update : BookUpdateEvent → Event
