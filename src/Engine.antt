-- ===== src/Engine.antt =====
-- `MatchingEngine` of include/matching_engine/matching_engine.hpp and src/matching_engine.cpp.
-- A result `none` is a dangling iterator of the order book. `out_events` is what one command appends.
pub mod Events
pub mod Partitions
pub mod Isolation
pub mod Sequencing
pub mod Answers
pub mod Books
pub mod Routing
use order_book_matching_engi.Common.{
  ℕ, ◌+◌, ◌==◌, ltb, Bool, true, false, not, ◌&&◌, ◌||◌, if◌then◌else◌, Option, none, some, List,
  [], ◌∷◌, ◌++◌, map, ◌>>=◌,
}
use order_book_matching_engi.Common.Int.{ℤ, eqb_ℤ}
use order_book_matching_engi.Common.Words.{add64}
use order_book_matching_engi.Common.Keyed
use order_book_matching_engi.Types.{
  Price, OrderId, Side, OrderStatus, RejectReason, Order, Trade, opposite,
}
use order_book_matching_engi.Types.Messages.{
  NewOrderCommand, CancelCommand, ModifyCommand, Command, Event, RejectedEvent,
}
use order_book_matching_engi.Types.Messages.Command.{new_order, cancel, modify}
use order_book_matching_engi.Types.Messages.Event.{
  accepted, rejected, cancelled, modified, trade, book_update,
}
use order_book_matching_engi.Naive.{
  OrderBook, AddResult, CancelResult, ModifyResult, empty_book, find_order, has_order,
}
use order_book_matching_engi.Naive.Matching.{Incoming}
use order_book_matching_engi.Naive.Operations.{add_order, restore_order}
use order_book_matching_engi.Naive.Amend.{cancel_order, modify_order}
use order_book_matching_engi.Engine.Events.{
  add_touched, touch_trades, book_updates, accepted_events, cancelled_events, modified_events,
}

pub record Engine : Type 0 where
  pub partition_index : ℕ
  pub next_seq : ℕ
  pub books : List (ℕ × OrderBook)

unfoldable pub new_engine : ℕ → Engine
new_engine partition = record { partition_index = partition; next_seq = 1; books = [] }

unfoldable pub find_book : Engine → ℕ → Option OrderBook
find_book e symbol = Keyed.find symbol e.books

unfoldable pub owns_symbol : Engine → ℕ → Bool
owns_symbol e symbol = elim (Keyed.find symbol e.books) [ none ↦ false | some b ↦ true ]

-- `try_emplace`: a registered symbol keeps its book.
unfoldable pub register_symbol : Engine → ℕ → Engine
register_symbol e symbol = elim (Keyed.find symbol e.books) [
  | none ↦ record e { books = Keyed.insert symbol (empty_book symbol) e.books }
  | some b ↦ e
]

-- The engine once the book behind the pointer of `FindBookMutable` has changed.
abbrev pub with_book : Engine → ℕ → OrderBook → Engine
with_book e symbol b = record e { books = Keyed.insert symbol b e.books }

unfoldable pub restore_engine_order : Engine → ℕ → Order → Engine
restore_engine_order e symbol o = elim (find_book e symbol) [
  | none ↦ e
  | some b ↦ with_book e symbol (restore_order b o)
]

-- The arguments that `ProcessNewOrder` gives to `AddOrder`.
abbrev pub incoming_of : NewOrderCommand → ℕ → Incoming
incoming_of c seq = record {
  id = c.order_id;
  trader_id = c.trader_id;
  side = c.side;
  type = c.type;
  price = c.price;
  quantity = c.quantity;
  time_in_force = c.time_in_force;
  seq = seq;
  ts = c.timestamp;
}

unfoldable pub process_new_order : Engine → NewOrderCommand → ℕ → List Event × Engine
process_new_order e c seq =
    let refusal = λ (reason : RejectReason). rejected (record {
      sequence_number = seq;
      timestamp = c.timestamp;
      symbol_id = c.symbol_id;
      order_id = c.order_id;
      trader_id = c.trader_id;
      reason = reason;
    }) in
    elim (find_book e c.symbol_id) [
      | none ↦ (refusal RejectReason.invalid_symbol ∷ [], e)
      | some b ↦
          let (r, b') = add_order b (incoming_of c seq) in
          let e' = with_book e c.symbol_id b' in
          if not r.accepted
          then (refusal r.reject_reason ∷ [], e')
          else (accepted_events c seq r b', e')
    ]

unfoldable pub process_cancel : Engine → CancelCommand → ℕ → Option (List Event × Engine)
process_cancel e c seq =
    let refusal = λ (reason : RejectReason). rejected (record {
      sequence_number = seq;
      timestamp = c.timestamp;
      symbol_id = c.symbol_id;
      order_id = c.order_id;
      trader_id = c.trader_id;
      reason = reason;
    }) in
    elim (find_book e c.symbol_id) [
      | none ↦ some (refusal RejectReason.invalid_symbol ∷ [], e)
      | some b ↦ do
        existing ← find_order b c.order_id
        (r, b') ← cancel_order b c.order_id
        let e' = with_book e c.symbol_id b'
        if not r.success
            then some (refusal r.reject_reason ∷ [], e')
            else some (cancelled_events c seq existing r b', e')
    ]

unfoldable pub process_modify : Engine → ModifyCommand → ℕ → Option (List Event × Engine)
process_modify e c seq =
    let refusal = λ (reason : RejectReason). rejected (record {
      sequence_number = seq;
      timestamp = c.timestamp;
      symbol_id = c.symbol_id;
      order_id = c.order_id;
      trader_id = c.trader_id;
      reason = reason;
    }) in
    elim (find_book e c.symbol_id) [
      | none ↦ some (refusal RejectReason.invalid_symbol ∷ [], e)
      | some b ↦ do
        existing ← find_order b c.order_id
        elim existing [
          | none ↦ some (refusal RejectReason.unknown_order ∷ [], e)
          | some o ↦ do
            (r, b') ← modify_order b c.order_id c.new_price c.new_quantity seq c.timestamp
            let e' = with_book e c.symbol_id b'
            if not r.success
                then some (refusal r.reject_reason ∷ [], e')
                else some (modified_events c seq o r b', e')
        ]
    ]

-- The sequence number given to the command, its events and the engine after it.
unfoldable pub process : Engine → Command → Option (ℕ × List Event × Engine)
process e cmd =
    let seq = e.next_seq in
    let e' = record e { next_seq = add64 seq 1 } in
    elim cmd [
      | new_order c ↦ let (out, e'') = process_new_order e' c seq in some (seq, out, e'')
      | cancel c ↦ do (out, e'') ← process_cancel e' c seq; some (seq, out, e'')
      | modify c ↦ do (out, e'') ← process_modify e' c seq; some (seq, out, e'')
    ]

unfoldable pub set_next_sequence_number : Engine → ℕ → Engine
set_next_sequence_number e n = record e { next_seq = n }
