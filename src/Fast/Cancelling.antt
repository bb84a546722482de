-- ===== src/Fast/Cancelling.antt =====
-- `CancelOrder` of the pooled book does what that of the reference book does.
use order_book_matching_engi.Common.{
  ℕ, ◌≡◌, refl, true, inl, inr, none, some, Option-cases, List, ◌∷◌,
}
use order_book_matching_engi.Common.Keyed
use order_book_matching_engi.Types
use order_book_matching_engi.Types.{Price, Order, OrderId, is_buy}
use order_book_matching_engi.Naive
use order_book_matching_engi.Naive.{Locator, find_node, deref, CancelResult}
use order_book_matching_engi.Naive.Books.{IsBook}
use order_book_matching_engi.Naive.Indexed.{Agrees}
use order_book_matching_engi.Naive.Operations
use order_book_matching_engi.Naive.Operations.{shrink_level}
use order_book_matching_engi.Naive.Amend
use order_book_matching_engi.Fast
use order_book_matching_engi.Fast.{NodePool}
use order_book_matching_engi.Fast.Book
use order_book_matching_engi.Fast.Image.{book_of, IsHeld, find-links}
use order_book_matching_engi.Fast.Adding.{Simulates}
use order_book_matching_engi.Fast.Leaving.{load_live}
use order_book_matching_engi.Fast.Finding.{IsFound, find-IsFound, remove_from_book-Agrees}

module _ (b : Naive.OrderBook) (pool : NodePool) (id : OrderId) where
  -- Neither book has the order.
  absent :
      Keyed.find id b.index ≡ none
      → (Amend.cancel_order b id ≡ some (Amend.refused_cancel, b))
        × (Book.cancel_order (book_of b pool) id ≡ some (Amend.refused_cancel, book_of b pool))
  unfolding Amend.cancel_order Book.cancel_order
  absent e =
      (rw (e, Amend.cancel_order) refl, rw (find-links id b.index, e, Book.cancel_order) refl)

  abbrev cancel_result : Order → CancelResult
  cancel_result o = record {
    success = true;
    reject_reason = Types.RejectReason.none;
    symbol_id = o.symbol_id;
    trader_id = o.trader_id;
  }

  present :
      (loc : Locator) (found : IsFound b pool loc id) (b' : Naive.OrderBook) (f : Fast.OrderBook)
      → Keyed.find id b.index ≡ some loc
      → Operations.remove_from_book b loc id ≡ some b'
      → Book.remove_from_book (book_of b pool) loc.it found.order.side found.order.price id ≡ some f
      → (Amend.cancel_order b id ≡ some (cancel_result found.order, b'))
        × (Book.cancel_order (book_of b pool) id ≡ some (cancel_result found.order, f))
  unfolding Amend.cancel_order Book.cancel_order deref
  present loc found b' f e removes run = (
    rw (e, Amend.cancel_order) (rw found.in_level (rw found.in_queue (rw removes refl))),
    rw (find-links id b.index, e, Book.cancel_order)
        (rw (load_live pool loc.it _ found.in_slot) (rw run refl)),
  )

  -- On the pooled book of a well-formed and indexed reference book `CancelOrder` gives the result of
  -- the reference book and the pooled book of what that becomes, which is well formed.
  pub cancel_order-Simulates :
      (ps : List ℕ)
      → IsBook b
      → IsHeld b.bids b.asks pool ps
      → Agrees b
      → (r : CancelResult × Naive.OrderBook) × (Amend.cancel_order b id ≡ some r)
        × Simulates r (Book.cancel_order (book_of b pool) id) pool.capacity
        × IsBook r.1
  cancel_order-Simulates ps k h g = elim (Option-cases (Keyed.find id b.index)) [
    | inl e ↦
        let (same, pooled) = absent e in
        (
          (Amend.refused_cancel, b),
          same,
          record { pool = pool; frees = ps; same = pooled; held = h; capacity = refl; agrees = g },
          k,
        )
    | inr (loc, e) ↦
        let found = find-IsFound b pool ps id loc k h g e in
        let (reference, pool', run, held, kept, agrees, whole) =
          remove_from_book-Agrees b pool ps id loc k h g e found in
        let (same, pooled) = present loc found _ _ e reference run in
        (
          (cancel_result found.order, _),
          same,
          record {
            pool = pool';
            frees = loc.it ∷ ps;
            same = pooled;
            held = held;
            capacity = kept;
            agrees = agrees;
          },
          whole,
        )
  ]
